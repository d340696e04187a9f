-- ===== src/Scheduler/Deps/Growth.antt =====
-- `add_node` and `remove_node` keep every reference count exact.
use ityfuzz.Prelude.{
  ℕ, zero, suc, ◌+◌, ◌<◌, ◌≡◌, ◌⊎◌, inl, inr, refl, true, none, some, List, [], ◌∷◌, arith, ◌==◌,
  get, insert, erase, get-insert, get-erase, nat_eq, word, length, Unique-insert, Unique-erase,
  Option-cases, Bool-cases,
}
use ityfuzz.Scheduler.Deps.{
  Node, DependencyTree, increment, decrement, fresh_node, add_node, remove_node,
}
use ityfuzz.Scheduler.Deps.Paths.{Chain, root, up, contains_absent, SameParent}
use ityfuzz.Scheduler.Deps.Counts.{
  Live, paths_through, IsPath, Refines, Outcome, loop-Outcome, outcome_keep, outcome_chains,
  IsPath-keep, Chain-keep, not_self, not_through, paths_through-le-length, paths_through-insert,
  paths_through-erase,
}

fresh_index :
    {t : DependencyTree} {live : Live} (idx : ℕ)
    → Refines t live
    → get idx t ≡ none
    → get idx live ≡ none
fresh_index {live = live} idx r absent = elim (Option-cases (get idx live)) [
  | inl e ↦ e
  | inr (path, e) ↦ let v = r.paths idx path e in absurd (ground (arith, v.here))
]

-- A parent of a new node is 0 or stands in the tree, so its ancestors are known.
ancestors_of :
    {t : DependencyTree} {live : Live} (p : ℕ)
    → Refines t live
    → (p ≡ 0) ⊎ ((node : Node) × (get p t ≡ some node))
    → (ps : List ℕ) × Chain t p ps
ancestors_of zero r h = ([], root)
ancestors_of (suc p) r (inl e) = absurd (omega arith)
ancestors_of (suc p) r (inr (node, g)) =
    let (ps, c, below) = r.chains (suc p) node g in
    (suc p ∷ ps, up node (omega arith) g (below (omega arith)) c)

module _ (t u : DependencyTree) (live : Live) (r : Refines t live) (room : length live + 1 < word)
    (idx parent : ℕ) (ps : List ℕ) (absent : get idx t ≡ none) (c : Chain t parent ps)
    (below : 0 < idx → parent < idx) (out : Outcome increment idx (fresh_node parent) ps t u) where
  keep : (q : ℕ) (node : Node) → get q t ≡ some node → SameParent u node q
  keep = outcome_keep increment (λ n. refl) idx (fresh_node parent) t u ps out (λ n e. cc)

  added_paths :
      (i : ℕ) (path : List ℕ) → get i (insert idx (idx ∷ ps) live) ≡ some path → IsPath u i path
  added_paths i path g = elim (Bool-cases (idx == i)) [
    | inl hit ↦
        let e : i ≡ idx = ground arith in
        record {
          node = fresh_node parent;
          ancestors = ps;
          here = ground (arith, out i);
          split = ground (arith, get-insert idx i (idx ∷ ps) live);
          chain = Chain-keep keep c;
          below = rw e below;
        }
    | inr miss ↦
        IsPath-keep keep (r.paths i path (ground (arith, get-insert idx i (idx ∷ ps) live)))
  ]

  added_counts :
      (q : ℕ) (node : Node)
      → get q u ≡ some node
      → node.ref_count ≡ paths_through q (insert idx (idx ∷ ps) live)
  added_counts q node g = elim (Option-cases (get q t)) [
    | inl e ↦ ground (
      arith,
      out q,
      paths_through-insert q idx (idx ∷ ps) live (fresh_index idx r absent),
      not_self idx c below,
      not_through q r e,
    )
    | inr (n, e) ↦ ground (
      arith,
      out q,
      paths_through-insert q idx (idx ∷ ps) live (fresh_index idx r absent),
      r.counts q n e,
      paths_through-le-length q live,
    )
  ]

  added_Refines : Refines u (insert idx (idx ∷ ps) live)
  added_Refines = record {
    paths = added_paths;
    chains =
        outcome_chains increment (λ n. refl) idx (fresh_node parent) t u ps out (λ n e. cc) live r c
          below;
    counts = added_counts;
    distinct = Unique-insert idx (idx ∷ ps) live r.distinct;
  }

-- In a tree whose counts are exact, with fewer than 2^64 - 1 live indices, `add_node` of an
-- absent index below a parent that is 0 or in the tree, and smaller unless the index is 0, does
-- not panic. Every reference count is again the number of live paths through its node: the new
-- node is live, with the path that consists of it and its ancestors.
pub add_node-Refines :
    (t : DependencyTree) (live : Live) (idx parent : ℕ)
    → Refines t live
    → length live + 1 < word
    → get idx t ≡ none
    → (parent ≡ 0) ⊎ ((node : Node) × (get parent t ≡ some node))
    → (0 < idx → parent < idx)
    → (u : DependencyTree) × (ps : List ℕ) × (add_node idx parent t ≡ some u)
      × Chain t parent ps
      × Refines u (insert idx (idx ∷ ps) live)
unfolding add_node
add_node-Refines t live idx parent r room absent known below =
    let (ps, c) = ancestors_of parent r known in
    let (u, runs, out) =
      loop-Outcome increment idx (fresh_node parent) t (λ n. refl) c
        (contains_absent idx c absent) in
    (u, ps, runs, c, added_Refines t u live r room idx parent ps absent c below out)

module _ (t u : DependencyTree) (live : Live) (r : Refines t live) (room : length live + 1 < word)
    (idx : ℕ) (path : List ℕ) (here : get idx live ≡ some path) (v : IsPath t idx path)
    (out : Outcome decrement idx
      (record (decrement v.node) { pending_delete = true })
      v.ancestors
      t
      u) where
  old_parent : (node : Node) → get idx t ≡ some node → v.node.parent ≡ node.parent
  old_parent node g = ground (arith, v.here)

  removed_paths : (i : ℕ) (p : List ℕ) → get i (erase idx live) ≡ some p → IsPath u i p
  removed_paths i p g =
      IsPath-keep (outcome_keep decrement (λ n. refl) idx _ t u v.ancestors out old_parent)
        (r.paths i p (ground (arith, get-erase idx i live)))

  removed_counts :
      (q : ℕ) (node : Node)
      → get q u ≡ some node
      → node.ref_count ≡ paths_through q (erase idx live)
  removed_counts q node g = elim (Option-cases (get q t)) [
    | inl e ↦ absurd (ground (arith, out q, v.here))
    | inr (n, e) ↦ ground (
      arith,
      out q,
      v.here,
      v.split,
      paths_through-erase q idx path live r.distinct here,
      r.counts q n e,
      not_self idx v.chain v.below,
      paths_through-le-length q live,
    )
  ]

  removed_Refines : Refines u (erase idx live)
  removed_Refines = record {
    paths = removed_paths;
    chains =
        outcome_chains decrement (λ n. refl) idx _ t u v.ancestors out old_parent live r v.chain
          v.below;
    counts = removed_counts;
    distinct = Unique-erase idx live r.distinct;
  }

-- In a tree whose counts are exact, with fewer than 2^64 - 1 live indices, `remove_node` of a
-- live index does not panic, and every reference count is the number of the remaining live paths
-- through its node.
pub remove_node-Refines :
    (t : DependencyTree) (live : Live) (idx : ℕ) (path : List ℕ)
    → Refines t live
    → length live + 1 < word
    → get idx live ≡ some path
    → (u : DependencyTree) × (remove_node idx t ≡ some u) × Refines u (erase idx live)
unfolding remove_node
remove_node-Refines t live idx path r room here =
    let v = r.paths idx path here in
    let (u, runs, out) =
      loop-Outcome decrement idx (record (decrement v.node) { pending_delete = true }) t (λ n. refl)
        v.chain (not_self idx v.chain v.below) in
    (u, ground (arith, v.here, runs), removed_Refines t u live r room idx path here v out)
