-- ===== src/Scheduler/Deps/Counts.antt =====
-- The tree against its abstract view: the live indices, each with its path to the root. The
-- reference count of a node is the number of live paths through it.
use ityfuzz.Prelude.{
  contains, ℕ, zero, suc, ◌+◌, ◌<◌, ◌≤◌, ◌≡◌, inl, inr, refl, false, none, some, List, [], ◌∷◌,
  arith, ◌==◌, if◌then◌else◌, get, insert, erase, get-insert, nat_eq, total, Unique, length,
  total-insert_new, total-erase, total-le, Option-cases, Bool-cases,
}
use ityfuzz.Scheduler.Deps.{Node, DependencyTree, new, for_ancestors}
use ityfuzz.Scheduler.Deps.Paths.{
  Chain, contains-Chain_above, contains_zero, contains_absent, SameParent, Chain-map, map_node,
  for_ancestors_lem,
}

abbrev pub Live : Type 0
Live = List (ℕ × List ℕ)

abbrev pub passes : ℕ → List ℕ → ℕ
passes q path = if contains q path then 1 else 0

unfoldable pub paths_through : ℕ → Live → ℕ
paths_through q live = total (passes q) live

pub paths_through-le-length : (q : ℕ) (live : Live) → paths_through q live ≤ length live
unfolding paths_through total
paths_through-le-length q [] = omega arith
paths_through-le-length q ((i, path) ∷ live) = ground (arith, paths_through-le-length q live)

pub paths_through-insert :
    (q i : ℕ) (path : List ℕ) (live : Live)
    → get i live ≡ none
    → paths_through q (insert i path live) ≡ paths_through q live + passes q path
unfolding paths_through
paths_through-insert q i path live h = total-insert_new (passes q) i path live h

pub paths_through-erase :
    (q i : ℕ) (path : List ℕ) (live : Live)
    → Unique live
    → get i live ≡ some path
    → paths_through q (erase i live) + passes q path ≡ paths_through q live
unfolding paths_through
paths_through-erase q i path live d h = total-erase (passes q) i path live d h

-- A live index stands in the tree, and its recorded path is its chain of ancestors.
pub record IsPath (t : DependencyTree) (i : ℕ) (path : List ℕ) : Type 0 where
  pub node : Node
  pub ancestors : List ℕ
  pub here : get i t ≡ some node
  pub split : path ≡ i ∷ ancestors
  pub chain : Chain t node.parent ancestors
  pub below : 0 < i → node.parent < i

pub record Refines (t : DependencyTree) (live : Live) : Type 0 where
  pub paths : (i : ℕ) (path : List ℕ) → get i live ≡ some path → IsPath t i path
  pub chains :
      (q : ℕ) (node : Node)
      → get q t ≡ some node
      → (ps : List ℕ) × Chain t node.parent ps × (0 < q → node.parent < q)
  pub counts : (q : ℕ) (node : Node) → get q t ≡ some node → node.ref_count ≡ paths_through q live
  pub distinct : Unique live

pub Refines-new : Refines new []
unfolding new get
Refines-new = record {
  paths = λ i p h. cc;
  chains = λ q n h. cc;
  counts = λ q n h. cc;
  distinct = tt;
}

total_zero : (live : Live) → total (λ (path : List ℕ). 0) live ≡ 0
unfolding total
total_zero [] = refl
total_zero ((i, path) ∷ live) = omega (arith, total_zero live)

pub not_self :
    {t : DependencyTree} {p : ℕ} {ps : List ℕ} (q : ℕ)
    → Chain t p ps
    → (0 < q → p < q)
    → contains q ps ≡ false
not_self zero c h = contains_zero c
not_self (suc q) c h = contains-Chain_above (suc q) c (h (omega arith))

-- Nodes that keep their parents keep the paths and the chains.
module _ {t u : DependencyTree}
    (keep : (q : ℕ) (node : Node) → get q t ≡ some node → SameParent u node q) where
  pub IsPath-keep : {i : ℕ} {path : List ℕ} → IsPath t i path → IsPath u i path
  IsPath-keep {i} v =
      let (node', e, same) = keep i v.node v.here in
      record {
        node = node';
        ancestors = v.ancestors;
        here = e;
        split = v.split;
        chain = rw same (Chain-map (λ q n _ g. keep q n g) v.chain);
        below = λ pos. rw same (v.below pos);
      }

  pub Chain-keep : {p : ℕ} {ps : List ℕ} → Chain t p ps → Chain u p ps
  Chain-keep c = Chain-map (λ q n _ g. keep q n g) c

pub not_through :
    {t : DependencyTree} {live : Live} (q : ℕ)
    → Refines t live
    → get q t ≡ none
    → paths_through q live ≡ 0
unfolding paths_through
not_through {t} {live} q r absent =
    omega (arith, total-le (passes q) (λ _. 0) live r.distinct off_path, total_zero live)
  where
    off_path : (i : ℕ) (path : List ℕ) → get i live ≡ some path → passes q path ≤ 0
    off_path i path here =
        let v = r.paths i path here in ground (arith, v.here, v.split, contains_absent q v.chain)

-- What the loop leaves behind when it starts from the tree with a new entry at `idx`.
abbrev pub Outcome : (Node → Node) → ℕ → Node → List ℕ → DependencyTree → DependencyTree → Type 0
Outcome f idx mid ps t u =
    (q : ℕ)
    → get q u
      ≡ (if idx == q then some mid else if contains q ps then map_node f (get q t) else get q t)

pub loop-Outcome :
    (f : Node → Node) (idx : ℕ) (mid : Node) (t : DependencyTree) {p : ℕ} {ps : List ℕ}
    → ((node : Node) → (f node).parent ≡ node.parent)
    → Chain t p ps
    → contains idx ps ≡ false
    → (u : DependencyTree) × (for_ancestors f (suc p) p (insert idx mid t) ≡ some u)
      × Outcome f idx mid ps t u
loop-Outcome f idx mid t {p} {ps} same c off =
    let c' : Chain (insert idx mid t) p ps =
      Chain-map (λ q n m g. (n, ground (arith, get-insert idx q mid t), refl)) c in
    let (u, runs, changed) = for_ancestors_lem f same (suc p) (insert idx mid t) c' (omega arith) in
    (u, runs, λ q. ground (arith, changed q, get-insert idx q mid t))

module _ (f : Node → Node) (same : (node : Node) → (f node).parent ≡ node.parent) (idx : ℕ)
    (mid : Node) (t u : DependencyTree) (ps : List ℕ) (out : Outcome f idx mid ps t u)
    (old : (node : Node) → get idx t ≡ some node → mid.parent ≡ node.parent) where
  pub outcome_keep : (q : ℕ) (node : Node) → get q t ≡ some node → SameParent u node q
  outcome_keep q node g = elim (Bool-cases (idx == q)) [
    | inl hit ↦ (mid, ground (arith, out q), ground (arith, old node))
    | inr miss ↦ elim (Bool-cases (contains q ps)) [
      | inl on ↦ (f node, ground (arith, out q), same node)
      | inr off ↦ (node, ground (arith, out q), refl)
    ]
  ]

  pub outcome_chains :
      (live : Live)
      → Refines t live
      → Chain t mid.parent ps
      → (0 < idx → mid.parent < idx)
      → (q : ℕ) (node : Node) → get q u ≡ some node
      → (qs : List ℕ) × Chain u node.parent qs × (0 < q → node.parent < q)
  outcome_chains live r c below q node g = elim (Bool-cases (idx == q)) [
    | inl hit ↦
        let e : node ≡ mid = ground (arith, out q) in
        (ps, rw e (Chain-keep outcome_keep c), rw e (λ pos. ground (arith, below)))
    | inr miss ↦ elim (Option-cases (get q t)) [
      | inl e ↦ absurd (ground (arith, out q))
      | inr (n, e) ↦
          let (qs, d, b) = r.chains q n e in
          let p : node.parent ≡ n.parent = ground (arith, out q, same n) in
          (qs, rw p (Chain-keep outcome_keep d), λ pos. rw p (b pos))
    ]
  ]
