-- ===== src/Scheduler/Deps/Paths.antt =====
-- The ancestors of a node, and what the loop over them does.
use ityfuzz.Prelude.{
  contains, ℕ, zero, suc, ◌<◌, ◌≡◌, refl, true, false, Option, none, some, List, [], ◌∷◌, arith,
  if◌then◌else◌, get, insert, get-insert, nat_eq, ◌∙◌,
}
use ityfuzz.Scheduler.Deps.{Node, DependencyTree, for_ancestors}

-- `Chain t p ps`: from `p` on, following parents through the nodes of `t` up to 0 shows `ps`,
-- each index below the one before.
pub data Chain (t : DependencyTree) : ℕ → List ℕ → Type 0 where
  root : Chain t 0 []
  up :
      {p : ℕ} {ps : List ℕ} (node : Node)
      → 0 < p
      → get p t ≡ some node
      → node.parent < p
      → Chain t node.parent ps
      → Chain t p (p ∷ ps)

pub contains-Chain_above :
    {t : DependencyTree} {p : ℕ} {ps : List ℕ} (q : ℕ)
    → Chain t p ps
    → p < q
    → contains q ps ≡ false
contains-Chain_above q root h = refl
contains-Chain_above q (up node pos here below c) h = ground (arith, contains-Chain_above q c)

pub contains_absent :
    {t : DependencyTree} {p : ℕ} {ps : List ℕ} (q : ℕ)
    → Chain t p ps
    → get q t ≡ none
    → contains q ps ≡ false
contains_absent q root h = refl
contains_absent q (up node pos here below c) h = ground (arith, contains_absent q c)

pub contains_zero :
    {t : DependencyTree} {p : ℕ} {ps : List ℕ} → Chain t p ps → contains 0 ps ≡ false
contains_zero root = refl
contains_zero (up node pos here below c) = ground (arith, contains_zero c)

-- The index `q` is still there, with the parent that it had.
abbrev pub SameParent : DependencyTree → Node → ℕ → Type 0
SameParent u node q = (node' : Node) × (get q u ≡ some node') × (node'.parent ≡ node.parent)

-- A chain stays a chain as long as the nodes on it keep their parents.
pub Chain-map :
    {t u : DependencyTree} {p : ℕ} {ps : List ℕ}
    → ((q : ℕ) (node : Node) → contains q ps ≡ true → get q t ≡ some node → SameParent u node q)
    → Chain t p ps
    → Chain u p ps
Chain-map keep root = root
Chain-map {u} keep (up {p = p} {ps = ps} node pos here below c) =
    let (node', e, same) = keep p node (ground arith) here in
    up node' pos e (omega arith) (rw same (Chain-map (λ q n m g. keep q n (ground arith) g) c))

-- On a chain, the parent of an index is 0 or the next index.
pub contains-parent :
    {t : DependencyTree} {p : ℕ} {ps : List ℕ} (q : ℕ) (node : Node)
    → Chain t p ps
    → contains q ps ≡ true
    → get q t ≡ some node
    → 0 < node.parent
    → contains node.parent ps ≡ true
contains-parent q node root m g pos = cc
contains-parent q node (up n pos' here below root) m g pos = ground arith
contains-parent q node (up n pos' here below (up n' pos'' here' below' c)) m g pos =
    ground (arith, contains-parent q node (up n' pos'' here' below' c))

abbrev pub map_node : (Node → Node) → Option Node → Option Node
map_node f none = none
map_node f (some node) = some (f node)

-- What the loop does to each node: the change `f`, on the chain alone.
abbrev pub Changed : (Node → Node) → List ℕ → DependencyTree → DependencyTree → Type 0
Changed f ps t u = (q : ℕ) → get q u ≡ (if contains q ps then map_node f (get q t) else get q t)

for_ancestors_step :
    (f : Node → Node) (fuel p : ℕ) (t : DependencyTree) (node : Node)
    → 0 < p
    → get p t ≡ some node
    → for_ancestors f (suc fuel) p t ≡ for_ancestors f fuel node.parent (insert p (f node) t)
unfolding for_ancestors
for_ancestors_step f fuel p t node pos here = ground arith

-- With fuel above the first index, the loop returns and changes each node of the chain once.
pub for_ancestors_lem :
    (f : Node → Node)
    → ((node : Node) → (f node).parent ≡ node.parent)
    → (fuel : ℕ) (t : DependencyTree) {p : ℕ} {ps : List ℕ} → Chain t p ps
    → p < fuel
    → (u : DependencyTree) × (for_ancestors f fuel p t ≡ some u) × Changed f ps t u
for_ancestors_lem f same zero t c h = absurd (omega arith)
for_ancestors_lem f same (suc fuel) t root h = (t, unfold for_ancestors in refl, λ q. refl)
for_ancestors_lem f same (suc fuel) t (up {p = p} {ps = ps} node pos here below c) h =
    let c' : Chain (insert p (f node) t) node.parent ps =
      Chain-map
        (λ q n m g. (n, ground (arith, get-insert p q (f node) t, contains-Chain_above q c), refl))
        c in
    let (u, runs, changed) = for_ancestors_lem f same fuel (insert p (f node) t) c' (omega arith) in
    (
      u,
      for_ancestors_step f fuel p t node pos here ∙ runs,
      λ q. ground (arith, changed q, get-insert p q (f node) t, contains-Chain_above q c),
    )
