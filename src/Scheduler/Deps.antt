-- ===== src/Scheduler/Deps.antt =====
-- `DependencyTree` of src/scheduler.rs. The `while parent != 0` loops take fuel; `none` is an
-- `unwrap` of a missing node, or the end of the fuel.
pub mod Paths
pub mod Counts
pub mod Growth
pub mod Garbage
use ityfuzz.Prelude.{
  ℕ, zero, suc, Bool, true, false, ◌&&◌, not, Option, none, some, List, [], ◌∷◌, ◌==◌,
  if◌then◌else◌, wrapping_add, wrapping_sub, get, insert, erase, ◌>>=◌, nat_eq,
}

pub record Node : Type 0 where
  pub parent : ℕ
  pub ref_count : ℕ
  pub pending_delete : Bool
  pub never_delete : Bool

abbrev pub DependencyTree : Type 0
DependencyTree = List (ℕ × Node)

unfoldable pub new : DependencyTree
new = []

-- `while parent != 0 { let node = nodes.get_mut(&parent).unwrap(); …; parent = node.parent; }`
unfoldable pub for_ancestors : (Node → Node) → ℕ → ℕ → DependencyTree → Option DependencyTree
for_ancestors f zero parent nodes = none
for_ancestors f (suc fuel) parent nodes = elim (parent == 0) [
  | true ↦ some nodes
  | false ↦ do
    node ← get parent nodes
    for_ancestors f fuel node.parent (insert parent (f node) nodes)
]

abbrev pub increment : Node → Node
increment node = record node { ref_count = wrapping_add node.ref_count 1 }

abbrev pub decrement : Node → Node
decrement node = record node { ref_count = wrapping_sub node.ref_count 1 }

abbrev pub keep_forever : Node → Node
keep_forever node = record node { never_delete = true }

abbrev pub fresh_node : ℕ → Node
fresh_node parent = record {
  parent = parent;
  ref_count = 1;
  pending_delete = false;
  never_delete = false;
}

-- The fuel is `parent + 1`, which is enough where each parent is below its child.
unfoldable pub add_node : ℕ → ℕ → DependencyTree → Option DependencyTree
unfolding for_ancestors
add_node idx parent nodes =
    for_ancestors increment (suc parent) parent (insert idx (fresh_node parent) nodes)

unfoldable pub remove_node : ℕ → DependencyTree → Option DependencyTree
unfolding for_ancestors
remove_node idx nodes = do
  node ← get idx nodes
  let left = record (decrement node) { pending_delete = true }
  for_ancestors decrement (suc node.parent) node.parent (insert idx left nodes)

unfoldable pub mark_never_delete : ℕ → DependencyTree → Option DependencyTree
unfolding for_ancestors
mark_never_delete idx nodes = do
  node ← get idx nodes
  for_ancestors keep_forever (suc node.parent) node.parent (insert idx (keep_forever node) nodes)

unfoldable pub is_garbage : Node → Bool
is_garbage node = node.ref_count == 0 && (node.pending_delete && not node.never_delete)

unfoldable pub to_remove : DependencyTree → List ℕ
to_remove [] = []
to_remove ((idx, node) ∷ nodes) = if is_garbage node then idx ∷ to_remove nodes else to_remove nodes

unfoldable pub erase_all : List ℕ → DependencyTree → DependencyTree
erase_all [] nodes = nodes
erase_all (idx ∷ rest) nodes = erase_all rest (erase idx nodes)

-- The removed indices, in the order in which the map lists its entries, and the tree without them.
unfoldable pub garbage_collection : DependencyTree → List ℕ × DependencyTree
unfolding to_remove is_garbage erase_all
garbage_collection nodes = (to_remove nodes, erase_all (to_remove nodes) nodes)
