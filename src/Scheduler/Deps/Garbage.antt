-- ===== src/Scheduler/Deps/Garbage.antt =====
-- What a garbage collection removes, and that it never cuts a live path.
use ityfuzz.Prelude.{
  contains, ℕ, ◌≡◌, refl, Bool, true, false, Option, none, some, List, [], ◌∷◌, arith,
  if◌then◌else◌, get, erase, get-erase, nat_eq, Unique,
}
use ityfuzz.Scheduler.Deps.{
  Node, DependencyTree, is_garbage, to_remove, erase_all, garbage_collection,
}
use ityfuzz.Scheduler.Deps.Counts.{Live, Refines, paths_through-erase}

abbrev pub garbage_at : Option Node → Bool
garbage_at none = false
garbage_at (some node) = is_garbage node

get-erase_all :
    (q : ℕ) (xs : List ℕ) (t : DependencyTree)
    → get q (erase_all xs t) ≡ (if contains q xs then none else get q t)
unfolding erase_all
get-erase_all q [] t = refl
get-erase_all q (x ∷ xs) t = ground (arith, get-erase_all q xs (erase x t), get-erase x q t)

contains-to_remove :
    (q : ℕ) (t : DependencyTree) → Unique t → contains q (to_remove t) ≡ garbage_at (get q t)
unfolding to_remove get
contains-to_remove q [] u = refl
contains-to_remove q ((i, node) ∷ t) u = ground (arith, contains-to_remove q t u.1)

-- In a tree with one node for an index, `garbage_collection` removes exactly the nodes that have
-- reference count 0, are pending deletion and are not marked `never_delete`; it reports exactly
-- those indices, and every other node stays as it is.
pub get-garbage_collection :
    (q : ℕ) (t : DependencyTree)
    → Unique t
    → (get q (garbage_collection t).1 ≡ (if garbage_at (get q t) then none else get q t))
      × (contains q (garbage_collection t).0 ≡ garbage_at (get q t))
unfolding garbage_collection
get-garbage_collection q t u =
    ground (arith, get-erase_all q (to_remove t) t, contains-to_remove q t u)

-- In a tree with one node for an index whose counts are exact, `garbage_collection` keeps every
-- node on the path of a live index.
pub live_path_survives :
    (q i : ℕ) (path : List ℕ) (t : DependencyTree) (live : Live) (node : Node)
    → Unique t
    → Refines t live
    → get i live ≡ some path
    → contains q path ≡ true
    → get q t ≡ some node
    → get q (garbage_collection t).1 ≡ some node
unfolding is_garbage
live_path_survives q i path t live node u r here on g = ground (
  arith,
  get-garbage_collection q t u,
  r.counts q node g,
  paths_through-erase q i path live r.distinct here,
)
