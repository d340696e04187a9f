-- ===== src/Scheduler/Adding/Pruning.antt =====
-- The entries that pruning drops, and the loop that drops them.
use ityfuzz.Prelude.{
  contains, ℕ, ◌+◌, ◌≤◌, ◌<◌, ◌≡◌, ◌≢◌, refl, false, none, some, List, [], ◌∷◌, ◌==◌, if◌then◌else◌,
  wrapping_add, get, erase, nat_eq, word, arith, length, get-erase, take, All, >>=-eq-some,
  Bool-cases, inl, inr, length-take,
}
use std.Path.{subst}
use ityfuzz.Scheduler.Deps.Counts.{Live}
use ityfuzz.Scheduler.Deps.Growth.{remove_node-Refines}
use ityfuzz.Scheduler.Votes.{VoteData, on_remove}
use ityfuzz.Scheduler.Votes.Totals.{on_remove-IsConsistent}
use ityfuzz.Scheduler.Adding.{Sort, may_go, chosen, to_drop, prune_amt, drop_one, drop_all}
use ityfuzz.Scheduler.Adding.Growing.{IsSound}

abbrev pub MayGo : ℕ → ℕ → Type 0
MayGo idx i = (3 ≤ i) × (i ≢ idx)

chosen-MayGo : (idx : ℕ) (sorted : List (ℕ × (ℕ × ℕ))) → All (MayGo idx) (chosen idx sorted)
unfolding chosen
chosen-MayGo idx [] = tt
chosen-MayGo idx ((i, entry) ∷ sorted) = elim (Bool-cases (may_go idx i)) [
  | inl goes ↦
      let rest = chosen-MayGo idx sorted in
      let first : MayGo idx i = (ground (arith, goes), ground (arith, goes)) in
      let both : All (MayGo idx) (i ∷ chosen idx sorted) = (first, rest) in
      let same : i ∷ chosen idx sorted ≡ chosen idx ((i, entry) ∷ sorted) = ground (arith, goes) in
      subst (λ (is : List ℕ). All (MayGo idx) is) same both
  | inr stays ↦ ground (arith, stays, chosen-MayGo idx sorted)
]

length-chosen : (idx : ℕ) (sorted : List (ℕ × (ℕ × ℕ))) → length (chosen idx sorted) ≤ length sorted
unfolding chosen
length-chosen idx [] = omega arith
length-chosen idx ((i, entry) ∷ sorted) = ground (arith, length-chosen idx sorted)

-- Pruning drops no more than 250 entries, for any order of them, and neither the three artifacts
-- nor the entry that has just been added.
pub to_drop-MayGo :
    (sort_by_score : Sort) (idx : ℕ) (d : VoteData)
    → (length (to_drop sort_by_score idx d) ≤ prune_amt)
      × All (MayGo idx) (to_drop sort_by_score idx d)
unfolding to_drop
to_drop-MayGo sort_by_score idx d =
    let sorted = take prune_amt (sort_by_score d.votes_and_visits) in
    (
      omega (
        arith,
        length-chosen idx sorted,
        length-take prune_amt (sort_by_score d.votes_and_visits),
      ),
      chosen-MayGo idx sorted,
    )

length-erase-le : (i : ℕ) (live : Live) → length (erase i live) ≤ length live
unfolding erase
length-erase-le i [] = omega arith
length-erase-le i ((j, path) ∷ live) = ground (arith, length-erase-le i live)

on_remove-deps : (d d' : VoteData) (i : ℕ) → on_remove d i ≡ some d' → d'.deps ≡ d.deps
unfolding on_remove
on_remove-deps d d' i h =
    let (entry, e, h1) = >>=-eq-some (get i d.votes_and_visits) _ h in ground arith

abbrev Without : ℕ → VoteData → VoteData → Type 0
Without i d d' =
    (j : ℕ) → get j d'.votes_and_visits ≡ (if j == i then none else get j d.votes_and_visits)

entries-Without :
    (d d' : VoteData) (live : Live) (i : ℕ)
    → IsSound d live
    → Without i d d'
    → (j votes visits : ℕ) → get j d'.votes_and_visits ≡ some (votes, visits)
    → (votes < word) × (visits < word) × (p : List ℕ) × (get j (erase i live) ≡ some p)
entries-Without d d' live i s without j votes visits h =
    let (v, w, p, q) = s.entries j votes visits (ground (arith, h, without j)) in
    (v, w, p, ground (arith, q, h, without j, get-erase i j live))

drop_one-IsSound :
    (d : VoteData) (live : Live) (i votes visits : ℕ)
    → IsSound d live
    → length live + 1 < word
    → get i d.votes_and_visits ≡ some (votes, visits)
    → (d' : VoteData) × (drop_one i d ≡ some d') × IsSound d' (erase i live) × Without i d d'
unfolding drop_one
drop_one-IsSound d live i votes visits s room here =
    let (sv, sw, path, alive) = s.entries i votes visits here in
    let (d1, e, c, _) = on_remove-IsConsistent d i votes visits 0 s.consistent here sv sw in
    let (deps, runs, r) = remove_node-Refines d.deps live i path s.refines room alive in
    let same : d1.deps ≡ d.deps = on_remove-deps d d1 i e in
    let without : Without i d d1 = λ j.
      let (d2, e', _, at) = on_remove-IsConsistent d i votes visits j s.consistent here sv sw in
      ground (arith, e, e', at) in
    (
      record d1 { deps = deps },
      ground (arith, e, same, runs),
      record {
        consistent = record {
          distinct = c.distinct;
          votes = c.votes;
          visits = c.visits;
          listed = c.listed;
        };
        refines = r;
        entries = λ j v w h. entries-Without d d1 live i s without j v w h;
      },
      without,
    )

abbrev pub erase_live : List ℕ → Live → Live
erase_live [] live = live
erase_live (i ∷ rest) live = erase_live rest (erase i live)

-- Each of the indices is there, once.
abbrev pub Listed : List ℕ → VoteData → Type 0
Listed [] d = Unit
Listed (i ∷ rest) d =
    (votes : ℕ) × (visits : ℕ) × (get i d.votes_and_visits ≡ some (votes, visits))
    × (contains i rest ≡ false)
    × Listed rest d

Listed-Without :
    (is : List ℕ) (i : ℕ) (d d' : VoteData)
    → contains i is ≡ false
    → Without i d d'
    → Listed is d
    → Listed is d'
Listed-Without [] i d d' new without l = tt
Listed-Without (k ∷ is) i d d' new without (votes, visits, here, once, rest) = (
  votes,
  visits,
  ground (arith, new, here, without k),
  once,
  Listed-Without is i d d' (ground (arith, new)) without rest,
)

-- Dropping indices that are there does not panic: the metadata stays consistent and loses just
-- these entries, and the tree counts the paths that remain.
pub drop_all-IsSound :
    (is : List ℕ) (d : VoteData) (live : Live) (removed : ℕ)
    → IsSound d live
    → length live + 1 < word
    → Listed is d
    → (d' : VoteData) × (removed' : ℕ) × (drop_all is d removed ≡ some (d', removed'))
      × IsSound d' (erase_live is live)
      × ((j : ℕ)
          → get j d'.votes_and_visits ≡ (if contains j is then none else get j d.votes_and_visits))
unfolding drop_all
drop_all-IsSound [] d live removed s room l = (d, removed, refl, s, λ j. refl)
drop_all-IsSound (i ∷ is) d live removed s room (votes, visits, here, once, rest) =
    let (d1, e, s1, without) = drop_one-IsSound d live i votes visits s room here in
    let (d', removed', e', s', at) =
      drop_all-IsSound is d1 (erase i live) (wrapping_add removed 1) s1
        (omega (arith, length-erase-le i live)) (Listed-Without is i d d1 once without rest) in
    (d', removed', ground (arith, e, e'), s', λ j. ground (arith, at j, without j))
