-- ===== src/Scheduler/Votes.antt =====
-- `VoteData`, and `vote`, `on_remove` and `next` of `SortedDroppingScheduler` in src/scheduler.rs.
-- The hash map is an association list; `none` is a failed `unwrap`.
pub mod Totals
pub mod Sampling
use ityfuzz.Prelude.{
  ℕ, zero, suc, ◌-◌, Bool, true, false, ◌&&◌, Option, none, some, List, [], ◌∷◌, ◌==◌, leb,
  if◌then◌else◌, wrapping_add, wrapping_sub, get, insert, erase, ◌>>=◌, nat_eq, length, keep_if,
  all_of, last?, not, ◌||◌, word,
}
use ityfuzz.Scheduler.Deps.{DependencyTree}

pub record VoteData : Type 0 where
  pub votes_and_visits : List (ℕ × (ℕ × ℕ))
  pub sorted_votes : List ℕ
  pub visits_total : ℕ
  pub votes_total : ℕ
  pub deps : DependencyTree
  pub to_remove : List ℕ

abbrev pub corpus_initial_votes : ℕ
corpus_initial_votes = 3

abbrev pub is_some {ℓ} : {A : Type ℓ} → Option A → Bool
is_some none = false
is_some (some a) = true

abbrev pub votes_of : List (ℕ × (ℕ × ℕ)) → ℕ → ℕ
votes_of m i = elim (get i m) [ none ↦ 0 | some (votes, visits) ↦ votes ]

-- `slice::sort_by`, which is stable, with `votes_y.cmp(votes_x)`: insertion, most votes first.
unfoldable pub insert_sorted : List (ℕ × (ℕ × ℕ)) → ℕ → List ℕ → List ℕ
insert_sorted m x [] = x ∷ []
insert_sorted m x (y ∷ ys) =
    if leb (votes_of m y) (votes_of m x) then x ∷ y ∷ ys else y ∷ insert_sorted m x ys

unfoldable pub sort_by_votes : List (ℕ × (ℕ × ℕ)) → List ℕ → List ℕ
unfolding insert_sorted
sort_by_votes m [] = []
sort_by_votes m (x ∷ xs) = insert_sorted m x (sort_by_votes m xs)

-- The comparison unwraps the entry of each index; a list of one index is not compared.
unfoldable pub resort : List (ℕ × (ℕ × ℕ)) → List ℕ → Option (List ℕ)
unfolding sort_by_votes
resort m xs =
    if leb (length xs) 1 || all_of (λ i. is_some (get i m)) xs
    then some (sort_by_votes m xs)
    else none

-- `if let Some((votes, _)) = get_mut(&idx) { *votes += increment; }`
abbrev pub credit : List (ℕ × (ℕ × ℕ)) → ℕ → ℕ → List (ℕ × (ℕ × ℕ))
credit m idx increment = elim (get idx m) [
  | some (votes, visits) ↦ insert idx (wrapping_add votes increment, visits) m
  | none ↦ m
]

unfoldable pub vote : VoteData → ℕ → ℕ → Option VoteData
unfolding resort
vote d idx increment = do
  let votes_and_visits = credit d.votes_and_visits idx increment
  sorted ← resort votes_and_visits d.sorted_votes
  some (record d {
    votes_and_visits = votes_and_visits;
    sorted_votes = sorted;
    votes_total = wrapping_add d.votes_total increment;
  })

unfoldable pub on_remove : VoteData → ℕ → Option VoteData
on_remove d idx = do
  entry ← get idx d.votes_and_visits
  some (record d {
    votes_total = wrapping_sub d.votes_total entry.0;
    visits_total = wrapping_sub d.visits_total entry.1;
    votes_and_visits = erase idx d.votes_and_visits;
    sorted_votes = keep_if (λ x. not (x == idx)) d.sorted_votes;
  })

-- The operations of `f64` that the sampling uses.
pub record Float : Type 1 where
  pub F64 : Type 0
  pub of_ℕ : ℕ → F64
  pub add : F64 → F64 → F64
  pub mul : F64 → F64 → F64
  pub div : F64 → F64 → F64
  pub gtb : F64 → F64 → Bool

abbrev pub usize_max : ℕ
usize_max = word - 1

module _ (f : Float) where
  open f use {F64, of_ℕ, add, mul, div, gtb}

  -- The loop over `sorted_votes`, with the sum so far; it ends with `usize::MAX` if no prefix has
  -- a sum above the threshold.
  unfoldable pub pick : List (ℕ × (ℕ × ℕ)) → F64 → F64 → List ℕ → Option ℕ
  pick m threshold s [] = some usize_max
  pick m threshold s (i ∷ rest) = elim (get i m) [
    | none ↦ none
    | some (votes, visits) ↦ elim (gtb (add s (of_ℕ votes)) threshold) [
      | true ↦ some i
      | false ↦ pick m threshold (add s (of_ℕ votes)) rest
    ]
  ]

  -- The index that is sampled; `rand` is `rand_mut().below(1000)`.
  unfoldable pub select : ℕ → VoteData → Option ℕ
  unfolding pick
  select rand d = do
    let threshold = mul (div (of_ℕ rand) (of_ℕ 1000)) (of_ℕ d.votes_total)
    picked ← pick d.votes_and_visits threshold (of_ℕ 0) d.sorted_votes
    if picked == usize_max then last? d.sorted_votes else some picked

  unfoldable pub next : ℕ → VoteData → Option (VoteData × ℕ)
  unfolding select
  next rand d = do
    idx ← select rand d
    entry ← get idx d.votes_and_visits
    some (
      record d {
        votes_and_visits = insert idx (entry.0, wrapping_add entry.1 1) d.votes_and_visits;
        visits_total = wrapping_add d.visits_total 1;
      },
      idx,
    )
