-- ===== src/Scheduler/Votes/Sampling.antt =====
-- The weighted sampling of `next`, whatever the floating-point operations answer.
use ityfuzz.Prelude.{
  contains, ℕ, ◌+◌, ◌%◌, ◌≡◌, refl, true, false, some, List, [], ◌∷◌, arith, get, insert,
  get-insert, nat_eq, Unique-insert, total-insert_old, word, Option-cases, Bool-cases, inl, inr,
  ◌⊎◌, last?,
}
use ityfuzz.Scheduler.Votes.{VoteData, Float, is_some, pick, select, next, usize_max}
use ityfuzz.Scheduler.Votes.Totals.{IsConsistent}

contains-last? :
    (x : ℕ) (xs : List ℕ) → (y : ℕ) × (last? (x ∷ xs) ≡ some y) × (contains y (x ∷ xs) ≡ true)
contains-last? x [] = (x, refl, ground arith)
contains-last? x (z ∷ zs) = let (y, e, on) = contains-last? z zs in (y, e, ground arith)

module _ (f : Float) where
  open f use {F64, of_ℕ, add, mul, div, gtb}

  pick_lem :
      (m : List (ℕ × (ℕ × ℕ))) (threshold s : F64) (xs : List ℕ)
      → ((i : ℕ) → contains i xs ≡ true → is_some (get i m) ≡ true)
      → (r : ℕ) × (pick f m threshold s xs ≡ some r) × ((r ≡ usize_max) ⊎ (contains r xs ≡ true))
  unfolding pick
  pick_lem m threshold s [] h = (usize_max, refl, inl refl)
  pick_lem m threshold s (i ∷ rest) h = elim (Option-cases (get i m)) [
    | inl e ↦ absurd (ground (arith, h i))
    | inr ((votes, visits), e) ↦ elim (Bool-cases (gtb (add s (of_ℕ votes)) threshold)) [
      | inl hit ↦ (i, rw (e, pick) (rw (hit, pick)), inr (ground arith))
      | inr miss ↦
          let (r, runs, found) =
            pick_lem m threshold (add s (of_ℕ votes)) rest (λ j on. h j (ground arith)) in
          (r, rw (e, pick) (rw (miss, pick) runs), ground arith)
    ]
  ]

  select_lem :
      (rand : ℕ) (d : VoteData) (x : ℕ) (xs : List ℕ)
      → IsConsistent d
      → d.sorted_votes ≡ x ∷ xs
      → contains usize_max d.sorted_votes ≡ false
      → (idx : ℕ) × (select f rand d ≡ some idx) × (contains idx d.sorted_votes ≡ true)
  unfolding select
  select_lem rand d x xs v lists none_max =
      let (r, runs, found) =
        pick_lem d.votes_and_visits (mul (div (of_ℕ rand) (of_ℕ 1000)) (of_ℕ d.votes_total))
          (of_ℕ 0) d.sorted_votes (λ i on. ground (arith, v.listed i)) in
      let (y, last, on) = contains-last? x xs in
      elim found [
        | inl e ↦ (y, rw (runs, select) (ground (arith, last)), ground arith)
        | inr hit ↦ (r, rw (runs, select) (ground arith), hit)
      ]

  abbrev visited : VoteData → ℕ → ℕ → ℕ → VoteData
  visited d idx votes visits = record d {
    votes_and_visits = insert idx (votes, (visits + 1) % word) d.votes_and_visits;
    visits_total = (d.visits_total + 1) % word;
  }

  visited-IsConsistent :
      (d : VoteData) (idx votes visits : ℕ)
      → IsConsistent d
      → get idx d.votes_and_visits ≡ some (votes, visits)
      → IsConsistent (visited d idx votes visits)
  visited-IsConsistent d idx votes visits v e = record {
    distinct = Unique-insert idx (votes, (visits + 1) % word) d.votes_and_visits v.distinct;
    votes = omega (
      arith,
      v.votes,
      total-insert_old (λ (entry : ℕ × ℕ). entry.0) idx (votes, (visits + 1) % word) (votes, visits)
          d.votes_and_visits e,
    );
    visits = omega (
      arith,
      v.visits,
      total-insert_old (λ (entry : ℕ × ℕ). entry.1) idx (votes, (visits + 1) % word) (votes, visits)
          d.votes_and_visits e,
    );
    listed = λ i.
        ground
          (arith, e, v.listed i, get-insert idx i (votes, (visits + 1) % word) d.votes_and_visits);
  }

  -- `next` on consistent data that lists at least one index, none of them `usize::MAX`, does not
  -- panic. It returns a listed index, raises the number of visits of that entry by one and changes
  -- no other entry, and the data stays consistent. This holds whatever the random number is and
  -- whatever the floating-point operations answer.
  pub next-IsConsistent :
      (rand : ℕ) (d : VoteData) (x : ℕ) (xs : List ℕ)
      → IsConsistent d
      → d.sorted_votes ≡ x ∷ xs
      → contains usize_max d.sorted_votes ≡ false
      → (d' : VoteData) × (idx votes visits : ℕ) × (next f rand d ≡ some (d', idx))
        × (contains idx d.sorted_votes ≡ true)
        × (get idx d.votes_and_visits ≡ some (votes, visits))
        × (d'.votes_and_visits ≡ insert idx (votes, (visits + 1) % word) d.votes_and_visits)
        × IsConsistent d'
  unfolding next
  next-IsConsistent rand d x xs v lists none_max =
      let (idx, selected, on) = select_lem rand d x xs v lists none_max in
      elim (Option-cases (get idx d.votes_and_visits)) [
        | inl e ↦ absurd (ground (arith, v.listed idx))
        | inr ((votes, visits), e) ↦ (
          visited d idx votes visits,
          idx,
          votes,
          visits,
          rw (selected, next) (rw (e, next)),
          on,
          e,
          refl,
          visited-IsConsistent d idx votes visits v e,
        )
      ]
