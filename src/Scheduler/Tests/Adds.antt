-- ===== src/Scheduler/Tests/Adds.antt =====
-- Adding and pruning at concrete values.
use ityfuzz.Prelude.{
  contains, ℕ, ◌≡◌, refl, none, some, List, [], ◌∷◌, if◌then◌else◌, arith, get, insert, nat_eq, inl,
  total,
}
use ityfuzz.Corpus.{count}
use ityfuzz.Scheduler.Deps.{new}
use ityfuzz.Scheduler.Deps.Counts.{Refines-new}
use ityfuzz.Scheduler.Votes.{VoteData}
use ityfuzz.Scheduler.Adding.{State, Sort, on_add, drop_all, new_vote_data}
use ityfuzz.Scheduler.Adding.Growing.{IsSound, on_add-IsSound}
use ityfuzz.Scheduler.Adding.Pruning.{drop_all-IsSound, erase_live}
use ityfuzz.Scheduler.Tests.{one_node, one_live, one_node-Refines}

abbrev as_is : Sort
as_is entries = entries

abbrev one_entry : VoteData
one_entry = record {
  votes_and_visits = (1, (3, 1)) ∷ [];
  sorted_votes = 1 ∷ [];
  visits_total = 2;
  votes_total = 4;
  deps = one_node;
  to_remove = [];
}

one_entry-IsSound : IsSound one_entry one_live
unfolding get total
one_entry-IsSound = record {
  consistent = record {
    distinct = (refl, tt);
    votes = refl;
    visits = refl;
    listed = λ i. ground arith;
  };
  refines = one_node-Refines;
  entries = λ i votes visits h. (ground arith, ground arith, 1 ∷ [], ground arith);
}

empty-IsSound : IsSound new_vote_data []
unfolding get total new
empty-IsSound = record {
  consistent = record { distinct = tt; votes = refl; visits = refl; listed = λ i. refl };
  refines = Refines-new;
  entries = λ i votes visits h. absurd cc;
}

abbrev empty_state : State ℕ
empty_state = record {
  corpus = record { entries = []; current_idx = 1; current = none };
  metadata = none;
  parent_idx = 0;
  removed_corpus = 0;
}

on_add-IsSound_example :
    (d : VoteData) × (path : List ℕ) × (on_add as_is 1 empty_state
      ≡ some (record empty_state { metadata = some d }))
    × IsSound d (insert 1 path [])
    × (get 1 d.votes_and_visits ≡ some (3, 1))
unfolding get count
on_add-IsSound_example =
    on_add-IsSound as_is empty_state [] 1 empty-IsSound (omega arith) refl refl (inl refl)
      (λ pos. omega arith) refl

drop_all-IsSound_example :
    (d : VoteData) × (removed : ℕ) × (drop_all (1 ∷ []) one_entry 0 ≡ some (d, removed))
    × IsSound d (erase_live (1 ∷ []) one_live)
    × ((j : ℕ)
        → get j d.votes_and_visits
          ≡ (if contains j (1 ∷ []) then none else get j one_entry.votes_and_visits))
unfolding get
drop_all-IsSound_example =
    drop_all-IsSound (1 ∷ []) one_entry one_live 0 one_entry-IsSound (omega arith)
      (3, 1, refl, refl, tt)
