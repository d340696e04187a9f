-- ===== src/Scheduler/Adding.antt =====
-- `on_add`, `report_corpus` and `sponsor_state` of `SortedDroppingScheduler` in src/scheduler.rs, with
-- the feature `full_trace`, which is on by default. The sort by scores is a parameter, since it
-- compares floating-point numbers; `none` is a panic.
pub mod Pruning
pub mod Growing
use ityfuzz.Prelude.{
  ℕ, zero, suc, ◌+◌, Bool, true, false, ◌&&◌, not, Option, none, some, List, [], ◌∷◌, ◌++◌, ◌==◌,
  leb, ltb, if◌then◌else◌, wrapping_add, wrapping_sub, get, insert, ◌>>=◌, nat_eq, take,
}
use ityfuzz.Corpus.{IndexedInMemoryCorpus, count, remove}
use ityfuzz.Scheduler.Deps.{
  DependencyTree, new, add_node, remove_node, mark_never_delete, garbage_collection,
}
use ityfuzz.Scheduler.Votes.{VoteData, corpus_initial_votes, vote, on_remove}

-- What the scheduler sees of the state: the corpus, its metadata, the parent of the new entry, and
-- the static `REMOVED_CORPUS`.
pub record State {ℓ} (A : Type ℓ) : Type ℓ where
  pub corpus : IndexedInMemoryCorpus A
  pub metadata : Option VoteData
  pub parent_idx : ℕ
  pub removed_corpus : ℕ

abbrev pub drop_threshold : ℕ
drop_threshold = 500

abbrev pub prune_amt : ℕ
prune_amt = 250

abbrev pub new_vote_data : VoteData
new_vote_data = record {
  votes_and_visits = [];
  sorted_votes = [];
  visits_total = 1;
  votes_total = 1;
  deps = [];
  to_remove = [];
}

abbrev pub data_of {ℓ} : {A : Type ℓ} → State A → VoteData
data_of st = elim st.metadata [ none ↦ new_vote_data | some d ↦ d ]

-- The entry of the new index in the metadata, without the tree
unfoldable pub with_entry : ℕ → VoteData → VoteData
with_entry idx d = record d {
  votes_and_visits = insert idx (corpus_initial_votes, 1) d.votes_and_visits;
  visits_total = wrapping_add d.visits_total 1;
  votes_total = wrapping_add d.votes_total corpus_initial_votes;
  sorted_votes = d.sorted_votes ++ (idx ∷ []);
}

unfoldable pub set_up : ℕ → ℕ → VoteData → Option VoteData
unfolding with_entry
set_up idx parent_idx d = do
  deps ← add_node idx parent_idx d.deps
  some (record (with_entry idx d) { deps = deps })

-- `*i.0 >= 3 && *i.0 != idx`
abbrev pub may_go : ℕ → ℕ → Bool
may_go idx i = leb 3 i && not (i == idx)

unfoldable pub chosen : ℕ → List (ℕ × (ℕ × ℕ)) → List ℕ
chosen idx [] = []
chosen idx ((i, entry) ∷ sorted) = if may_go idx i then i ∷ chosen idx sorted else chosen idx sorted

-- The metadata and the tree without the index
unfoldable pub drop_one : ℕ → VoteData → Option VoteData
drop_one i d = do d' ← on_remove d i; deps ← remove_node i d'.deps; some (record d' { deps = deps })

-- The loop, with the count of `REMOVED_CORPUS`
unfoldable pub drop_all : List ℕ → VoteData → ℕ → Option (VoteData × ℕ)
unfolding drop_one
drop_all [] d removed = some (d, removed)
drop_all (i ∷ rest) d removed = drop_one i d >>= λ d'. drop_all rest d' (wrapping_add removed 1)

-- The `sort_by` of the entries, the lowest score first
abbrev pub Sort : Type 0
Sort = List (ℕ × (ℕ × ℕ)) → List (ℕ × (ℕ × ℕ))

unfoldable pub to_drop : Sort → ℕ → VoteData → List ℕ
unfolding chosen
to_drop sort_by_score idx d = chosen idx (take prune_amt (sort_by_score d.votes_and_visits))

module _ {ℓ} {A : Type ℓ} where
  -- The removals of the garbage from the corpus
  unfoldable pub remove_all : List ℕ → IndexedInMemoryCorpus A → Option (IndexedInMemoryCorpus A)
  remove_all [] c = some c
  remove_all (i ∷ rest) c =
      remove c i >>= λ (removed : IndexedInMemoryCorpus A × A). remove_all rest removed.0

  module _ (sort_by_score : Sort) where
    unfoldable pub prune : ℕ → State A → VoteData → Option (State A)
    unfolding to_drop drop_all remove_all
    prune idx st d = do
      let dropped = to_drop sort_by_score idx d
      (d', removed) ← drop_all dropped d st.removed_corpus
      let (garbage, deps) = garbage_collection d'.deps
      corpus ← remove_all garbage st.corpus
      some (record st {
        corpus = corpus;
        metadata = some (record d' { deps = deps; to_remove = dropped });
        removed_corpus = removed;
      })

    -- `on_add`; `Ok(())` is the state.
    unfoldable pub on_add : ℕ → State A → Option (State A)
    unfolding set_up prune
    on_add idx st = do
      d ← set_up idx st.parent_idx (data_of st)
      (if ltb drop_threshold (wrapping_sub (count st.corpus) st.removed_corpus)
          then prune idx st d
          else some (record st { metadata = some d }))

-- `report_corpus`
unfoldable pub report_corpus : ℕ → VoteData → Option VoteData
report_corpus state_idx d = do
  d' ← vote d state_idx corpus_initial_votes
  deps ← mark_never_delete state_idx d'.deps
  some (record d' { deps = deps })

unfoldable pub sponsor_state : ℕ → ℕ → VoteData → Option VoteData
sponsor_state state_idx amt d = vote d state_idx amt
