-- ===== src/Scheduler/Adding/Growing.antt =====
-- A new entry in a corpus that is not pruned.
use ityfuzz.Prelude.{
  contains-append, Bool-cases, inl, inr, >>=-eq-some, ℕ, ◌+◌, ◌<◌, ◌≡◌, ◌⊎◌, false, none, some,
  List, [], ◌∷◌, ◌==◌, ltb, wrapping_sub, get, insert, nat_eq, word, arith, length, get-insert,
  Unique-insert, total-insert_new,
}
use ityfuzz.Corpus.{count}
use ityfuzz.Scheduler.Deps.{Node, add_node}
use ityfuzz.Scheduler.Deps.Counts.{Live, Refines}
use ityfuzz.Scheduler.Deps.Growth.{add_node-Refines}
use ityfuzz.Scheduler.Votes.{VoteData, corpus_initial_votes}
use ityfuzz.Scheduler.Votes.Totals.{IsConsistent}
use ityfuzz.Scheduler.Adding.{State, Sort, drop_threshold, data_of, with_entry, set_up, on_add}

-- The metadata is consistent, the tree counts the live paths, and each entry has its path and
-- numbers of one machine word.
pub record IsSound (d : VoteData) (live : Live) : Type 0 where
  pub consistent : IsConsistent d
  pub refines : Refines d.deps live
  pub entries :
      (i votes visits : ℕ)
      → get i d.votes_and_visits ≡ some (votes, visits)
      → (votes < word) × (visits < word) × (path : List ℕ) × (get i live ≡ some path)

with_entry-IsConsistent :
    (d : VoteData) (idx : ℕ)
    → IsConsistent d
    → get idx d.votes_and_visits ≡ none
    → IsConsistent (with_entry idx d)
unfolding with_entry
with_entry-IsConsistent d idx v absent = record {
  distinct = Unique-insert idx (corpus_initial_votes, 1) d.votes_and_visits v.distinct;
  votes = omega (
    arith,
    v.votes,
    total-insert_new (λ (entry : ℕ × ℕ). entry.0) idx (corpus_initial_votes, 1) d.votes_and_visits
        absent,
  );
  visits = omega (
    arith,
    v.visits,
    total-insert_new (λ (entry : ℕ × ℕ). entry.1) idx (corpus_initial_votes, 1) d.votes_and_visits
        absent,
  );
  listed = λ i. ground (
    arith,
    contains-append i d.sorted_votes (idx ∷ []),
    v.listed i,
    get-insert idx i (corpus_initial_votes, 1) d.votes_and_visits,
  );
}

abbrev initial_entry : ℕ × ℕ
initial_entry = (corpus_initial_votes, 1)

with_entry-entries :
    (d : VoteData) (live : Live) (idx : ℕ) (path : List ℕ)
    → IsSound d live
    → (i votes visits : ℕ)
    → get i (insert idx (corpus_initial_votes, 1) d.votes_and_visits) ≡ some (votes, visits)
    → (votes < word) × (visits < word) × (p : List ℕ) × (get i (insert idx path live) ≡ some p)
with_entry-entries d live idx path s i votes visits h = elim (Bool-cases (idx == i)) [
  | inl same ↦
      let e : initial_entry ≡ (votes, visits) =
        ground (arith, h, get-insert idx i (corpus_initial_votes, 1) d.votes_and_visits) in
      (ground (arith, e), ground (arith, e), path, ground (arith, get-insert idx i path live))
  | inr other ↦
      let (v, w, p, q) =
        s.entries i votes visits
          (ground (arith, h, get-insert idx i (corpus_initial_votes, 1) d.votes_and_visits)) in
      (v, w, p, ground (arith, q, get-insert idx i path live))
]

set_up-IsSound :
    (d : VoteData) (live : Live) (idx parent : ℕ)
    → IsSound d live
    → length live + 1 < word
    → get idx d.votes_and_visits ≡ none
    → get idx d.deps ≡ none
    → (parent ≡ 0) ⊎ ((node : Node) × (get parent d.deps ≡ some node))
    → (0 < idx → parent < idx)
    → (d' : VoteData) × (path : List ℕ) × (set_up idx parent d ≡ some d')
      × IsSound d' (insert idx path live)
unfolding set_up with_entry
set_up-IsSound d live idx parent s room absent absent' known below =
    let (deps, ps, runs, _, r) =
      add_node-Refines d.deps live idx parent s.refines room absent' known below in
    let c = with_entry-IsConsistent d idx s.consistent absent in
    (
      record (with_entry idx d) { deps = deps },
      idx ∷ ps,
      ground (arith, runs),
      record {
        consistent = record {
          distinct = c.distinct;
          votes = c.votes;
          visits = c.visits;
          listed = c.listed;
        };
        refines = r;
        entries = λ i votes visits h. with_entry-entries d live idx (idx ∷ ps) s i votes visits h;
      },
    )

set_up-entry :
    (d d' : VoteData) (idx parent : ℕ)
    → set_up idx parent d ≡ some d'
    → get idx d'.votes_and_visits ≡ some (corpus_initial_votes, 1)
unfolding set_up with_entry
set_up-entry d d' idx parent h =
    let (deps, e, h1) = >>=-eq-some (add_node idx parent d.deps) _ h in
    ground (arith, h1, get-insert idx idx (corpus_initial_votes, 1) d.votes_and_visits)

module _ {ℓ} {A : Type ℓ} (sort_by_score : Sort) where
  -- A new index below a known parent, in a corpus that holds no more than the threshold: `on_add`
  -- does not panic, the corpus is as it was, the metadata is consistent with an entry more, and the
  -- tree counts the live paths with one more.
  pub on_add-IsSound :
      (st : State A) (live : Live) (idx : ℕ)
      → IsSound (data_of st) live
      → length live + 1 < word
      → get idx (data_of st).votes_and_visits ≡ none
      → get idx (data_of st).deps ≡ none
      → (st.parent_idx ≡ 0) ⊎ ((node : Node) × (get st.parent_idx (data_of st).deps ≡ some node))
      → (0 < idx → st.parent_idx < idx)
      → ltb drop_threshold (wrapping_sub (count st.corpus) st.removed_corpus) ≡ false
      → (d : VoteData) × (path : List ℕ) × (on_add sort_by_score idx st
          ≡ some (record st { metadata = some d }))
        × IsSound d (insert idx path live)
        × (get idx d.votes_and_visits ≡ some (corpus_initial_votes, 1))
  unfolding on_add
  on_add-IsSound st live idx s room absent absent' known below few =
      let (d, path, e, out) =
        set_up-IsSound (data_of st) live idx st.parent_idx s room absent absent' known below in
      (d, path, ground (arith, e, few), out, set_up-entry (data_of st) d idx st.parent_idx e)
