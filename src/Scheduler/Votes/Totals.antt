-- ===== src/Scheduler/Votes/Totals.antt =====
-- The cached totals of `VoteData` and its sorted list under `vote` and `on_remove`.
use ityfuzz.Prelude.{
  contains, ◌∙◌, ℕ, ◌+◌, ◌-◌, ◌%◌, ◌≤◌, ◌<◌, ◌≡◌, ◌≢◌, refl, true, ◌||◌, ◌&&◌, none, some, List, [],
  ◌∷◌, arith, ◌==◌, not, if◌then◌else◌, get, insert, erase, get-insert, get-erase, nat_eq, Unique,
  Unique-insert, Unique-erase, total, total-insert_old, total-erase, word, all_of, keep_if,
}
use ityfuzz.Scheduler.Votes.{
  VoteData, is_some, votes_of, credit, insert_sorted, sort_by_votes, resort, vote, on_remove,
}

abbrev pub votes_sum : List (ℕ × (ℕ × ℕ)) → ℕ
votes_sum m = total (λ (entry : ℕ × ℕ). entry.0) m

abbrev pub visits_sum : List (ℕ × (ℕ × ℕ)) → ℕ
visits_sum m = total (λ (entry : ℕ × ℕ). entry.1) m

-- The cached totals are one more than the sums, modulo the word size, and the sorted list holds
-- exactly the indices that have an entry.
pub record IsConsistent (d : VoteData) : Type 0 where
  pub distinct : Unique d.votes_and_visits
  pub votes : d.votes_total ≡ (1 + votes_sum d.votes_and_visits) % word
  pub visits : d.visits_total ≡ (1 + visits_sum d.votes_and_visits) % word
  pub listed : (i : ℕ) → contains i d.sorted_votes ≡ is_some (get i d.votes_and_visits)

contains-insert_sorted :
    (m : List (ℕ × (ℕ × ℕ))) (i x : ℕ) (xs : List ℕ)
    → contains i (insert_sorted m x xs) ≡ (i == x || contains i xs)
unfolding insert_sorted
contains-insert_sorted m i x [] = refl
contains-insert_sorted m i x (y ∷ ys) = ground (arith, contains-insert_sorted m i x ys)

pub contains-sort_by_votes :
    (m : List (ℕ × (ℕ × ℕ))) (i : ℕ) (xs : List ℕ) → contains i (sort_by_votes m xs) ≡ contains i xs
unfolding sort_by_votes
contains-sort_by_votes m i [] = refl
contains-sort_by_votes m i (x ∷ xs) =
    ground (arith, contains-insert_sorted m i x (sort_by_votes m xs), contains-sort_by_votes m i xs)

-- Votes fall along the list.
abbrev pub Descends : List (ℕ × (ℕ × ℕ)) → List ℕ → Type 0
Descends m [] = Unit {0}
Descends m (x ∷ []) = Unit {0}
Descends m (x ∷ y ∷ ys) = (votes_of m y ≤ votes_of m x) × Descends m (y ∷ ys)

insert_sorted-Descends :
    (m : List (ℕ × (ℕ × ℕ))) (x : ℕ) (xs : List ℕ)
    → Descends m xs
    → Descends m (insert_sorted m x xs)
unfolding insert_sorted
insert_sorted-Descends m x [] h = tt
insert_sorted-Descends m x (y ∷ []) h = ground arith
insert_sorted-Descends m x (y ∷ z ∷ zs) h = ground (arith, insert_sorted-Descends m x (z ∷ zs) h.1)

pub sort_by_votes-Descends :
    (m : List (ℕ × (ℕ × ℕ))) (xs : List ℕ) → Descends m (sort_by_votes m xs)
unfolding sort_by_votes
sort_by_votes-Descends m [] = tt
sort_by_votes-Descends m (x ∷ xs) =
    insert_sorted-Descends m x (sort_by_votes m xs) (sort_by_votes-Descends m xs)

all_present :
    (m : List (ℕ × (ℕ × ℕ))) (xs : List ℕ)
    → ((i : ℕ) → contains i xs ≡ true → is_some (get i m) ≡ true)
    → all_of (λ i. is_some (get i m)) xs ≡ true
all_present m [] h = refl
all_present m (x ∷ xs) h = ground (arith, h x, all_present m xs (λ i on. h i (ground arith)))

resort-some :
    (m : List (ℕ × (ℕ × ℕ))) (xs : List ℕ)
    → ((i : ℕ) → contains i xs ≡ true → is_some (get i m) ≡ true)
    → resort m xs ≡ some (sort_by_votes m xs)
unfolding resort
resort-some m xs h = ground (arith, all_present m xs h)

module _ (d : VoteData) (idx increment votes visits : ℕ) (v : IsConsistent d)
    (here : get idx d.votes_and_visits ≡ some (votes, visits)) where
  after_credit : List (ℕ × (ℕ × ℕ))
  after_credit = insert idx ((votes + increment) % word, visits) d.votes_and_visits

  credit-eq : credit d.votes_and_visits idx increment ≡ after_credit
  unfolding after_credit
  credit-eq = rw (here, credit)

  still_listed : (i : ℕ) → contains i d.sorted_votes ≡ is_some (get i after_credit)
  unfolding after_credit
  still_listed i = ground (
    arith,
    here,
    v.listed i,
    get-insert idx i ((votes + increment) % word, visits) d.votes_and_visits,
  )

  voted : VoteData
  voted = record d {
    votes_and_visits = after_credit;
    sorted_votes = sort_by_votes after_credit d.sorted_votes;
    votes_total = (d.votes_total + increment) % word;
  }

  vote-eq : vote d idx increment ≡ some voted
  unfolding vote voted
  vote-eq =
      rw (credit-eq, vote)
        (rw
          (resort-some after_credit d.sorted_votes (λ i on. ground (arith, still_listed i)), vote))

  voted-IsConsistent : IsConsistent voted
  unfolding voted after_credit
  voted-IsConsistent = record {
    distinct = Unique-insert idx ((votes + increment) % word, visits) d.votes_and_visits v.distinct;
    votes = omega (
      arith,
      v.votes,
      total-insert_old (λ (entry : ℕ × ℕ). entry.0) idx ((votes + increment) % word, visits)
          (votes, visits) d.votes_and_visits here,
    );
    visits = omega (
      arith,
      v.visits,
      total-insert_old (λ (entry : ℕ × ℕ). entry.1) idx ((votes + increment) % word, visits)
          (votes, visits) d.votes_and_visits here,
    );
    listed = λ i. contains-sort_by_votes after_credit i d.sorted_votes ∙ still_listed i;
  }

-- A vote for an index that has an entry does not panic, keeps the data consistent, leaves the
-- sorted list in order of falling votes, and adds the increment to the votes of that entry.
pub vote-IsConsistent :
    (d : VoteData) (idx increment votes visits : ℕ)
    → IsConsistent d
    → get idx d.votes_and_visits ≡ some (votes, visits)
    → (d' : VoteData) × (vote d idx increment ≡ some d')
      × IsConsistent d'
      × Descends d'.votes_and_visits d'.sorted_votes
      × (get idx d'.votes_and_visits ≡ some ((votes + increment) % word, visits))
unfolding voted after_credit
vote-IsConsistent d idx increment votes visits v here = (
  voted d idx increment votes visits v here,
  vote-eq d idx increment votes visits v here,
  voted-IsConsistent d idx increment votes visits v here,
  sort_by_votes-Descends _ d.sorted_votes,
  ground (arith, get-insert idx idx ((votes + increment) % word, visits) d.votes_and_visits),
)

-- A vote for an index that has no entry panics nowhere and changes no entry, but its increment is
-- added to the cached total all the same: the total is no longer one more than the sum of votes.
pub vote_absent :
    (d : VoteData) (idx increment : ℕ)
    → IsConsistent d
    → get idx d.votes_and_visits ≡ none
    → 0 < increment
    → increment < word
    → (d' : VoteData) × (vote d idx increment ≡ some d')
      × (d'.votes_and_visits ≡ d.votes_and_visits)
      × (d'.votes_total ≢ (1 + votes_sum d'.votes_and_visits) % word)
unfolding vote
vote_absent d idx increment v absent pos small = (
  record d {
    sorted_votes = sort_by_votes d.votes_and_visits d.sorted_votes;
    votes_total = (d.votes_total + increment) % word;
  },
  rw (absent, vote, credit)
      (rw
        (resort-some d.votes_and_visits d.sorted_votes (λ i on. ground (arith, v.listed i)), vote)),
  refl,
  omega (arith, v.votes),
)

contains-keep_if :
    (i idx : ℕ) (xs : List ℕ)
    → contains i (keep_if (λ x. not (x == idx)) xs) ≡ (not (i == idx) && contains i xs)
contains-keep_if i idx [] = ground arith
contains-keep_if i idx (x ∷ xs) = ground (arith, contains-keep_if i idx xs)

-- Removing an index that has an entry does not panic and keeps the data consistent, provided the
-- numbers of the entry are machine words; the entry is gone and no other is changed.
pub on_remove-IsConsistent :
    (d : VoteData) (idx votes visits j : ℕ)
    → IsConsistent d
    → get idx d.votes_and_visits ≡ some (votes, visits)
    → votes < word
    → visits < word
    → (d' : VoteData) × (on_remove d idx ≡ some d')
      × IsConsistent d'
      × (get j d'.votes_and_visits ≡ (if j == idx then none else get j d.votes_and_visits))
unfolding on_remove
on_remove-IsConsistent d idx votes visits j v here small_votes small_visits = (
  record d {
    votes_total = (d.votes_total + word - votes) % word;
    visits_total = (d.visits_total + word - visits) % word;
    votes_and_visits = erase idx d.votes_and_visits;
    sorted_votes = keep_if (λ x. not (x == idx)) d.sorted_votes;
  },
  rw (here, on_remove),
  record {
    distinct = Unique-erase idx d.votes_and_visits v.distinct;
    votes = omega (
      arith,
      v.votes,
      total-erase (λ (entry : ℕ × ℕ). entry.0) idx (votes, visits) d.votes_and_visits v.distinct
          here,
    );
    visits = omega (
      arith,
      v.visits,
      total-erase (λ (entry : ℕ × ℕ). entry.1) idx (votes, visits) d.votes_and_visits v.distinct
          here,
    );
    listed = λ i. ground (
      arith,
      contains-keep_if i idx d.sorted_votes,
      v.listed i,
      get-erase idx i d.votes_and_visits,
    );
  },
  ground (arith, get-erase idx j d.votes_and_visits),
)
