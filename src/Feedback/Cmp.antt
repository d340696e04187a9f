-- ===== src/Feedback/Cmp.antt =====
-- `CmpFeedback` and `CmpMetadata` of src/feedback.rs: the least distance of each comparison, the
-- votes for states that came closer, and the states that are known by their hash. The order in
-- which the set of hashes is listed is a parameter.
pub mod Closer
use ityfuzz.Prelude.{
  ℕ, zero, suc, ◌+◌, Bool, true, false, not, ◌||◌, ◌&&◌, Option, none, some, List, [], ◌∷◌, ◌++◌,
  ◌==◌, ltb, if◌then◌else◌, update, contains, length, drop, ◌>>=◌,
}
use ityfuzz.Host.Maps.{map_size}
use ityfuzz.Scheduler.Votes.{VoteData, vote}

abbrev pub infant_state_initial_votes : ℕ
infant_state_initial_votes = 3

abbrev pub known_state_max_size : ℕ
known_state_max_size = 1000

abbrev pub known_state_skip_size : ℕ
known_state_skip_size = 500

pub record CmpFeedback : Type 0 where
  pub min_map : ℕ → ℕ
  pub known_states : List ℕ

-- What the feedback sees of an execution
pub record Execution : Type 0 where
  pub current_map : ℕ → ℕ
  pub state_idx : ℕ
  pub state_changed : Bool
  pub has_post_execution : Bool
  pub hash : ℕ

-- The answer, the feedback, `cmp_interesting` of the metadata, and the votes
pub record Judged : Type 0 where
  pub interesting : Bool
  pub feedback : CmpFeedback
  pub cmp_interesting : Bool
  pub votes : VoteData

-- One round of the loop: `cmp_interesting` and the least distances
unfoldable pub round : (ℕ → ℕ) → ℕ → Bool × (ℕ → ℕ) → Bool × (ℕ → ℕ)
round current_map i (seen, min_map) =
    if ltb (current_map i) (min_map i)
    then (true, update i (current_map i) min_map)
    else (seen, min_map)

-- The rounds for the indices below the bound
unfoldable pub rounds : (ℕ → ℕ) → ℕ → Bool × (ℕ → ℕ) → Bool × (ℕ → ℕ)
unfolding round
rounds current_map zero s = s
rounds current_map (suc i) s = round current_map i (rounds current_map i s)

module _ (listed : List ℕ → List ℕ) where
  -- The insertion of a new hash, with the halving of the set when it is full
  unfoldable pub remember : ℕ → List ℕ → List ℕ
  remember hash known_states =
      let known = known_states ++ (hash ∷ []) in
      if ltb known_state_max_size (length known)
      then drop known_state_skip_size (listed known)
      else known

  -- The end of `is_interesting`: the answer and the known states
  unfoldable pub judge_state : Execution → List ℕ → Bool × List ℕ
  judge_state e known_states =
      if e.state_changed || e.has_post_execution
      then if contains e.hash known_states
        then (false, known_states)
        else (true, remember e.hash known_states)
      else (false, known_states)

  -- `cov_interesting` is always false, so its vote is not made.
  unfoldable pub is_interesting : Execution → CmpFeedback → VoteData → Option Judged
  is_interesting e f votes = do
    let (cmp_interesting, min_map) = rounds e.current_map map_size (false, f.min_map)
    votes' ←
        (if cmp_interesting then vote votes e.state_idx infant_state_initial_votes else some votes)
    let (interesting, known_states) = judge_state e f.known_states
    some (record {
      interesting = interesting;
      feedback = record { min_map = min_map; known_states = known_states };
      cmp_interesting = cmp_interesting;
      votes = votes';
    })
