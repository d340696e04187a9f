-- ===== src/Feedback/Cmp/Closer.antt =====
-- What the comparison feedback keeps of an execution.
use ityfuzz.Prelude.{
  ℕ, zero, suc, ◌≤◌, ◌≡◌, refl, Bool, false, not, ◌||◌, ◌&&◌, some, List, [], ◌∷◌, ◌++◌, ltb,
  if◌then◌else◌, arith, contains, length, length-drop, length-append, Bool-cases, inl, inr,
}
use ityfuzz.Host.Maps.{map_size}
use ityfuzz.Scheduler.Votes.{VoteData, vote}
use ityfuzz.Feedback.Dataflow.{some_below}
use ityfuzz.Feedback.Cmp.{
  CmpFeedback, Execution, Judged, round, rounds, remember, judge_state, is_interesting,
  infant_state_initial_votes, known_state_max_size, known_state_skip_size,
}

rounds-min :
    (cur min : ℕ → ℕ) (n i : ℕ) (seen : Bool)
    → (rounds cur n (seen, min)).1 i ≡ (if ltb i n && ltb (cur i) (min i) then cur i else min i)
unfolding rounds round
rounds-min cur min zero i seen = ground arith
rounds-min cur min (suc n) i seen =
    ground (arith, rounds-min cur min n i seen, rounds-min cur min n n seen)

rounds-closer :
    (cur min : ℕ → ℕ) (n : ℕ)
    → (rounds cur n (false, min)).0 ≡ some_below n (λ i. ltb (cur i) (min i))
unfolding rounds round some_below
rounds-closer cur min zero = refl
rounds-closer cur min (suc n) =
    ground (arith, rounds-closer cur min n, rounds-min cur min n n false)

not_ltb : (a b : ℕ) → ltb a b ≡ false → b ≤ a
not_ltb a b h = ground arith

module _ (listed : List ℕ → List ℕ)
    (same_length : (xs : List ℕ) → length (listed xs) ≡ length xs) where
  judge_state-interesting :
      (e : Execution) (known : List ℕ)
      → (judge_state listed e known).0
        ≡ ((e.state_changed || e.has_post_execution) && not (contains e.hash known))
  unfolding judge_state
  judge_state-interesting e known = ground arith

  remember-length :
      (hash : ℕ) (known : List ℕ)
      → length known ≤ known_state_max_size
      → length (remember listed hash known) ≤ known_state_max_size
  unfolding remember
  remember-length hash known room =
      let all = known ++ (hash ∷ []) in
      let longer = length-append known (hash ∷ []) in
      elim (Bool-cases (ltb known_state_max_size (length all))) [
        | inl full ↦
            rw full (
              omega
                (arith, longer, same_length all, length-drop known_state_skip_size (listed all)))
        | inr fits ↦ rw fits (omega (arith, longer, not_ltb known_state_max_size (length all)))
      ]

  judge_state-length :
      (e : Execution) (known : List ℕ)
      → length known ≤ known_state_max_size
      → length (judge_state listed e known).1 ≤ known_state_max_size
  unfolding judge_state
  judge_state-length e known room = ground (arith, remember-length e.hash known room)

  -- A state is kept when it changed, or was left unfinished, and its hash is not known, whatever
  -- its comparisons; the least distances become the lower ones of the two, and where one became
  -- lower, the state is voted for, and only there; and a thousand hashes are known at most.
  pub is_interesting-min_map :
      (e : Execution) (f : CmpFeedback) (votes votes' : VoteData)
      → length f.known_states ≤ known_state_max_size
      → (if some_below map_size (λ i. ltb (e.current_map i) (f.min_map i))
          then vote votes e.state_idx infant_state_initial_votes
          else some votes)
        ≡ some votes'
      → (j : Judged) × (is_interesting listed e f votes ≡ some j)
        × (j.votes ≡ votes')
        × (j.cmp_interesting ≡ some_below map_size (λ i. ltb (e.current_map i) (f.min_map i)))
        × (j.interesting
            ≡ ((e.state_changed || e.has_post_execution) && not (contains e.hash f.known_states)))
        × ((i : ℕ)
            → j.feedback.min_map i ≡ (
                if ltb i map_size && ltb (e.current_map i) (f.min_map i)
                then e.current_map i
                else f.min_map i))
        × (length j.feedback.known_states ≤ known_state_max_size)
  unfolding is_interesting
  is_interesting-min_map e f votes votes' room voted =
      let closer = rounds-closer e.current_map f.min_map map_size in
      (
        record {
          interesting = (judge_state listed e f.known_states).0;
          feedback = record {
            min_map = (rounds e.current_map map_size (false, f.min_map)).1;
            known_states = (judge_state listed e f.known_states).1;
          };
          cmp_interesting = (rounds e.current_map map_size (false, f.min_map)).0;
          votes = votes';
        },
        ground (arith, closer),
        refl,
        closer,
        judge_state-interesting e f.known_states,
        λ i. rounds-min e.current_map f.min_map map_size i false,
        judge_state-length e f.known_states room,
      )
