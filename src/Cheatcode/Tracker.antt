-- ===== src/Cheatcode/Tracker.antt =====
-- Expected calls: `expect_call_with_count` and `expect_call_non_count` of expect.rs, `real_call` of
-- mod.rs, and `check_expected_calls` of host.rs.
use ityfuzz.Prelude.{
  ℕ, ◌+◌, Bool, true, false, not, ◌&&◌, Option, none, some, List, [], ◌∷◌, ◌==◌, leb, ltb,
  if◌then◌else◌, length, take, wrapping_add, get, insert, list_eq, nat_eq, list_beq,
}
use ityfuzz.Cheatcode.{
  Address, Bytes, ExpectedCallData, ExpectedCallType, non_count, count, Expecteds,
  ExpectedCallTracker,
}

-- `expected_calls.entry(target).or_default()`, without the insertion of the empty entry.
abbrev pub expecteds_of : Address → ExpectedCallTracker → Expecteds
expecteds_of target tracker = elim (get target tracker) [ none ↦ [] | some expecteds ↦ expecteds ]

abbrev pub expected_call : Option ℕ → ℕ → ExpectedCallType → ExpectedCallData
expected_call value n call_type = record { value = value; count = n; call_type = call_type }

unfoldable pub expect_call_with_count :
    Address → Bytes → Option ℕ → ℕ → ExpectedCallTracker → ExpectedCallTracker
expect_call_with_count target calldata value n tracker =
    let expecteds = expecteds_of target tracker in
    insert target
      (elim (get calldata expecteds) [
        | some seen ↦ expecteds
        | none ↦ insert calldata (expected_call value n count, 0) expecteds
      ])
      tracker

unfoldable pub expect_call_non_count :
    Address → Bytes → Option ℕ → ExpectedCallTracker → ExpectedCallTracker
expect_call_non_count target calldata value tracker =
    let expecteds = expecteds_of target tracker in
    insert target
      (elim (get calldata expecteds) [
        | some (expected, seen) ↦
            insert calldata (record expected { count = wrapping_add expected.count 1 }, seen)
              expecteds
        | none ↦ insert calldata (expected_call value 1 non_count, 0) expecteds
      ])
      tracker

-- A real call: its target, its input and its value (zero for a DELEGATECALL or a STATICCALL).
pub record Call : Type 0 where
  pub target : Address
  pub input : Bytes
  pub value : ℕ

unfoldable pub matches : Bytes → ExpectedCallData → Call → Bool
matches calldata expected call =
    leb (length calldata) (length call.input)
    && list_beq calldata (take (length calldata) call.input)
    && elim expected.value [ none ↦ true | some v ↦ v == call.value ]

unfoldable pub count_call : Call → Expecteds → Expecteds
count_call call [] = []
count_call call ((calldata, (expected, seen)) ∷ rest) =
    (calldata, (expected, if matches calldata expected call then wrapping_add seen 1 else seen))
    ∷ count_call call rest

unfoldable pub real_call : Call → ExpectedCallTracker → ExpectedCallTracker
unfolding count_call
real_call call tracker = elim (get call.target tracker) [
  | none ↦ tracker
  | some expecteds ↦ insert call.target (count_call call expecteds) tracker
]

-- The condition `failed` of `check_expected_calls`, and its two loops.
abbrev pub call_failed : ExpectedCallData → ℕ → Bool
call_failed expected seen = elim expected.call_type [
  | count ↦ not (expected.count == seen)
  | non_count ↦ ltb seen expected.count
]

unfoldable pub any_failed : Expecteds → Bool
any_failed [] = false
any_failed ((calldata, (expected, seen)) ∷ rest) =
    if call_failed expected seen then true else any_failed rest

unfoldable pub any_call_failed : ExpectedCallTracker → Bool
unfolding any_failed
any_call_failed [] = false
any_call_failed ((target, expecteds) ∷ rest) =
    if any_failed expecteds then true else any_call_failed rest

unfoldable pub real_calls : List Call → ExpectedCallTracker → ExpectedCallTracker
unfolding real_call
real_calls [] tracker = tracker
real_calls (call ∷ calls) tracker = real_calls calls (real_call call tracker)

-- The expectation on a target and its calldata, with the number of calls seen.
abbrev pub entry : Address → Bytes → ExpectedCallTracker → Option (ExpectedCallData × ℕ)
entry target calldata tracker = get calldata (expecteds_of target tracker)

-- How many of the calls meet an expectation.
unfoldable pub occurrences : Address → Bytes → ExpectedCallData → List Call → ℕ
occurrences target calldata expected [] = 0
occurrences target calldata expected (call ∷ calls) =
    (if call.target == target && matches calldata expected call then 1 else 0)
    + occurrences target calldata expected calls

-- The cheat codes: expect_call4 to expect_call_mingas1 leave the gas aside.
unfoldable pub expect_call0 : Address → Bytes → ExpectedCallTracker → ExpectedCallTracker
unfolding expect_call_non_count
expect_call0 callee calldata tracker = expect_call_non_count callee calldata none tracker

unfoldable pub expect_call1 : Address → Bytes → ℕ → ExpectedCallTracker → ExpectedCallTracker
unfolding expect_call_with_count
expect_call1 callee calldata n tracker = expect_call_with_count callee calldata none n tracker

unfoldable pub expect_call2 : Address → ℕ → Bytes → ExpectedCallTracker → ExpectedCallTracker
unfolding expect_call_non_count
expect_call2 callee msg_value calldata tracker =
    expect_call_non_count callee calldata (some msg_value) tracker

unfoldable pub expect_call3 : Address → ℕ → Bytes → ℕ → ExpectedCallTracker → ExpectedCallTracker
unfolding expect_call_with_count
expect_call3 callee msg_value calldata n tracker =
    expect_call_with_count callee calldata (some msg_value) n tracker
