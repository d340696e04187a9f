-- ===== src/Cheatcode/Counts.antt =====
-- The expected calls: what the tracker counts, and when `check_expected_calls` is content.
use ityfuzz.Prelude.{
  ℕ, ◌+◌, ◌≤◌, ◌<◌, ◌≡◌, refl, Bool, true, false, not, ◌&&◌, Option, none, some, List, [], ◌∷◌,
  arith, ◌==◌, if◌then◌else◌, wrapping_add, word, get, insert, get-insert, list_eq, nat_eq,
  list_beq_iff, ==_iff, ap, ◌∙◌,
}
use ityfuzz.Cheatcode.{
  Address, Bytes, ExpectedCallData, non_count, count, Expecteds, ExpectedCallTracker,
}
use ityfuzz.Cheatcode.Tracker.{
  expecteds_of, expected_call, expect_call_with_count, expect_call_non_count, Call, matches,
  count_call, real_call, call_failed, any_failed, any_call_failed, real_calls, entry, occurrences,
}

get-count_call :
    (call : Call) (calldata : Bytes) (m : Expecteds)
    → get calldata (count_call call m) ≡ elim (get calldata m) [
      | none ↦ none
      | some (expected, seen) ↦
          some (expected, if matches calldata expected call then wrapping_add seen 1 else seen)
    ]
unfolding get count_call
get-count_call call calldata [] = refl
get-count_call call calldata ((data', (expected, seen)) ∷ rest) =
    ground (arith, get-count_call call calldata rest, list_beq_iff data' calldata)

entry-real_call :
    (call : Call) (target : Address) (calldata : Bytes) (expected : ExpectedCallData) (seen : ℕ)
    (tracker : ExpectedCallTracker)
    → entry target calldata tracker ≡ some (expected, seen)
    → entry target calldata (real_call call tracker)
      ≡ some (
        expected,
        if call.target == target && matches calldata expected call
            then wrapping_add seen 1
            else seen,
      )
unfolding real_call
entry-real_call call target calldata expected seen tracker h = ground (
  arith,
  get-insert call.target target (count_call call (expecteds_of call.target tracker)) tracker,
  get-count_call call calldata (expecteds_of target tracker),
  ==_iff call.target target,
)

advance :
    (hit : Bool) (seen n : ℕ)
    → seen + ((if hit then 1 else 0) + n) < word
    → (if hit then wrapping_add seen 1 else seen) + n ≡ seen + ((if hit then 1 else 0) + n)
advance true seen n lt = omega arith
advance false seen n lt = omega arith

-- While the count stays in 64 bits, after any real calls the tracker has counted for an
-- expectation just the calls to its target that its calldata and its value match.
entry-real_calls :
    (calls : List Call) (target : Address) (calldata : Bytes) (expected : ExpectedCallData)
    (seen : ℕ) (tracker : ExpectedCallTracker)
    → entry target calldata tracker ≡ some (expected, seen)
    → seen + occurrences target calldata expected calls < word
    → entry target calldata (real_calls calls tracker)
      ≡ some (expected, seen + occurrences target calldata expected calls)
unfolding real_calls occurrences
entry-real_calls [] target calldata expected seen tracker h lt = ground arith
entry-real_calls (call ∷ calls) target calldata expected seen tracker h lt =
    let hit : Bool = call.target == target && matches calldata expected call in
    let next : ℕ = if hit then wrapping_add seen 1 else seen in
    let total : next + occurrences target calldata expected calls
        ≡ seen + occurrences target calldata expected (call ∷ calls) =
      advance hit seen (occurrences target calldata expected calls) lt in
    entry-real_calls calls target calldata expected next (real_call call tracker)
      (entry-real_call call target calldata expected seen tracker h) (omega arith)
    ∙ ap (λ n. some (expected, n)) total

any_failed-get :
    (calldata : Bytes) (expected : ExpectedCallData) (seen : ℕ) (m : Expecteds)
    → any_failed m ≡ false
    → get calldata m ≡ some (expected, seen)
    → call_failed expected seen ≡ false
unfolding any_failed get
any_failed-get calldata expected seen [] f h = cc
any_failed-get calldata expected seen ((data', (expected', seen')) ∷ rest) f h =
    ground (arith, any_failed-get calldata expected seen rest)

any_call_failed-entry :
    (target : Address) (calldata : Bytes) (expected : ExpectedCallData) (seen : ℕ)
    (tracker : ExpectedCallTracker)
    → any_call_failed tracker ≡ false
    → entry target calldata tracker ≡ some (expected, seen)
    → call_failed expected seen ≡ false
unfolding any_call_failed get
any_call_failed-entry target calldata expected seen [] f h = cc
any_call_failed-entry target calldata expected seen ((target', expecteds) ∷ rest) f h = ground (
  arith,
  any_failed-get calldata expected seen expecteds,
  any_call_failed-entry target calldata expected seen rest,
)

entry-expect_call_with_count :
    (target : Address) (calldata : Bytes) (value : Option ℕ) (n : ℕ) (tracker : ExpectedCallTracker)
    → entry target calldata tracker ≡ none
    → entry target calldata (expect_call_with_count target calldata value n tracker)
      ≡ some (expected_call value n count, 0)
unfolding expect_call_with_count
entry-expect_call_with_count target calldata value n tracker h = ground (
  arith,
  get-insert target target
      (insert calldata (expected_call value n count, 0) (expecteds_of target tracker)) tracker,
  get-insert calldata calldata (expected_call value n count, 0) (expecteds_of target tracker),
  ==_iff target target,
  list_beq_iff calldata calldata,
)

entry-expect_call_non_count :
    (target : Address) (calldata : Bytes) (value : Option ℕ) (tracker : ExpectedCallTracker)
    → entry target calldata tracker ≡ none
    → entry target calldata (expect_call_non_count target calldata value tracker)
      ≡ some (expected_call value 1 non_count, 0)
unfolding expect_call_non_count
entry-expect_call_non_count target calldata value tracker h = ground (
  arith,
  get-insert target target
      (insert calldata (expected_call value 1 non_count, 0) (expecteds_of target tracker)) tracker,
  get-insert calldata calldata (expected_call value 1 non_count, 0) (expecteds_of target tracker),
  ==_iff target target,
  list_beq_iff calldata calldata,
)

-- If the check passes after `expectCall` with a count, just so many matching calls were made;
-- the calldata had no expectation before, and the count stays in 64 bits.
pub expect_call_with_count-check :
    (calls : List Call) (target : Address) (calldata : Bytes) (value : Option ℕ) (n : ℕ)
    (tracker : ExpectedCallTracker)
    → entry target calldata tracker ≡ none
    → occurrences target calldata (expected_call value n count) calls < word
    → any_call_failed (real_calls calls (expect_call_with_count target calldata value n tracker))
      ≡ false
    → occurrences target calldata (expected_call value n count) calls ≡ n
expect_call_with_count-check calls target calldata value n tracker h lt ok =
    let seen : ℕ = 0 + occurrences target calldata (expected_call value n count) calls in
    let e =
      entry-real_calls calls target calldata (expected_call value n count) 0
        (expect_call_with_count target calldata value n tracker)
        (entry-expect_call_with_count target calldata value n tracker h) (omega arith) in
    let met : call_failed (expected_call value n count) seen ≡ false =
      any_call_failed-entry target calldata (expected_call value n count) seen _ ok e in
    ground (arith)

-- If the check passes after an `expectCall` without a count, a matching call was made; the
-- calldata had no expectation before, and the count stays in 64 bits.
pub expect_call_non_count-check :
    (calls : List Call) (target : Address) (calldata : Bytes) (value : Option ℕ)
    (tracker : ExpectedCallTracker)
    → entry target calldata tracker ≡ none
    → occurrences target calldata (expected_call value 1 non_count) calls < word
    → any_call_failed (real_calls calls (expect_call_non_count target calldata value tracker))
      ≡ false
    → 1 ≤ occurrences target calldata (expected_call value 1 non_count) calls
expect_call_non_count-check calls target calldata value tracker h lt ok =
    let seen : ℕ = 0 + occurrences target calldata (expected_call value 1 non_count) calls in
    let e =
      entry-real_calls calls target calldata (expected_call value 1 non_count) 0
        (expect_call_non_count target calldata value tracker)
        (entry-expect_call_non_count target calldata value tracker h) (omega arith) in
    let met : call_failed (expected_call value 1 non_count) seen ≡ false =
      any_call_failed-entry target calldata (expected_call value 1 non_count) seen _ ok e in
    ground (arith)

abbrev alone : Address → Bytes → ExpectedCallData → ℕ → ExpectedCallTracker
alone target calldata expected seen = (target, (calldata, (expected, seen)) ∷ []) ∷ []

real_call-alone :
    (call : Call) (target : Address) (calldata : Bytes) (expected : ExpectedCallData) (seen : ℕ)
    → real_call call (alone target calldata expected seen)
      ≡ alone target calldata expected (
          if call.target == target && matches calldata expected call
          then wrapping_add seen 1
          else seen)
unfolding real_call count_call get insert
real_call-alone call target calldata expected seen = ground arith

real_calls-alone :
    (calls : List Call) (target : Address) (calldata : Bytes) (expected : ExpectedCallData)
    (seen : ℕ)
    → seen + occurrences target calldata expected calls < word
    → real_calls calls (alone target calldata expected seen)
      ≡ alone target calldata expected (seen + occurrences target calldata expected calls)
unfolding real_calls occurrences
real_calls-alone [] target calldata expected seen lt = ground arith
real_calls-alone (call ∷ calls) target calldata expected seen lt =
    let hit : Bool = call.target == target && matches calldata expected call in
    let next : ℕ = if hit then wrapping_add seen 1 else seen in
    let total : next + occurrences target calldata expected calls
        ≡ seen + occurrences target calldata expected (call ∷ calls) =
      advance hit seen (occurrences target calldata expected calls) lt in
    ap (real_calls calls) (real_call-alone call target calldata expected seen)
    ∙ (real_calls-alone calls target calldata expected next (omega arith)
        ∙ ap (alone target calldata expected) total)

-- With one counted expectation the check fails exactly when the number of matching calls is
-- another than the expected one; the count stays in 64 bits.
pub any_call_failed-count :
    (calls : List Call) (target : Address) (calldata : Bytes) (value : Option ℕ) (n : ℕ)
    → occurrences target calldata (expected_call value n count) calls < word
    → any_call_failed (real_calls calls (expect_call_with_count target calldata value n []))
      ≡ not (n == occurrences target calldata (expected_call value n count) calls)
unfolding expect_call_with_count any_call_failed any_failed get insert
any_call_failed-count calls target calldata value n lt =
    ap any_call_failed
      (real_calls-alone calls target calldata (expected_call value n count) 0 (omega arith))
    ∙ ground (arith)
