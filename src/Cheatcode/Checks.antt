-- ===== src/Cheatcode/Checks.antt =====
-- What a call that `check_expected` lets through has met.
use ityfuzz.Prelude.{
  ◌≤◌, ◌≡◌, ◌≢◌, refl, true, false, not, ◌&&◌, Option, none, some, arith, ◌==◌, any_of, list_beq,
  list_beq_iff, Bool-cases, Option-cases, inl, inr, ◌⊎◌,
}
use ityfuzz.Cheatcode.{Bytes, ExpectedEmit, ExpectedRevert, FuzzHost, CallInputs, CallResult}
use ityfuzz.Cheatcode.Tracker.{any_call_failed}
use ityfuzz.Cheatcode.Outcome.{
  Outside, actual_reason, settle_revert, check_expected_revert, check_expected_emits,
  check_expected_calls, check_assert_result, check_emits_and_calls, check_expected,
}

-- The reverts that an expectation accepts.
pub data Accepts (o : Outside) (res : CallResult) : Option Bytes → Type 0 where
  any_reason : Accepts o res none
  same_reason :
      (expected : Bytes) → actual_reason o res.retdata ≡ expected → Accepts o res (some expected)

-- The call did not fail, or failed with another reason.
pub data Refuses (o : Outside) (res : CallResult) : Option Bytes → Type 0 where
  no_failure : (reason : Option Bytes) → o.is_ok res.result ≡ true → Refuses o res reason
  other_reason :
      (expected : Bytes)
      → list_beq (actual_reason o res.retdata) expected ≡ false
      → Refuses o res (some expected)

Settles : Outside → Option Bytes → CallResult → Type 0
Settles o reason res =
    ((o.is_ok res.result ≡ false)
      × Accepts o res reason
      × (settle_revert o reason res ≡ record res { result = o.ret }))
    ⊎ (((settle_revert o reason res).result ≡ o.revert) × Refuses o res reason)

settle_revert-Settles :
    (o : Outside) (reason : Option Bytes) (res : CallResult) → Settles o reason res
unfolding Settles settle_revert
settle_revert-Settles o none res = elim (Bool-cases (o.is_ok res.result)) [
  | inl ok ↦ inr (ground arith, no_failure none ok)
  | inr bad ↦ inl (bad, any_reason, ground arith)
]
settle_revert-Settles o (some expected) res = elim (Bool-cases (o.is_ok res.result)) [
  | inl ok ↦ inr (ground arith, no_failure (some expected) ok)
  | inr bad ↦ elim (Bool-cases (list_beq (actual_reason o res.retdata) expected)) [
    | inl same ↦ inl (
      bad,
      same_reason expected ((list_beq_iff (actual_reason o res.retdata) expected).0 same),
      ground arith,
    )
    | inr other ↦ inr (ground arith, other_reason expected other)
  ]
]

check_expected_revert_eq :
    (o : Outside) (host : FuzzHost) (e : ExpectedRevert) (res : CallResult)
    → host.expected_revert ≡ some e
    → host.call_depth ≤ e.depth
    → check_expected_revert o host res
      ≡ (record host { expected_revert = none }, settle_revert o e.reason res)
unfolding check_expected_revert
check_expected_revert_eq o host e res h d = ground arith

-- The test of an expected revert, at the depth where it was set or above: the expectation is
-- taken; if the call failed with a reason that the expectation accepts, the result is `Return` with
-- the return data of the call, and if it did not, the result is `Revert`.
pub check_expected_revert_lem :
    (o : Outside) (host : FuzzHost) (e : ExpectedRevert) (res : CallResult)
    → host.expected_revert ≡ some e
    → host.call_depth ≤ e.depth
    → (((check_expected_revert o host res).0).expected_revert ≡ none)
      × (((o.is_ok res.result ≡ false)
            × Accepts o res e.reason
            × ((check_expected_revert o host res).1 ≡ record res { result = o.ret }))
          ⊎ ((((check_expected_revert o host res).1).result ≡ o.revert) × Refuses o res e.reason))
unfolding Settles
check_expected_revert_lem o host e res h d =
    rw (check_expected_revert_eq o host e res h d) (refl, settle_revert-Settles o e.reason res)

unfoldable pub Keeps : FuzzHost → FuzzHost → Type 0
Keeps h h' = (h'.call_depth ≡ h.call_depth) × (h'.prank ≡ h.prank) × (h'.tx_caller ≡ h.tx_caller)

pub check_expected-Keeps :
    (o : Outside) (call : CallInputs) (host : FuzzHost) (res : CallResult)
    → Keeps host (check_expected o call host res).0
unfolding Keeps check_expected check_assert_result check_expected_revert check_emits_and_calls
    check_expected_emits check_expected_calls
check_expected-Keeps o call host res = ground arith

-- No revert was expected, or the call failed with a reason that the expectation accepts.
abbrev pub RevertMet : Outside → FuzzHost → CallResult → Type 0
RevertMet o host res =
    (host.expected_revert ≡ none)
    ⊎ ((e : ExpectedRevert) × (host.expected_revert ≡ some e)
        × (o.is_ok res.result ≡ false)
        × Accepts o res e.reason)

revert_kept :
    (o : Outside) (call : CallInputs) (host : FuzzHost) (res : CallResult) (e : ExpectedRevert)
    → host.call_depth ≡ 0
    → host.expected_revert ≡ some e
    → (settle_revert o e.reason res).result ≡ o.revert
    → ((check_expected o call host res).1).result ≡ o.revert
unfolding check_expected check_assert_result check_expected_revert check_emits_and_calls
    check_expected_emits check_expected_calls
revert_kept o call host res e d h k = ground arith

check_expected-RevertMet :
    (o : Outside) (call : CallInputs) (host : FuzzHost) (res : CallResult)
    → host.call_depth ≡ 0
    → ((check_expected o call host res).1).result ≢ o.revert
    → RevertMet o host res
unfolding Settles
check_expected-RevertMet o call host res d h = elim (Option-cases host.expected_revert) [
  | inl p ↦ inl p
  | inr (e, p) ↦ elim (settle_revert-Settles o e.reason res) [
    | inl (bad, accepts, _) ↦ inr (e, p, bad, accepts)
    | inr (reverts, _) ↦ absurd (h (revert_kept o call host res e d p reverts))
  ]
]

-- A root call whose result is no revert after `check_expected`: no assertion has failed; if a
-- revert was expected, the call failed, with the expected reason where one was given; if a log was
-- expected at depth 0 and the call is not static, all expected logs have been found; and no count
-- of an expected call differs.
pub check_expected_lem :
    (o : Outside) (call : CallInputs) (host : FuzzHost) (res : CallResult)
    → host.call_depth ≡ 0
    → ((check_expected o call host res).1).result ≢ o.revert
    → (host.assert_msg ≡ none)
      × RevertMet o host res
      × ((any_of (λ (e : ExpectedEmit). e.depth == 0) host.expected_emits && not call.is_static
            ≡ false)
          ⊎ (any_of (λ (e : ExpectedEmit). not e.found) host.expected_emits ≡ false))
      × (any_call_failed host.expected_calls ≡ false)
unfolding check_expected check_assert_result check_expected_revert settle_revert
    check_emits_and_calls check_expected_emits check_expected_calls
check_expected_lem o call host res d h =
    (ground arith, check_expected-RevertMet o call host res d h, ground arith, ground arith)
