-- ===== src/Cheatcode/Outcome.antt =====
-- `check_expected` and its parts in src/evm/host.rs; expect_revert0, 1 and 2 of expect.rs.
use ityfuzz.Prelude.{
  ℕ, Bool, not, ◌&&◌, ◌||◌, Option, none, some, [], ◌∷◌, ◌==◌, leb, ltb, if◌then◌else◌, length,
  take, drop, any_of, list_beq,
}
use ityfuzz.Cheatcode.{Bytes, ExpectedEmit, FuzzHost, CallInputs, CallResult}
use ityfuzz.Cheatcode.Tracker.{any_call_failed}

pub data Message : Type 0 where
  did_not_revert reason_mismatch log_mismatch count_mismatch : Message
  assertion : Bytes → Message

-- Of the crates: the numbers of `InstructionResult::Return` and `Revert`, the pattern
-- `return_ok!()`, `abi_encode` of a message, and the decoding of ABI-encoded bytes.
pub record Outside : Type 0 where
  pub ret : ℕ
  pub revert : ℕ
  pub is_ok : ℕ → Bool
  pub abi_encode : Message → Bytes
  pub abi_decode : Bytes → Option Bytes

-- `expect_revert0` (any reason), `expect_revert1` and `expect_revert2`
unfoldable pub expect_revert : Option Bytes → FuzzHost → FuzzHost
expect_revert reason host = record host {
  expected_revert = some (record { reason = reason; depth = host.call_depth });
}

abbrev pub revert_prefix : Bytes
revert_prefix = 8 ∷ 195 ∷ 121 ∷ 160 ∷ []

abbrev pub error_prefix : Bytes
error_prefix = 11 ∷ 196 ∷ 69 ∷ 3 ∷ []

abbrev pub reverted : Outside → ℕ → Message → CallResult
reverted o gas message = record { result = o.revert; gas = gas; retdata = o.abi_encode message }

unfoldable pub actual_reason : Outside → Bytes → Bytes
actual_reason o retdata =
    if leb 4 (length retdata)
      && (list_beq (take 4 retdata) error_prefix || list_beq (take 4 retdata) revert_prefix)
    then (elim (o.abi_decode (drop 4 retdata)) [ none ↦ retdata | some bytes ↦ bytes ])
    else retdata

-- The result once the expectation is taken.
unfoldable pub settle_revert : Outside → Option Bytes → CallResult → CallResult
unfolding actual_reason
settle_revert o reason res =
    if o.is_ok res.result then reverted o res.gas did_not_revert else elim reason [
      | none ↦ record res { result = o.ret }
      | some expected ↦
          if list_beq (actual_reason o res.retdata) expected
          then record res { result = o.ret }
          else reverted o res.gas reason_mismatch
    ]

unfoldable pub check_expected_revert : Outside → FuzzHost → CallResult → FuzzHost × CallResult
unfolding settle_revert
check_expected_revert o host res = elim host.expected_revert [
  | none ↦ (host, res)
  | some e ↦
      if ltb e.depth host.call_depth
      then (host, res)
      else (record host { expected_revert = none }, settle_revert o e.reason res)
]

unfoldable pub check_expected_emits :
    Outside → CallInputs → FuzzHost → CallResult → FuzzHost × CallResult
check_expected_emits o call host res =
    if any_of (λ (e : ExpectedEmit). e.depth == host.call_depth) host.expected_emits
      && not call.is_static
    then (if any_of (λ (e : ExpectedEmit). not e.found) host.expected_emits
        then (host, reverted o res.gas log_mismatch)
        else (record host { expected_emits = [] }, res))
    else (host, res)

unfoldable pub check_expected_calls : Outside → FuzzHost → CallResult → FuzzHost × CallResult
check_expected_calls o host res = if ltb 0 host.call_depth then (host, res) else (
  record host { expected_calls = [] },
  if any_call_failed host.expected_calls then reverted o res.gas count_mismatch else res,
)

unfoldable pub check_assert_result : Outside → FuzzHost → Option CallResult
check_assert_result o host = elim host.assert_msg [
  | none ↦ none
  | some msg ↦ some (reverted o 0 (assertion msg))
]

unfoldable pub check_emits_and_calls :
    Outside → CallInputs → FuzzHost × CallResult → FuzzHost × CallResult
unfolding check_expected_emits check_expected_calls
check_emits_and_calls o call (host, res) =
    if res.result == o.revert
    then (host, res)
    else (let (host', res') = check_expected_emits o call host res in
        if res'.result == o.revert then (host', res') else check_expected_calls o host' res')

unfoldable pub check_expected : Outside → CallInputs → FuzzHost → CallResult → FuzzHost × CallResult
unfolding check_assert_result check_expected_revert check_emits_and_calls
check_expected o call host res = elim (check_assert_result o host) [
  | some failed ↦ (host, failed)
  | none ↦ check_emits_and_calls o call (check_expected_revert o host res)
]
