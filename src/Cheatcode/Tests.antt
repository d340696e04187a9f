-- ===== src/Cheatcode/Tests.antt =====
-- The cheat codes at concrete hosts, calls and logs.
mod Numbers
use ityfuzz.Prelude.{
  ℕ, ◌+◌, ◌≡◌, ◌⊎◌, refl, true, false, not, ◌&&◌, none, some, List, [], ◌∷◌, ◌==◌, arith, get,
  insert, any_of, ◌↔◌,
}
use ityfuzz.Cheatcode.{Bytes, RawLog, count, FuzzHost, CallInputs, CallResult}
use ityfuzz.Cheatcode.Tracker.{
  Call, expected_call, expect_call_with_count, real_calls, real_call, count_call, matches,
  any_call_failed, any_failed, occurrences,
}
use ityfuzz.Cheatcode.Counts.{expect_call_with_count-check, any_call_failed-count}
use ityfuzz.Cheatcode.Queue.{Pending, Embeds, queue, all_found, handle_logs, handle_logs_lem}
use ityfuzz.Cheatcode.Emits.{expected_emit}
use ityfuzz.Cheatcode.Outcome.{
  Outside, actual_reason, settle_revert, check_expected_revert, check_expected, check_assert_result,
  check_emits_and_calls, check_expected_emits, check_expected_calls,
}
use ityfuzz.Cheatcode.Checks.{RevertMet, check_expected_lem}
use ityfuzz.Cheatcode.Caller.{
  prank1, call, leave, pranked_input, pranked_host, prank1-call, call_short,
}
use ityfuzz.Cheatcode.Records.{
  Step, accesses, record_steps, start_record, keys_of, reads_slot, writes_slot,
  accesses-record_steps,
}

abbrev selector : Bytes
selector = 1 ∷ 2 ∷ []

abbrev hit : Call
hit = record { target = 7; input = 1 ∷ 2 ∷ 3 ∷ []; value = 0 }

abbrev miss : Call
miss = record { target = 7; input = 1 ∷ 5 ∷ []; value = 0 }

abbrev calls : List Call
calls = hit ∷ miss ∷ hit ∷ []

any_call_failed-count_example :
    any_call_failed (real_calls calls (expect_call_with_count 7 selector none 3 []))
    ≡ not (3 == occurrences 7 selector (expected_call none 3 count) calls)
unfolding occurrences matches
any_call_failed-count_example = any_call_failed-count calls 7 selector none 3 (omega arith)

abbrev log_of : ℕ → RawLog
log_of topic = record { address = 3; topics = topic ∷ []; bytes = [] }

abbrev pending : ℕ → Pending
pending topic = record {
  emit = expected_emit 0 (true, true, true, true) none;
  expected = log_of topic;
}

handle_logs_lem_example :
    (all_found (handle_logs (log_of 4 ∷ log_of 5 ∷ []) (queue (pending 5 ∷ []) [])) ≡ true)
    ↔ Embeds (pending 5 ∷ []) (log_of 4 ∷ log_of 5 ∷ [])
handle_logs_lem_example = handle_logs_lem (log_of 4 ∷ log_of 5 ∷ []) (pending 5 ∷ []) []

abbrev outside : Outside
outside = record {
  ret = 2;
  revert = 32;
  is_ok = λ r. r == 2;
  abi_encode = λ m. 1 ∷ [];
  abi_decode = λ bytes. none;
}

abbrev host : FuzzHost
host = record {
  call_depth = 0;
  tx_caller = 9;
  prank = none;
  expected_revert = some (record { reason = some (4 ∷ []); depth = 0 });
  expected_emits = [];
  expected_calls = [];
  assert_msg = none;
  balances = (8, 10) ∷ [];
  next_slot = 0;
}

abbrev failed_call : CallResult
failed_call = record { result = 32; gas = 0; retdata = 4 ∷ [] }

abbrev inputs : ℕ → CallInputs
inputs value = record { caller = 8; source = 8; target = 5; value = value; is_static = false }

check_expected_lem_example :
    (host.assert_msg ≡ none)
    × RevertMet outside host failed_call
    × ((any_of (λ e. e.depth == 0) host.expected_emits && not false ≡ false)
        ⊎ (any_of (λ e. not e.found) host.expected_emits ≡ false))
    × (any_call_failed host.expected_calls ≡ false)
unfolding check_expected check_assert_result check_expected_revert settle_revert actual_reason
    check_emits_and_calls check_expected_emits check_expected_calls any_call_failed
check_expected_lem_example =
    check_expected_lem outside (inputs 0) host failed_call refl (omega arith)

abbrev callee : FuzzHost → CallInputs → FuzzHost × CallResult
callee h i = (record h { tx_caller = 77 }, record { result = 2; gas = 0; retdata = [] })

prank1-call_example :
    (call outside callee 8 (inputs 0) (prank1 8 9 1 2 host)
      ≡ leave outside
          (pranked_input 1 (inputs 0))
          (callee (pranked_host 8 1 2 host) (pranked_input 1 (inputs 0))))
    × ((call outside callee 8 (inputs 0) (prank1 8 9 1 2 host)).0.prank ≡ none)
    × ((call outside callee 8 (inputs 0) (prank1 8 9 1 2 host)).0.tx_caller ≡ 9)
    × ((call outside callee 8 (inputs 0) (prank1 8 9 1 2 host)).0.call_depth ≡ 0)
prank1-call_example =
    prank1-call outside callee 8 1 2 (inputs 0) host refl (omega arith) (λ h i. (refl, refl))

abbrev storage_steps : List Step
storage_steps =
    record { opcode = 0x54; address = 3; stack = 11 ∷ [] }
    ∷ record { opcode = 0x55; address = 3; stack = 12 ∷ 1 ∷ [] }
    ∷ []
