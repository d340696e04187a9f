-- ===== src/Vm/Tests.antt =====
-- The executor at concrete values.
use ityfuzz.Prelude.{
  ◌+◌, ◌≤◌, ◌<◌, ◌≡◌, ◌≢◌, refl, true, false, none, some, [], ◌∷◌, arith, length, get,
}
use ityfuzz.Vm.State.{Interpreter, SinglePostExecution, from_interp, EvmState, new, stop}
use ityfuzz.Vm.Executor.{VmHost, Input, Machine}
use ityfuzz.Vm.Transaction.{ExecutionResult, execute_abi, max_post_execution, pay, run_frames}
use ityfuzz.Vm.Transaction.Ends.{MachineLaws, execute_abi-Ends}
use ityfuzz.Vm.Transaction.Payment.{balance_of, total_balance, pay_lem}
use ityfuzz.Vm.Transaction.Forgets.{run_frames_forget}

abbrev idle : Interpreter
idle = record {
  program_counter = 7;
  instruction_result = stop;
  memory = [];
  stack = 2 ∷ [];
  return_data_buffer = [];
  return_range = (0, 0);
  is_static = false;
  input = [];
  context = record { address = 1; caller = 2; apparent_value = 0; code_address = 1 };
}

-- A machine whose code stops at once
abbrev stops : Machine
stops = record {
  run_inspect = λ interp host. record { interp = interp; host = host; ret = stop };
  return_value = λ interp. [];
  set_memory = λ memory offset bytes. memory;
  push = λ v stack. v ∷ stack;
  new_interpreter = λ bytes ctx. record idle { input = bytes; context = ctx };
  before_execute = λ is_step bytes s. (bytes, s);
}

stops-MachineLaws : MachineLaws stops
stops-MachineLaws = record {
  run_keeps = λ interp host. refl;
  before_keeps = λ is_step bytes s. refl;
  before_bytes = λ is_step bytes s h. h;
}

abbrev frame : SinglePostExecution
frame = from_interp idle (0, 0)

abbrev suspended : EvmState
suspended = record new {
  balance = (2, 10) ∷ (1, 5) ∷ [];
  post_execution = record { constraints = []; pes = frame ∷ []; must_step = false } ∷ [];
}

abbrev input : Input
input = record {
  caller = 2;
  origin = 0;
  contract = 1;
  txn_value = some 4;
  is_step = true;
  bytes = 0 ∷ 0 ∷ 0 ∷ 0 ∷ 1 ∷ [];
  direct_data = [];
  randomness = [];
  repeat = 1;
  state = suspended;
}

abbrev host : VmHost
host = record {
  evmstate = new;
  has_code = λ a. true;
  coverage_changed = false;
  bug_hit = false;
  current_typed_bug = [];
  current_self_destructs = [];
  current_arbitrary_calls = [];
  current_integer_overflow = [];
  transient_storage = [];
  jumpi_trace = 37;
  call_count = 0;
  tx_caller = 0;
  randomness = [];
  leak_ctx = [];
  state_change = false;
  coverage_not_changed = 0;
}

execute_abi-Ends_example :
    (res : ExecutionResult) × (host' : VmHost) × (execute_abi stops 2 input host
      ≡ some (res, host'))
    × (length input.state.post_execution ≤ max_post_execution
        → (s : EvmState) → res.new_state ≡ some s
        → length s.post_execution ≤ max_post_execution)
execute_abi-Ends_example =
    execute_abi-Ends stops stops-MachineLaws 2 input host (omega arith) (omega arith, tt)
      (omega arith) (λ step. omega arith)

pay_lem_example :
    ((pay input suspended ≡ none) → balance_of 2 suspended < 4)
    × (4 ≤ balance_of 2 suspended
        → (s' : EvmState) × (pay input suspended ≡ some s')
          × (input.caller ≢ input.contract
              → (total_balance s' ≡ total_balance suspended)
                × (balance_of 1 s' ≡ balance_of 1 suspended + 4)
                × (balance_of 2 s' + 4 ≡ balance_of 2 suspended))
          × (input.caller ≡ input.contract → balance_of 2 s' ≡ balance_of 2 suspended + 4))
unfolding get
pay_lem_example = pay_lem input suspended 4 refl (omega arith) (omega arith)

run_frames_forget_example :
    run_frames stops
      (frame ∷ [])
      (0 ∷ 0 ∷ 0 ∷ 0 ∷ [])
      suspended
      input
      true
      (record host { evmstate = suspended })
      none
    ≡ run_frames stops (frame ∷ []) (0 ∷ 0 ∷ 0 ∷ 0 ∷ []) suspended input true host none
run_frames_forget_example =
    run_frames_forget stops frame [] (0 ∷ 0 ∷ 0 ∷ 0 ∷ []) suspended suspended input true host none
