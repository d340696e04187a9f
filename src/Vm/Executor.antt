-- ===== src/Vm/Executor.antt =====
-- `execute_from_pc` and `execute_abi` of `EVMExecutor` in src/evm/vm.rs, with the feature
-- `real_balance`, which is on by default. The interpreter's loop with its middlewares is a
-- parameter; `none` is a panic or a lack of fuel.
use ityfuzz.Prelude.{
  ℕ, zero, suc, ◌+◌, ◌-◌, ◌%◌, ◌^◌, Bool, true, false, Option, none, some, List, [], ◌==◌, ltb,
  if◌then◌else◌, ◌>>=◌, length, take, drop,
}
use ityfuzz.Vm.State.{
  InstructionResult, returned, stop, self_destruct, control_leak, other, CallContext, Interpreter,
  SinglePostExecution, get_interpreter, EvmState, new,
}

-- Of `FuzzHost`, what the executor reads and writes; `state_change` and `coverage_not_changed` are
-- global variables.
pub record VmHost : Type 0 where
  pub evmstate : EvmState
  pub has_code : ℕ → Bool
  pub coverage_changed : Bool
  pub bug_hit : Bool
  pub current_typed_bug : List ℕ
  pub current_self_destructs : List ℕ
  pub current_arbitrary_calls : List ℕ
  pub current_integer_overflow : List ℕ
  pub transient_storage : List ((ℕ × ℕ) × ℕ)
  pub jumpi_trace : ℕ
  pub call_count : ℕ
  pub tx_caller : ℕ
  pub randomness : List ℕ
  pub leak_ctx : List SinglePostExecution
  pub state_change : Bool
  pub coverage_not_changed : ℕ

pub record Input : Type 0 where
  pub caller : ℕ
  pub origin : ℕ
  pub contract : ℕ
  pub txn_value : Option ℕ
  pub is_step : Bool
  pub bytes : List ℕ
  pub direct_data : List ℕ
  pub randomness : List ℕ
  pub repeat : ℕ
  pub state : EvmState

pub record Intermediate : Type 0 where
  pub output : List ℕ
  pub new_state : EvmState
  pub pc : ℕ
  pub ret : InstructionResult
  pub stack : List ℕ
  pub memory : List ℕ

pub record Run : Type 0 where
  pub interp : Interpreter
  pub host : VmHost
  pub ret : InstructionResult

-- What the executor calls: the interpreter's loop, its return value, a write to its memory, a push
-- on a stack, a fresh interpreter, and the hooks of the middlewares before an execution.
pub record Machine : Type 0 where
  pub run_inspect : Interpreter → VmHost → Run
  pub return_value : Interpreter → List ℕ
  pub set_memory : List ℕ → ℕ → List ℕ → List ℕ
  pub push : ℕ → List ℕ → List ℕ
  pub new_interpreter : List ℕ → CallContext → Interpreter
  pub before_execute : Bool → List ℕ → EvmState → List ℕ × EvmState

abbrev pub is_call_success : InstructionResult → Bool
is_call_success returned = true
is_call_success stop = true
is_call_success control_leak = true
is_call_success self_destruct = true
is_call_success _ = false

abbrev pub is_reverted_or_control_leak : InstructionResult → Bool
is_reverted_or_control_leak returned = false
is_reverted_or_control_leak stop = false
is_reverted_or_control_leak self_destruct = false
is_reverted_or_control_leak _ = true

-- The initial setups
unfoldable pub set_up : Bool → Input → EvmState → VmHost → VmHost
set_up cleanup input vm_state host =
    let cleaned : VmHost =
      if cleanup
      then record host {
        coverage_changed = false;
        bug_hit = false;
        current_typed_bug = [];
        jumpi_trace = 37;
        current_self_destructs = [];
        current_arbitrary_calls = [];
        transient_storage = [];
        state_change = false;
      }
      else host in
    record cleaned {
      evmstate = vm_state;
      tx_caller = if input.origin == 0 then input.caller else input.origin;
      call_count = 0;
      randomness = input.randomness;
    }

abbrev pub no_code : Intermediate
no_code = record { output = []; new_state = new; pc = 0; ret = other 0; stack = []; memory = [] }

module _ (m : Machine) where
  -- The interpreter of a suspended frame with the data, after the hash, as its return buffer;
  -- `data.slice(4..)` panics on less than four bytes.
  unfoldable pub resumed : SinglePostExecution → List ℕ → Option Interpreter
  resumed pe bytes =
      if ltb (length bytes) 4
      then none
      else let interp = get_interpreter pe in
        let buffer = drop 4 bytes in
        let target_len =
          if ltb pe.output_len (length buffer) then pe.output_len else length buffer in
        some (record interp {
          return_data_buffer = buffer;
          memory = m.set_memory interp.memory pe.output_offset (take target_len buffer);
        })

  -- The loop over `repeats - 1`, with the result so far
  unfoldable pub repeat_runs : ℕ → InstructionResult → Interpreter → VmHost → Run
  repeat_runs zero ret interp host = record { interp = interp; host = host; ret = ret }
  repeat_runs (suc n) ret interp host =
      let r = m.run_inspect interp host in
      let cleared = record r.interp { stack = []; memory = []; program_counter = 0 } in
      let rest = repeat_runs n r.ret cleared r.host in
      if is_call_success r.ret
      then rest
      else record { interp = record cleared { return_range = (0, 0) }; host = r.host; ret = r.ret }

  -- The loop and the last run
  unfoldable pub run_all : ℕ → Interpreter → VmHost → Run
  unfolding repeat_runs
  run_all repeats interp host =
      let before = repeat_runs ((repeats + 2 ^ 64 - 1) % 2 ^ 64) stop interp host in
      if is_call_success before.ret then m.run_inspect before.interp before.host else before

  -- The interpreter, from the beginning or from a suspended execution
  unfoldable pub interpreter_for :
      List ℕ → CallContext → Option SinglePostExecution → Option Interpreter
  unfolding resumed
  interpreter_for bytes call_ctx none = some (m.new_interpreter bytes call_ctx)
  interpreter_for bytes call_ctx (some pe) = resumed pe bytes

  -- The result of a run, and the host with `COVERAGE_NOT_CHANGED`
  unfoldable pub result_of : Run → Intermediate × VmHost
  result_of r =
      let counted =
        if r.host.coverage_changed then 0 else (r.host.coverage_not_changed + 1) % 2 ^ 32 in
      (
        record {
          output = m.return_value r.interp;
          new_state = r.host.evmstate;
          pc = r.interp.program_counter;
          ret = r.ret;
          stack = r.interp.stack;
          memory = r.interp.memory;
        },
        record r.host { coverage_not_changed = counted },
      )

  unfoldable pub execute_from_pc :
      CallContext
      → EvmState
      → List ℕ
      → Input
      → Option SinglePostExecution
      → Bool
      → VmHost
      → Option (Intermediate × VmHost)
  unfolding set_up
  execute_from_pc call_ctx vm_state bytes input post_exec cleanup host =
      let started = set_up cleanup input vm_state host in
      if started.has_code call_ctx.code_address
      then (do
        interp ← interpreter_for bytes call_ctx post_exec
        let repeats : ℕ = elim post_exec [ none ↦ input.repeat | some pe ↦ 1 ]
        some (result_of (run_all repeats interp started)))
      else some (no_code, started)
