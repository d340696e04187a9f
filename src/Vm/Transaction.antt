-- ===== src/Vm/Transaction.antt =====
-- `execute_abi` of `EVMExecutor` in src/evm/vm.rs: the payment, the loop that takes up suspended
-- executions, and the result. The loop takes fuel; `none` is a panic or a lack of fuel.
pub mod Payment
pub mod Ends
pub mod Forgets
use ityfuzz.Prelude.{
  ℕ, zero, suc, ◌+◌, ◌-◌, ◌%◌, ◌^◌, Bool, true, false, not, ◌||◌, ◌&&◌, Option, none, some, List,
  [], ◌∷◌, ◌==◌, ltb, leb, if◌then◌else◌, nat_eq, or_default, ◌>>=◌, length, add_member,
}
use ityfuzz.Vm.State.{
  InstructionResult, returned, stop, self_destruct, control_leak, address_unbounded_static_call,
  arbitrary_external_call, other, Constraint, caller_is, contract_is, value_is, no_liquidation,
  must_step_now, CallContext, SinglePostExecution, get_call_ctx, PostExecutionCtx, EvmState,
  get_balance, set_balance,
}
use ityfuzz.Vm.Executor.{
  VmHost, Input, Intermediate, Machine, is_reverted_or_control_leak, execute_from_pc,
}

abbrev pub max_post_execution : ℕ
max_post_execution = 10

pub record ExecutionResult : Type 0 where
  pub output : List ℕ
  pub reverted : Bool
  pub new_state : Option EvmState
  pub additional_info : Option ℕ

-- The balance check and the transfer; `none` is a balance that is too small.
unfoldable pub pay : Input → EvmState → Option EvmState
unfolding get_balance set_balance
pay input vm_state =
    let tx_value = or_default 0 input.txn_value in
    let caller_balance = or_default 0 (get_balance input.caller vm_state) in
    let contract_balance = or_default 0 (get_balance input.contract vm_state) in
    if ltb 0 tx_value
    then if ltb caller_balance tx_value
      then none
      else some (
          set_balance input.contract ((contract_balance + tx_value) % 2 ^ 256)
            (set_balance input.caller (caller_balance - tx_value) vm_state))
    else some vm_state

-- The encoded call, or the direct data where there is none
abbrev pub data_of : Input → List ℕ
data_of input = elim input.bytes [ [] ↦ input.direct_data | b ∷ bs ↦ input.bytes ]

abbrev pub after_hash : List ℕ → List ℕ
after_hash output = 0 ∷ 0 ∷ 0 ∷ 0 ∷ output

-- `must_step` of the last suspended execution
abbrev pub must_step : List PostExecutionCtx → Bool
must_step [] = false
must_step (ctx ∷ _) = ctx.must_step

abbrev pub returns_or_stops : InstructionResult → Bool
returns_or_stops returned = true
returns_or_stops stop = true
returns_or_stops _ = false

abbrev pub leaks : InstructionResult → Bool
leaks control_leak = true
leaks address_unbounded_static_call = true
leaks (arbitrary_external_call _ _ _) = true
leaks _ = false

abbrev pub constraints_of : InstructionResult → List Constraint
constraints_of address_unbounded_static_call = must_step_now ∷ []
constraints_of (arbitrary_external_call caller target value) =
    caller_is caller ∷ contract_is target ∷ value_is value ∷ no_liquidation ∷ []
constraints_of _ = []

abbrev pub must_step_of : InstructionResult → Bool
must_step_of (arbitrary_external_call _ _ _) = true
must_step_of _ = false

abbrev pub not_reverted : InstructionResult → Bool
not_reverted (other _) = false
not_reverted _ = true

abbrev pub union : List ℕ → List ℕ → List ℕ
union xs [] = xs
union xs (y ∷ ys) = union (add_member y xs) ys

-- The state after a leak has the suspended execution; `none` is the limit of their number.
unfoldable pub suspend : VmHost → Intermediate → Option EvmState
suspend host r =
    if leaks r.ret
    then if ltb max_post_execution (length r.new_state.post_execution + 1)
      then none
      else some (record r.new_state {
        post_execution =
            record {
              constraints = constraints_of r.ret;
              pes = host.leak_ctx;
              must_step = must_step_of r.ret;
            }
            ∷ r.new_state.post_execution;
      })
    else some r.new_state

abbrev pub failed : List ℕ → ExecutionResult
failed output = record {
  output = output;
  reverted = true;
  new_state = none;
  additional_info = none;
}

-- From the leaks on to the result
unfoldable pub finish : EvmState → VmHost → Intermediate → ExecutionResult
unfolding suspend
finish vm_state host r = elim (suspend host r) [
  | none ↦ failed r.output
  | some s ↦ record {
    output = r.output;
    reverted = not (not_reverted r.ret);
    new_state = some (record s {
      typed_bug = union vm_state.typed_bug host.current_typed_bug;
      self_destruct = union vm_state.self_destruct host.current_self_destructs;
      arbitrary_calls = union vm_state.arbitrary_calls host.current_arbitrary_calls;
      integer_overflow = union vm_state.integer_overflow host.current_integer_overflow;
    });
    additional_info = elim r.ret [ control_leak ↦ some (host.call_count % 2 ^ 8) | _ ↦ none ];
  }
]

module _ (m : Machine) where
  -- The suspended frames in turn, each on the same `vm_state`: the last result, and `cleanup`
  unfoldable pub run_frames :
      List SinglePostExecution
      → List ℕ
      → EvmState
      → Input
      → Bool
      → VmHost
      → Option Intermediate
      → Option (Intermediate × VmHost)
  run_frames [] bytes vm_state input cleanup host local_res = local_res >>= λ res. some (res, host)
  run_frames (pe ∷ pes) bytes vm_state input cleanup host local_res = do
    let pushed = record pe { stack = m.push 1 pe.stack }
    (res, host') ←
        execute_from_pc m (get_call_ctx pushed) vm_state bytes input (some pushed) cleanup host
    (if is_reverted_or_control_leak res.ret
        then some (res, host')
        else run_frames pes (after_hash res.output) vm_state input false host' (some res))

  -- A step: the last suspended execution is taken off and its frames are run.
  unfoldable pub take_step :
      List ℕ → EvmState → Input → Bool → VmHost → Option (Intermediate × VmHost × EvmState)
  unfolding run_frames
  take_step bytes vm_state input cleanup host = elim vm_state.post_execution [
    | [] ↦ none
    | post_exec ∷ rest ↦
        let popped = record vm_state { post_execution = rest } in
        run_frames post_exec.pes bytes popped input cleanup host none
        >>= λ (r : Intermediate × VmHost). some (r.0, r.1, popped)
  ]

  unfoldable pub call_contract :
      List ℕ → EvmState → Input → Bool → VmHost → Option (Intermediate × VmHost × EvmState)
  call_contract bytes vm_state input cleanup host = do
    let ctx : CallContext = record {
      address = input.contract;
      caller = input.caller;
      apparent_value = or_default 0 input.txn_value;
      code_address = input.contract;
    }
    (res, host') ← execute_from_pc m ctx vm_state bytes input none cleanup host
    some (res, host', vm_state)

  -- The loop
  unfoldable pub transact :
      ℕ
      → Bool
      → Bool
      → List ℕ
      → EvmState
      → Input
      → VmHost
      → Option (Intermediate × VmHost × EvmState)
  transact zero is_step cleanup bytes vm_state input host = none
  transact (suc fuel) is_step cleanup bytes vm_state input host = do
    let (bytes', ready) = m.before_execute is_step bytes vm_state
    (res, host', vm_state') ←
        (if is_step
          then take_step bytes' ready input cleanup host
          else call_contract bytes' ready input cleanup host)
    let again = transact fuel true false (after_hash res.output) vm_state' input host'
    (if returns_or_stops res.ret && must_step res.new_state.post_execution
        then again
        else some (res, host', vm_state'))

  unfoldable pub execute_abi : ℕ → Input → VmHost → Option (ExecutionResult × VmHost)
  unfolding finish
  execute_abi fuel input host = elim (pay input input.state) [
    | none ↦ some (failed [], host)
    | some vm_state ↦
        transact fuel input.is_step true (data_of input) vm_state input host
        >>= λ (r : Intermediate × VmHost × EvmState). some (finish r.2 r.1 r.0, r.1)
  ]
