-- ===== src/Vm/State.antt =====
-- `EVMState`, `SinglePostExecution` and `PostExecutionCtx` of src/evm/vm.rs. The flashloan and swap
-- data are left out; the bugs are numbers. `post_execution` has its last element first.
use ityfuzz.Prelude.{
  ℕ, ◌≡◌, refl, Bool, true, false, ◌&&◌, Option, none, some, List, [], ◌∷◌, ◌==◌, get, insert,
  nat_eq, or_default, ◌>>=◌, length,
}
use ityfuzz.Host.Storage.{Storage}
use ityfuzz.Reentrancy.{ReentrancyData, no_data}

-- The results that the source names; `other` is any other one, such as a revert.
pub data InstructionResult : Type 0 where
  returned : InstructionResult
  stop : InstructionResult
  self_destruct : InstructionResult
  control_leak : InstructionResult
  address_unbounded_static_call : InstructionResult
  arbitrary_external_call : ℕ → ℕ → ℕ → InstructionResult
  other : ℕ → InstructionResult

pub data Constraint : Type 0 where
  caller_is : ℕ → Constraint
  contract_is : ℕ → Constraint
  value_is : ℕ → Constraint
  no_liquidation : Constraint
  must_step_now : Constraint

-- `CallScheme::Call` is the only scheme here.
pub record CallContext : Type 0 where
  pub address : ℕ
  pub caller : ℕ
  pub apparent_value : ℕ
  pub code_address : ℕ

-- Of the interpreter of the library, the fields that the source reads and writes
pub record Interpreter : Type 0 where
  pub program_counter : ℕ
  pub instruction_result : InstructionResult
  pub memory : List ℕ
  pub stack : List ℕ
  pub return_data_buffer : List ℕ
  pub return_range : ℕ × ℕ
  pub is_static : Bool
  pub input : List ℕ
  pub context : CallContext

pub record SinglePostExecution : Type 0 where
  pub program_counter : ℕ
  pub instruction_result : InstructionResult
  pub memory : List ℕ
  pub stack : List ℕ
  pub return_range : ℕ × ℕ
  pub is_static : Bool
  pub input : List ℕ
  pub code_address : ℕ
  pub address : ℕ
  pub caller : ℕ
  pub value : ℕ
  pub output_len : ℕ
  pub output_offset : ℕ

unfoldable pub get_call_ctx : SinglePostExecution → CallContext
get_call_ctx pe = record {
  address = pe.address;
  caller = pe.caller;
  apparent_value = pe.value;
  code_address = pe.code_address;
}

unfoldable pub get_interpreter : SinglePostExecution → Interpreter
unfolding get_call_ctx
get_interpreter pe = record {
  program_counter = pe.program_counter;
  instruction_result = pe.instruction_result;
  memory = pe.memory;
  stack = pe.stack;
  return_data_buffer = [];
  return_range = pe.return_range;
  is_static = pe.is_static;
  input = pe.input;
  context = get_call_ctx pe;
}

unfoldable pub from_interp : Interpreter → ℕ × ℕ → SinglePostExecution
from_interp interp (out_offset, out_len) = record {
  program_counter = interp.program_counter;
  instruction_result = interp.instruction_result;
  memory = interp.memory;
  stack = interp.stack;
  return_range = interp.return_range;
  is_static = interp.is_static;
  input = interp.input;
  code_address = interp.context.code_address;
  address = interp.context.address;
  caller = interp.context.caller;
  value = interp.context.apparent_value;
  output_len = out_len;
  output_offset = out_offset;
}

pub record PostExecutionCtx : Type 0 where
  pub constraints : List Constraint
  pub pes : List SinglePostExecution
  pub must_step : Bool

pub record EvmState : Type 0 where
  pub state : Storage
  pub balance : List (ℕ × ℕ)
  pub post_execution : List PostExecutionCtx
  pub bug_hit : Bool
  pub self_destruct : List ℕ
  pub typed_bug : List ℕ
  pub arbitrary_calls : List ℕ
  pub integer_overflow : List ℕ
  pub reentrancy_metadata : ReentrancyData

abbrev pub new : EvmState
new = record {
  state = [];
  balance = [];
  post_execution = [];
  bug_hit = false;
  self_destruct = [];
  typed_bug = [];
  arbitrary_calls = [];
  integer_overflow = [];
  reentrancy_metadata = no_data;
}

unfoldable pub get_constraints : EvmState → List Constraint
get_constraints s = elim s.post_execution [ [] ↦ [] | i ∷ _ ↦ i.constraints ]

unfoldable pub has_post_execution : EvmState → Bool
has_post_execution s = elim s.post_execution [ [] ↦ false | i ∷ _ ↦ true ]

unfoldable pub first_pe : PostExecutionCtx → Option SinglePostExecution
first_pe i = elim i.pes [ [] ↦ none | pe ∷ _ ↦ some pe ]

unfoldable pub get_post_execution_needed_len : EvmState → Option ℕ
get_post_execution_needed_len s = elim s.post_execution [
  | [] ↦ none
  | i ∷ _ ↦ first_pe i >>= λ pe. some pe.output_len
]

unfoldable pub get_post_execution_pc : EvmState → Option ℕ
get_post_execution_pc s = elim s.post_execution [
  | [] ↦ some 0
  | i ∷ _ ↦ first_pe i >>= λ pe. some pe.program_counter
]

unfoldable pub get_post_execution_len : EvmState → ℕ
get_post_execution_len s = length s.post_execution

-- The slots of one account are all in the other, with the same values.
abbrev pub account_within : List (ℕ × ℕ) → List (ℕ × ℕ) → Bool
account_within [] other_account = true
account_within ((k, v) ∷ account) other_account =
    elim (get k other_account) [ none ↦ false | some v2 ↦ v == v2 ]
    && account_within account other_account

abbrev pub storage_within : Storage → Storage → Bool
storage_within [] s2 = true
storage_within ((k, v) ∷ s) s2 =
    elim (get k s2) [ none ↦ false | some v2 ↦ account_within v v2 ] && storage_within s s2

unfoldable pub is_subset_of : EvmState → EvmState → Bool
is_subset_of s s2 = storage_within s.state s2.state

unfoldable pub get_balance : ℕ → EvmState → Option ℕ
get_balance address s = get address s.balance

unfoldable pub set_balance : ℕ → ℕ → EvmState → EvmState
set_balance address balance s = record s { balance = insert address balance s.balance }

unfoldable pub sload : ℕ → ℕ → EvmState → Option ℕ
sload address slot s = get address s.state >>= λ slots. get slot slots

unfoldable pub sstore : ℕ → ℕ → ℕ → EvmState → EvmState
sstore address slot value s = record s {
  state = insert address (insert slot value (or_default [] (get address s.state))) s.state;
}

-- A frame that is suspended and taken up again is the frame, with an empty return buffer.
pub get_interpreter-from_interp :
    (interp : Interpreter) (out : ℕ × ℕ)
    → get_interpreter (from_interp interp out) ≡ record interp { return_data_buffer = [] }
unfolding get_interpreter from_interp
get_interpreter-from_interp interp (offset, len) = refl
