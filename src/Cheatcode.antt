-- ===== src/Cheatcode.antt =====
-- src/evm/middlewares/cheatcode and the host's side of it in src/evm/host.rs.
-- Addresses, words and bytes are numbers; a hash map is an association list, in the order in
-- which its iterator is taken to run.
pub mod Tracker
pub mod Counts
pub mod Emits
pub mod Queue
pub mod Outcome
pub mod Checks
pub mod Caller
pub mod Records
pub mod Approx
mod Tests
use ityfuzz.Prelude.{ℕ, Bool, false, Option, none, List, []}

-- `Address`, `EVMAddress`, and `Bytes`
abbrev pub Address : Type 0
Address = ℕ

abbrev pub Bytes : Type 0
Bytes = List ℕ

pub record Prank : Type 0 where
  pub old_caller : Address
  pub old_origin : Option Address
  pub new_caller : Address
  pub new_origin : Option Address
  pub single_call : Bool
  pub depth : ℕ

pub record RawLog : Type 0 where
  pub address : Address
  pub topics : List ℕ
  pub bytes : Bytes

pub record ExpectedRevert : Type 0 where
  pub reason : Option Bytes
  pub depth : ℕ

-- `checks` is the array of four booleans, by its indices 0, 1, 2 for the topics, and 3.
pub record ExpectedEmit : Type 0 where
  pub depth : ℕ
  pub log : Option RawLog
  pub check_topic1 : Bool
  pub check_topic2 : Bool
  pub check_topic3 : Bool
  pub check_data : Bool
  pub address : Option Address
  pub found : Bool

pub data ExpectedCallType : Type 0 where
  non_count count : ExpectedCallType

pub record ExpectedCallData : Type 0 where
  pub value : Option ℕ
  pub count : ℕ
  pub call_type : ExpectedCallType

-- `ExpectedCallTracker`
abbrev pub Expecteds : Type 0
Expecteds = List (Bytes × (ExpectedCallData × ℕ))

abbrev pub ExpectedCallTracker : Type 0
ExpectedCallTracker = List (Address × Expecteds)

-- What the cheat codes change of `FuzzHost`; `tx_caller` is `env.tx.caller`.
pub record FuzzHost : Type 0 where
  pub call_depth : ℕ
  pub tx_caller : Address
  pub prank : Option Prank
  pub expected_revert : Option ExpectedRevert
  pub expected_emits : List ExpectedEmit
  pub expected_calls : ExpectedCallTracker
  pub assert_msg : Option Bytes
  -- `evmstate`'s balances and `next_slot`
  pub balances : List (Address × ℕ)
  pub next_slot : ℕ

-- `CallInputs`: `context.caller`, `transfer.source`, `transfer.target`, `transfer.value`, `is_static`
pub record CallInputs : Type 0 where
  pub caller : Address
  pub source : Address
  pub target : Address
  pub value : ℕ
  pub is_static : Bool

-- `(InstructionResult, Gas, Bytes)`, the first and the second by their numbers
pub record CallResult : Type 0 where
  pub result : ℕ
  pub gas : ℕ
  pub retdata : Bytes
