-- ===== src/Host/Calls.antt =====
-- `call_allow_control_leak` and `call_forbid_control_leak` of `FuzzHost` in src/evm/host.rs: when a
-- call from a contract ends the execution as a control leak. The writing of the call relations to
-- a file is left out. `none` is a panic.
pub mod Leaks
mod Tests
use ityfuzz.Prelude.{
  ℕ, zero, suc, ◌+◌, ◌%◌, ◌^◌, Bool, true, false, ◌&&◌, ◌||◌, not, Option, none, some, List, [],
  ◌∷◌, ◌++◌, ◌==◌, leb, ltb, if◌then◌else◌, list_beq, list_eq, nat_eq, get, insert, member,
  add_member, or_default, length, take, replicate, ◌>>=◌, update,
}
use ityfuzz.Vm.State.{
  InstructionResult, returned, stop, self_destruct, control_leak, address_unbounded_static_call,
  arbitrary_external_call, other, CallContext, Interpreter, SinglePostExecution, from_interp,
}
use ityfuzz.Host.Maps.{map_size}

pub data CallScheme : Type 0 where
  plain_call call_code delegate_call static_call : CallScheme

pub record CallInputs : Type 0 where
  pub contract : ℕ
  pub scheme : CallScheme
  pub context : CallContext
  -- `transfer.value`
  pub value : ℕ
  pub input : List ℕ

pub data CallMiddlewareReturn : Type 0 where
  continue : CallMiddlewareReturn
  return_revert : CallMiddlewareReturn
  return_success : List ℕ → CallMiddlewareReturn

-- Of `FuzzHost`, what these calls read and write; the keys of its maps are lists of numbers, and a
-- code is a number. `abi_max_size` and `ret_size` are global variables.
pub record CallHost : Type 0 where
  pub call_count : ℕ
  pub leak_ctx : List SinglePostExecution
  pub middlewares_latent_call_actions : List CallMiddlewareReturn
  pub pc : ℕ
  pub jumpi_trace : ℕ
  pub pc_to_addresses : List (List ℕ × List ℕ)
  pub pc_to_call_hash : List (List ℕ × List (List ℕ))
  pub current_arbitrary_calls : List (ℕ × ℕ × ℕ)
  pub hash_to_address : List (List ℕ × List ℕ)
  pub code : List (ℕ × ℕ)
  pub abi_max_size : ℕ → ℕ
  pub ret_size : ℕ

-- The result and the returned bytes; the gas is 0 throughout.
abbrev pub CallResult : Type 0
CallResult = InstructionResult × List ℕ

-- The run of a code on an input in a context, the callers of the fuzzer's state, the numbers of the
-- results `Continue` and `Revert`, the hash of a function's selector, and the global flags.
pub record Outside : Type 0 where
  pub run : ℕ → List ℕ → CallContext → CallHost → CallHost × CallResult
  pub has_caller : ℕ → Bool
  pub continue_result : ℕ
  pub revert_result : ℕ
  pub hash_of : List ℕ → ℕ
  pub call_until : ℕ
  pub active_match_ext_call : Bool

-- The selector: the input resized to four bytes.
abbrev pub selector : CallInputs → List ℕ
selector input = take 4 (input.input ++ replicate 4 0)

unfoldable pub push_interp : Interpreter → ℕ × ℕ → CallHost → CallHost
push_interp interp out host = record host { leak_ctx = from_interp interp out ∷ [] }

unfoldable pub record_func_hash : Outside → CallInputs → CallHost → CallHost
record_func_hash o input host = record host {
  abi_max_size = update (o.hash_of (selector input) % map_size) host.ret_size host.abi_max_size;
}

unfoldable pub latent_result : Outside → List CallMiddlewareReturn → Option CallResult
latent_result o [] = none
latent_result o (continue ∷ actions) = latent_result o actions
latent_result o (return_revert ∷ actions) = some (other o.revert_result, [])
latent_result o (return_success b ∷ actions) = some (other o.continue_result, b)

abbrev pub target_key : CallInputs → CallHost → List ℕ
target_key input host = input.context.caller ∷ host.pc ∷ []

abbrev pub targets : CallInputs → CallHost → List ℕ
targets input host = or_default [] (get (target_key input host) host.pc_to_addresses)

-- `assert_ne!(self._pc, 0)` and the record of the target at the place of the call.
unfoldable pub record_target : CallInputs → CallHost → Option CallHost
record_target input host =
    if host.pc == 0
    then none
    else some (record host {
      pc_to_addresses =
          insert (target_key input host) (add_member input.contract (targets input host))
            host.pc_to_addresses;
    })

abbrev pub is_target_address_unbounded : CallInputs → CallHost → Bool
is_target_address_unbounded input host = ltb 50 (length (targets input host))

abbrev pub call_key : CallInputs → CallHost → List ℕ
call_key input host = input.context.caller ∷ host.pc ∷ host.jumpi_trace ∷ []

abbrev pub call_hashes : CallInputs → CallHost → List (List ℕ)
call_hashes input host = or_default [] (get (call_key input host) host.pc_to_call_hash)

unfoldable pub record_call_hash : CallInputs → CallHost → CallHost
record_call_hash input host = record host {
  pc_to_call_hash =
      insert (call_key input host) (add_member (selector input) (call_hashes input host))
        host.pc_to_call_hash;
}

abbrev pub is_arbitrary : CallInputs → CallHost → Bool
is_arbitrary input host = ltb 50 (length (call_hashes input host)) && leb 4 (length input.input)

unfoldable pub call_forbid_control_leak : Outside → CallInputs → CallHost → CallHost × CallResult
call_forbid_control_leak o input host = elim (get input.context.code_address host.code) [
  | some code ↦ o.run code input.input input.context host
  | none ↦
      if list_beq (selector input) (replicate 4 0)
      then (host, (other o.continue_result, []))
      else (host, (other o.revert_result, []))
]

abbrev pub is_leak : InstructionResult → Bool
is_leak control_leak = true
is_leak address_unbounded_static_call = true
is_leak (arbitrary_external_call caller target value) = true
is_leak returned = false
is_leak stop = false
is_leak self_destruct = false
is_leak (other n) = false

-- The end of `call_allow_control_leak`: the frame is pushed over those of the callee.
unfoldable pub push_after : Interpreter → ℕ × ℕ → CallHost × CallResult → CallHost × CallResult
push_after interp out (host, (ret, bytes)) = (
  (if is_leak ret
      then record host { leak_ctx = host.leak_ctx ++ (from_interp interp out ∷ []) }
      else host),
  (ret, bytes),
)

-- The contracts of the selector, where `ACTIVE_MATCH_EXT_CALL` asks for them and the target is none
-- of them.
unfoldable pub exact_targets : Outside → CallInputs → CallHost → Option (List ℕ)
exact_targets o input host = elim (get (selector input) host.hash_to_address) [
  | none ↦ none
  | some loc ↦ if o.active_match_ext_call && not (member input.contract loc) then some loc else none
]

unfoldable pub call_target :
    Outside → CallInputs → Interpreter → ℕ × ℕ → CallHost → Option (CallHost × CallResult)
unfolding call_forbid_control_leak push_after exact_targets
call_target o input interp out host = elim (exact_targets o input host) [
  | none ↦ some (push_after interp out (call_forbid_control_leak o input host))
  | some [] ↦ none
  | some (loc ∷ []) ↦ (do
    code ← get loc host.code
    some (o.run code input.input input.context host))
  | some (loc ∷ loc' ∷ locs) ↦ none
]

abbrev pub is_sender : Outside → CallInputs → CallHost → Bool
is_sender o input host = o.has_caller input.contract || is_target_address_unbounded input host

unfoldable pub record_arbitrary : CallInputs → Interpreter → CallHost → CallHost
record_arbitrary input interp host = record host {
  current_arbitrary_calls =
      host.current_arbitrary_calls
      ++ ((input.context.caller, input.context.address, interp.program_counter) ∷ []);
}

-- The tests of a call by its scheme, on the host that knows the target.
unfoldable pub call_by_scheme :
    Outside
    → CallScheme
    → CallInputs
    → Interpreter
    → ℕ × ℕ
    → CallHost
    → Option (CallHost × CallResult)
unfolding push_interp record_func_hash record_call_hash record_arbitrary call_target
call_by_scheme o static_call input interp out host =
    if is_sender o input host
    then some (
      push_interp interp out (record_func_hash o input host),
      (address_unbounded_static_call, []),
    )
    else call_target o input interp out host
call_by_scheme o plain_call input interp out host =
    if is_sender o input host
    then some (push_interp interp out (record_func_hash o input host), (control_leak, []))
    else if is_arbitrary input (record_call_hash input host)
    then some (
      push_interp interp out (record_arbitrary input interp (record_call_hash input host)),
      (arbitrary_external_call input.context.caller input.context.address input.value, []),
    )
    else call_target o input interp out (record_call_hash input host)
call_by_scheme o call_code input interp out host = call_target o input interp out host
call_by_scheme o delegate_call input interp out host = call_target o input interp out host

-- A latent result of the middlewares ends the call before its target is recorded.
unfoldable pub call_unless :
    Option CallResult
    → Outside
    → CallInputs
    → Interpreter
    → ℕ × ℕ
    → CallHost
    → Option (CallHost × CallResult)
unfolding record_target call_by_scheme
call_unless (some result) o input interp out host = some (host, result)
call_unless none o input interp out host = do
  known ← record_target input host
  call_by_scheme o input.scheme input interp out known

unfoldable pub call_allow_control_leak :
    Outside → CallInputs → Interpreter → ℕ × ℕ → CallHost → Option (CallHost × CallResult)
unfolding push_interp latent_result call_unless
call_allow_control_leak o input interp out host =
    let counted = record host { call_count = (host.call_count + 1) % 2 ^ 32 } in
    if leb o.call_until counted.call_count
    then some (push_interp interp out counted, (control_leak, []))
    else call_unless (latent_result o host.middlewares_latent_call_actions) o input interp out
        (record counted { middlewares_latent_call_actions = [] })
