-- ===== src/Concolic/Host.antt =====
-- `ConcolicHost` of src/evm/concolic/concolic_host.rs: the middleware that runs beside the
-- interpreter. Stacks are lists with the top first, `none` is a panic. `solving` holds the
-- constraints that were handed to worker threads, and `already_solved` is the global set.
pub mod Opcodes
pub mod State
pub mod Lengths
pub mod Effects
pub mod Frames
pub mod Branches
pub mod Storage
pub mod Agreement
use ityfuzz.Prelude.{
  ℕ, zero, suc, ◌+◌, ◌-◌, ◌%◌, ◌^◌, ◌≡◌, Bool, true, false, not as negb, ◌&&◌, ◌||◌, Option, none,
  some, List, [], ◌∷◌, ◌++◌, if◌then◌else◌, ltb, leb, ◌==◌, ◌>>=◌, length, get_elem?, set, drop,
  replicate, any_of, list_beq, wrapping_sub, word, get, insert, nat_eq,
}
use ityfuzz.Concolic.Expr.{
  ConcolicOp, evmu256, smod, not, slicedinput, constbyte, eq, lnot, concat, Expr, leaf, unary,
  only_rhs, binary, is_concrete,
}
use ityfuzz.Concolic.Simplify.{simplify}
use ityfuzz.Concolic.Memory.{
  SymbolicMemory, limb0, insert_256, insert_8, get_256, get_slice, zero_byte,
}
use ityfuzz.Concolic.Host.Opcodes.{
  Arm, op2, shift, on_result, iszero, bitnot, concrete_eval, env, calldataload, mload, mstore,
  mstore8, sload, sstore, jumpi, unsupported, dup, swap, call, arm_of, within,
}
use ityfuzz.Concolic.Host.State.{
  Stack, SymbolicState, ConcolicCallCtx, ConcolicHost, Interp, max_call_depth, pretty_print_str,
  pop_ctx, arg_places, push_ctx, input_bytes_from, get_input_slice_from_ctx, stack_bv,
}

-- `n` pops; a `Vec::pop` of the empty stack does nothing.
abbrev pub popped : ℕ → ConcolicHost → ConcolicHost
popped n host = record host { symbolic_stack = drop n host.symbolic_stack }

-- What an arm returns: the values to push, and the host.
abbrev pub Result : Type 0
Result = Stack × ConcolicHost

abbrev pub pushing : Expr → ConcolicHost → Option Result
pushing e host = some (some e ∷ [], host)

-- `self.constraints.push`, the thread, and the record of what it solves
unfoldable pub solve_once : List ℕ → Expr → ConcolicHost → ConcolicHost
solve_once constraint_hash intended host =
    if any_of (list_beq constraint_hash) host.already_solved then host else record host {
      solving = (host.constraints ++ (intended ∷ [])) ∷ host.solving;
      already_solved = constraint_hash ∷ host.already_solved;
    }

abbrev pub need_solve : Interp → ConcolicHost → Bool
need_solve interp host = if ltb max_call_depth host.call_depth then false else interp.has_source

abbrev pub path_constraint : Bool → Expr → Expr
path_constraint br e = if br then unary e lnot else e

-- The branch not taken is solved for, where that is wanted.
unfoldable pub attempt : (ConcolicOp → List ℕ) → Bool → Expr → ConcolicHost → ConcolicHost
attempt debug wanted intended host =
    if wanted then solve_once (pretty_print_str debug intended) intended host else host

-- The branch taken becomes a constraint.
unfoldable pub assume_path : Bool → Expr → ConcolicHost → ConcolicHost
assume_path concrete real host =
    if concrete then host else record host { constraints = host.constraints ++ (real ∷ []) }

unfoldable pub run_jumpi : (ConcolicOp → List ℕ) → Interp → ConcolicHost → Option Result
run_jumpi debug interp host = do
  cond ← get_elem? interp.stack 1
  e ← stack_bv interp host 1
  let real = path_constraint (cond == 0) e
  concrete ← is_concrete real
  let wanted = need_solve interp host && negb concrete
  some ([], popped 2 (assume_path concrete real (attempt debug wanted (unary real lnot) host)))

unfoldable pub push_slice : ℕ → ConcolicHost → Option Result
push_slice idx host = get_input_slice_from_ctx host idx 32 >>= λ bytes. pushing bytes host

unfoldable pub run_calldataload : Interp → ConcolicHost → Option Result
run_calldataload interp host = do
  offset ← get_elem? interp.stack 0
  let host1 = popped 1 host
  (if leb (length host.ctxs) 0
      then pushing (leaf (slicedinput offset)) host1
      else push_slice (limb0 offset) host1)

abbrev pub flatten : Option (Option Expr) → Option Expr
flatten none = none
flatten (some e) = e

-- The operands popped, and the place of the result
abbrev pub calling : ℕ → ConcolicHost → ConcolicHost
calling n host = record host {
  call_depth = host.call_depth + 1;
  symbolic_stack = none ∷ drop n host.symbolic_stack;
}

unfoldable pub run_call : ℕ → Interp → ConcolicHost → Option Result
unfolding push_ctx
run_call n interp host = push_ctx interp (calling n host) >>= λ host1. some ([], host1)

unfoldable pub run_swap : ℕ → Interp → ConcolicHost → Option Result
run_swap n interp host = do
  swapper ← stack_bv interp host n
  swappee ← stack_bv interp host 0
  some (
    [],
    record host {
      symbolic_stack = set (set host.symbolic_stack 0 (some swapper)) n (some swappee);
    },
  )

unfoldable pub run_arm : (ConcolicOp → List ℕ) → Arm → Interp → ConcolicHost → Option Result
unfolding run_jumpi run_calldataload run_call run_swap
run_arm debug (op2 op) interp host = do
  a ← stack_bv interp host 0
  b ← stack_bv interp host 1
  pushing (binary a b op) (popped 2 host)
run_arm debug (shift op) interp host = do
  a ← stack_bv interp host 1
  b ← stack_bv interp host 0
  pushing (binary a b op) (popped 2 host)
run_arm debug (on_result op) interp host = do
  a ← stack_bv interp host 0
  b ← stack_bv interp host 1
  c ← stack_bv interp host 2
  pushing (binary (binary a b op) c smod) (popped 3 host)
run_arm debug iszero interp host = do
  a ← stack_bv interp host 0
  pushing (binary a (leaf (evmu256 0)) eq) (popped 1 host)
run_arm debug bitnot interp host = do
  a ← stack_bv interp host 0
  pushing (unary a not) (popped 1 host)
run_arm debug (concrete_eval n m) interp host = some (replicate m none, popped n host)
run_arm debug (env op) interp host =
    if leb (length host.ctxs) 0 then pushing (leaf op) host else some (none ∷ [], host)
run_arm debug calldataload interp host = run_calldataload interp host
run_arm debug mload interp host = do
  offset ← get_elem? interp.stack 0
  e ← get_256 host.symbolic_memory offset
  some (e ∷ [], popped 1 host)
run_arm debug mstore interp host = do
  offset ← get_elem? interp.stack 0
  value ← stack_bv interp host 1
  memory ← insert_256 host.symbolic_memory offset value
  some ([], popped 2 (record host { symbolic_memory = memory }))
run_arm debug mstore8 interp host = do
  offset ← get_elem? interp.stack 0
  value ← stack_bv interp host 1
  memory ← insert_8 host.symbolic_memory offset value
  some ([], popped 2 (record host { symbolic_memory = memory }))
run_arm debug sload interp host = do
  key ← get_elem? interp.stack 0
  some (flatten (get key host.symbolic_state) ∷ [], popped 1 host)
run_arm debug sstore interp host = do
  key ← get_elem? interp.stack 1
  value ← stack_bv interp host 0
  some ([], popped 2 (record host { symbolic_state = insert key (some value) host.symbolic_state }))
run_arm debug jumpi interp host = run_jumpi debug interp host
run_arm debug unsupported interp host = none
run_arm debug (dup n) interp host = stack_bv interp host n >>= λ e. pushing e host
run_arm debug (swap n) interp host = run_swap n interp host
run_arm debug (call n) interp host = run_call n interp host

-- The loop over the values: a concrete expression is not kept.
abbrev pub kept : Option Expr → Option (Option Expr)
kept none = some none
kept (some e) = is_concrete e >>= λ concrete. some (if concrete then none else some e)

unfoldable pub push_all : Stack → ConcolicHost → Option ConcolicHost
push_all [] host = some host
push_all (v ∷ values) host =
    kept v >>= λ e. push_all values (record host { symbolic_stack = e ∷ host.symbolic_stack })

unfoldable pub on_step : (ConcolicOp → List ℕ) → Interp → ConcolicHost → Option ConcolicHost
unfolding run_arm push_all
on_step debug interp host =
    run_arm debug (arm_of interp.opcode) interp host >>= λ (result : Result).
    push_all result.0 result.1

unfoldable pub on_return : ConcolicHost → Option ConcolicHost
unfolding pop_ctx
on_return host = pop_ctx host >>= λ (host1 : ConcolicHost).
    some (record host1 { call_depth = wrapping_sub host1.call_depth 1 })
