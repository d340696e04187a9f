-- ===== src/Concolic/Host/Lengths.antt =====
-- The stack discipline of the arms: each takes and puts as many values as its effect says.
use ityfuzz.Prelude.{
  ℕ, suc, ◌+◌, ◌≤◌, ◌≡◌, Bool, true, false, ◌&&◌, not, Option, none, some, List, [], ◌∷◌, arith,
  >>=-eq-some, length, length-drop, length-replicate, get_elem?, set, if◌then◌else◌, ◌==◌, leb,
  Bool-cases, inl, inr,
}
use ityfuzz.Concolic.Expr.{ConcolicOp, Expr, is_concrete, unary, lnot}
use ityfuzz.Concolic.Memory.{limb0, insert_256, get_256}
use ityfuzz.Concolic.Memory.Writes.{length-set}
use ityfuzz.Concolic.Host.{
  push_slice, attempt, assume_path, popped, kept, need_solve, Result, run_arm, run_jumpi,
  run_calldataload, run_swap, push_all, solve_once, path_constraint,
}
use ityfuzz.Concolic.Host.State.{Stack, Interp, ConcolicHost, stack_bv, get_input_slice_from_ctx}
use ityfuzz.Concolic.Host.Opcodes.{
  Arm, op2, shift, on_result, iszero, bitnot, concrete_eval, env, calldataload, mload, mstore,
  mstore8, sload, sstore, jumpi, unsupported, dup, swap, call,
}

abbrev no_value : Option Expr
no_value = none

-- How many values an arm takes off the symbolic stack, and how many it puts.
abbrev pub arm_effect : Arm → ℕ × ℕ
arm_effect (op2 op) = (2, 1)
arm_effect (shift op) = (2, 1)
arm_effect (on_result op) = (3, 1)
arm_effect iszero = (1, 1)
arm_effect bitnot = (1, 1)
arm_effect (concrete_eval n m) = (n, m)
arm_effect (env op) = (0, 1)
arm_effect calldataload = (1, 1)
arm_effect mload = (1, 1)
arm_effect mstore = (2, 0)
arm_effect mstore8 = (2, 0)
arm_effect sload = (1, 1)
arm_effect sstore = (2, 0)
arm_effect jumpi = (2, 0)
arm_effect unsupported = (0, 0)
arm_effect (dup k) = (suc k, k + 2)
arm_effect (swap k) = (suc k, suc k)
arm_effect (call n) = (n, 1)

abbrev pub is_call : Arm → Bool
is_call (call n) = true
is_call _ = false

-- The symbolic stack of the running frame after an arm: a call has put it away.
abbrev pub frame_stack : Arm → ConcolicHost → Stack
frame_stack a host =
    if is_call a
    then elim host.ctxs [ [] ↦ [] | ctx ∷ rest ↦ ctx.symbolic_stack ]
    else host.symbolic_stack

abbrev pub branches : Arm → Bool
branches jumpi = true
branches _ = false

-- The constraints, the sets that were solved, and the record of them
abbrev pub log_of : ConcolicHost → List Expr × List (List Expr) × List (List ℕ)
log_of host = (host.constraints, host.solving, host.already_solved)

-- The effect of an arm on the stack of a frame that it does not leave; an arm that does not
-- branch leaves the constraints alone.
abbrev pub Stays : ℕ × ℕ → Bool → ConcolicHost → Result → Type 0
Stays (takes, puts) branch host (values, host') =
    (length host'.symbolic_stack + length values + takes ≡ length host.symbolic_stack + puts)
    × (host'.ctxs ≡ host.ctxs)
    × (host'.call_depth ≡ host.call_depth)
    × (branch ≡ false → log_of host' ≡ log_of host)

jumpi-host :
    (debug : ConcolicOp → List ℕ) (wanted concrete : Bool) (real intended : Expr)
    (host : ConcolicHost)
    → 2 ≤ length host.symbolic_stack
    → Stays
        (2, 0)
        true
        host
        ([], popped 2 (assume_path concrete real (attempt debug wanted intended host)))
unfolding attempt assume_path solve_once
jumpi-host debug wanted concrete real intended host le =
    ground (arith, length-drop 2 host.symbolic_stack)

push_slice_lem :
    (idx : ℕ) (host host' : ConcolicHost) (values : Stack)
    → push_slice idx host ≡ some (values, host')
    → (length values ≡ 1) × (host' ≡ host)
unfolding push_slice
push_slice_lem idx host host' values h =
    let (bytes, e, h1) = >>=-eq-some (get_input_slice_from_ctx host idx 32) _ h in ground arith

module _ (debug : ConcolicOp → List ℕ) (interp : Interp) (host host' : ConcolicHost)
    (values : Stack) where
  jumpi-Stays :
      run_jumpi debug interp host ≡ some (values, host')
      → 2 ≤ length host.symbolic_stack
      → Stays (2, 0) true host (values, host')
  unfolding run_jumpi
  jumpi-Stays h le =
      let (cond, e, h1) = >>=-eq-some (get_elem? interp.stack 1) _ h in
      let (e1, q, h2) = >>=-eq-some (stack_bv interp host 1) _ h1 in
      let real = path_constraint (cond == 0) e1 in
      let (k, q', h3) = >>=-eq-some (is_concrete real) _ h2 in
      let done =
        jumpi-host debug (need_solve interp host && not k) k real (unary real lnot) host le in
      ground (arith, h3, done)

  calldataload-Stays :
      run_calldataload interp host ≡ some (values, host')
      → 1 ≤ length host.symbolic_stack
      → Stays (1, 1) false host (values, host')
  unfolding run_calldataload
  calldataload-Stays h le =
      let (offset, e, h1) = >>=-eq-some (get_elem? interp.stack 0) _ h in
      elim (Bool-cases (leb (length host.ctxs) 0)) [
        | inl outside ↦ ground (arith, length-drop 1 host.symbolic_stack)
        | inr inside ↦
            let (one, same) =
              push_slice_lem (limb0 offset) (popped 1 host) host' values (ground (arith, h1)) in
            ground (arith, length-drop 1 host.symbolic_stack, one, same)
      ]

  swap-Stays :
      (n : ℕ)
      → run_swap n interp host ≡ some (values, host')
      → Stays (suc n, suc n) false host (values, host')
  unfolding run_swap
  swap-Stays n h =
      let (a, e, h1) = >>=-eq-some (stack_bv interp host n) _ h in
      let (b, e', h2) = >>=-eq-some (stack_bv interp host 0) _ h1 in
      ground (
        arith,
        length-set host.symbolic_stack 0 (some a),
        length-set (set host.symbolic_stack 0 (some a)) n (some b),
      )

  pub run_arm-Stays :
      (a : Arm)
      → is_call a ≡ false
      → run_arm debug a interp host ≡ some (values, host')
      → (arm_effect a).0 ≤ length host.symbolic_stack
      → Stays (arm_effect a) (branches a) host (values, host')
  unfolding run_arm
  run_arm-Stays (op2 op) nc h le =
      let (x, e, h1) = >>=-eq-some (stack_bv interp host 0) _ h in
      let (y, e', h2) = >>=-eq-some (stack_bv interp host 1) _ h1 in
      ground (arith, length-drop 2 host.symbolic_stack)
  run_arm-Stays (shift op) nc h le =
      let (x, e, h1) = >>=-eq-some (stack_bv interp host 1) _ h in
      let (y, e', h2) = >>=-eq-some (stack_bv interp host 0) _ h1 in
      ground (arith, length-drop 2 host.symbolic_stack)
  run_arm-Stays (on_result op) nc h le =
      let (x, e, h1) = >>=-eq-some (stack_bv interp host 0) _ h in
      let (y, e', h2) = >>=-eq-some (stack_bv interp host 1) _ h1 in
      let (w, e'', h3) = >>=-eq-some (stack_bv interp host 2) _ h2 in
      ground (arith, length-drop 3 host.symbolic_stack)
  run_arm-Stays iszero nc h le =
      let (x, e, h1) = >>=-eq-some (stack_bv interp host 0) _ h in
      ground (arith, length-drop 1 host.symbolic_stack)
  run_arm-Stays bitnot nc h le =
      let (x, e, h1) = >>=-eq-some (stack_bv interp host 0) _ h in
      ground (arith, length-drop 1 host.symbolic_stack)
  run_arm-Stays (concrete_eval n m) nc h le =
      ground (arith, length-drop n host.symbolic_stack, length-replicate m no_value)
  run_arm-Stays (env op) nc h le = ground arith
  run_arm-Stays calldataload nc h le = calldataload-Stays h le
  run_arm-Stays mload nc h le =
      let (offset, e, h1) = >>=-eq-some (get_elem? interp.stack 0) _ h in
      let (x, e', h2) = >>=-eq-some (get_256 host.symbolic_memory offset) _ h1 in
      ground (arith, length-drop 1 host.symbolic_stack)
  run_arm-Stays mstore nc h le =
      let (offset, e, h1) = >>=-eq-some (get_elem? interp.stack 0) _ h in
      let (x, e', h2) = >>=-eq-some (stack_bv interp host 1) _ h1 in
      let (m, e'', h3) = >>=-eq-some (insert_256 host.symbolic_memory offset x) _ h2 in
      ground (arith, length-drop 2 host.symbolic_stack)
  run_arm-Stays mstore8 nc h le =
      let (offset, e, h1) = >>=-eq-some (get_elem? interp.stack 0) _ h in
      let (x, e', h2) = >>=-eq-some (stack_bv interp host 1) _ h1 in absurd (ground (arith, h2))
  run_arm-Stays sload nc h le =
      let (key, e, h1) = >>=-eq-some (get_elem? interp.stack 0) _ h in
      ground (arith, length-drop 1 host.symbolic_stack)
  run_arm-Stays sstore nc h le =
      let (key, e, h1) = >>=-eq-some (get_elem? interp.stack 1) _ h in
      let (x, e', h2) = >>=-eq-some (stack_bv interp host 0) _ h1 in
      ground (arith, length-drop 2 host.symbolic_stack)
  run_arm-Stays jumpi nc h le = jumpi-Stays h le
  run_arm-Stays unsupported nc h le = cc
  run_arm-Stays (dup n) nc h le =
      let (x, e, h1) = >>=-eq-some (stack_bv interp host n) _ h in ground arith
  run_arm-Stays (swap n) nc h le = swap-Stays n h
  run_arm-Stays (call n) nc h le = cc

-- The loop at the end of the step
pub push_all-Stays :
    (values : Stack) (host host' : ConcolicHost)
    → push_all values host ≡ some host'
    → (length host'.symbolic_stack ≡ length host.symbolic_stack + length values)
      × (host'.ctxs ≡ host.ctxs)
      × (host'.call_depth ≡ host.call_depth)
      × (log_of host' ≡ log_of host)
unfolding push_all
push_all-Stays [] host host' h = ground arith
push_all-Stays (v ∷ values) host host' h =
    let (e, q, h1) = >>=-eq-some (kept v) _ h in
    let (len, cs, d, log) =
      push_all-Stays values (record host { symbolic_stack = e ∷ host.symbolic_stack }) host' h1 in
    (omega (arith, len), cs, d, log)
