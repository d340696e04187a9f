-- ===== src/Concolic/Host/Agreement.antt =====
-- That the symbolic stack stands for the interpreter's: what each expression translates to, read
-- at the input of the run, is the word on the concrete stack.
pub mod Words
pub mod Model
pub mod Stacks
pub mod Instructions
use ityfuzz.Prelude.{
  ℕ, zero, suc, ◌+◌, ◌<◌, ◌^◌, ◌≡◌, refl, sym, ap, ◌∙◌, Bool, true, false, Option, none, some, List,
  [], ◌∷◌, ◌++◌, arith, length, drop, set, get_elem?, All, >>=-eq-some, ◌>>=◌, replicate,
  Option-cases, Bool-cases, ◌⊎◌, inl, inr,
}
use std.Path.{subst}
use ityfuzz.Concolic.Expr.{
  ConcolicOp, evmu256, add, mul, sub, div, sdiv, smod, urem, and, or, xor, not, shl, shr, sar, eq,
  lt, gt, slt, sgt, Expr, leaf, unary, binary, is_concrete,
}
use ityfuzz.Concolic.Solving.{
  Z3, Solving, SymbolicTy, bv, bool, Value, binop, comparisons1, comparisons2, negated, value,
  arm_value, generate_z3_bv, bv_from_u256, returned,
}
use ityfuzz.Concolic.Host.{on_step, popped, pushing, run_arm, push_all, kept, run_swap}
use ityfuzz.Concolic.Host.State.{Stack, Interp, ConcolicHost, stack_bv}
use ityfuzz.Concolic.Host.Opcodes.{
  Arm, op2, shift, iszero, bitnot, concrete_eval, dup, swap, arm_of,
}
use ityfuzz.Concolic.Host.Effects.{full_arm}
use ityfuzz.Concolic.Host.Agreement.Words.{IsWord, exact, evm_result, IsModel}
use ityfuzz.Concolic.Host.Agreement.Model.{Denotes, op-Denotes, constant-Denotes}
use ityfuzz.Concolic.Host.Agreement.Instructions.{
  Executes, ex_op2, ex_shift, ex_iszero, ex_concrete, ex_dup, ex_swap, EvmStep, EvmStep-Executes,
}
use ityfuzz.Concolic.Host.Agreement.Stacks.{
  Agrees, stack_bv-Denotes, Agrees-drop, Agrees-set, Agrees-concrete, push_one, push_nones,
}

module _ {Bv Bo : Type 0} (z : Z3 Bv Bo) (self : Solving Bv) (model : IsModel z) where
  module _ (debug : ConcolicOp → List ℕ) (interp : Interp) (host host' : ConcolicHost)
      (agrees : Agrees z self model host.symbolic_stack interp.stack)
      (small : All IsWord interp.stack) where
    -- The `n`-th operand, where it is on the stack
    operand :
        (n v : ℕ) (e : Expr)
        → stack_bv interp host n ≡ some e
        → get_elem? interp.stack n ≡ some v
        → Denotes z self model e v
    operand n v e h at = stack_bv-Denotes z self model interp host n v e agrees small h at

    below :
        (n : ℕ) (words : List ℕ)
        → drop n interp.stack ≡ words
        → Agrees z self model (drop n host.symbolic_stack) words
    below n words e =
        subst (λ ws. Agrees z self model (drop n host.symbolic_stack) ws) e
          (Agrees-drop z self model host.symbolic_stack interp.stack n agrees)

    -- A result is pushed where `n` operands stood.
    one_pushed :
        (n v : ℕ) (e : Expr) (values : Stack) (host1 : ConcolicHost) (words : List ℕ)
        → pushing e (popped n host) ≡ some (values, host1)
        → push_all values host1 ≡ some host'
        → Denotes z self model e v
        → drop n interp.stack ≡ words
        → Agrees z self model host'.symbolic_stack (v ∷ words)
    one_pushed n v e values host1 words p h d rest =
        push_one z self model e v (popped n host) host' words (ground (arith, p, h)) d
          (below n words rest)

    two_operands :
        (op : ConcolicOp) (i j x y : ℕ) (values : Stack) (host1 : ConcolicHost) (words : List ℕ)
        → exact op ≡ true
        → get_elem? interp.stack i ≡ some x
        → get_elem? interp.stack j ≡ some y
        → drop 2 interp.stack ≡ words
        → (stack_bv interp host i >>= λ a.
            stack_bv interp host j >>= λ b. pushing (binary a b op) (popped 2 host))
          ≡ some (values, host1)
        → push_all values host1 ≡ some host'
        → Agrees z self model host'.symbolic_stack (evm_result op x y ∷ words)
    two_operands op i j x y values host1 words ex at at' rest h h' =
        let (a, q, h1) = >>=-eq-some (stack_bv interp host i) _ h in
        let (b, q', h2) = >>=-eq-some (stack_bv interp host j) _ h1 in
        one_pushed 2 (evm_result op x y) (binary a b op) values host1 words h2 h'
          (op-Denotes z self model op a b x y ex (operand i x a q at) (operand j y b q' at')) rest

    run_arm-Agrees :
        (a : Arm) (before after : List ℕ) (values : Stack) (host1 : ConcolicHost)
        → interp.stack ≡ before
        → Executes a before after
        → run_arm debug a interp host ≡ some (values, host1)
        → push_all values host1 ≡ some host'
        → Agrees z self model host'.symbolic_stack after
    unfolding run_arm run_swap push_all
    run_arm-Agrees _ _ _ values host1 st (ex_op2 op a b words ex) h h' =
        two_operands op 0 1 a b values host1 words ex (ground (arith, st)) (ground (arith, st))
          (ground (arith, st)) h h'
    run_arm-Agrees _ _ _ values host1 st (ex_shift op a b words ex) h h' =
        two_operands op 1 0 b a values host1 words ex (ground (arith, st)) (ground (arith, st))
          (ground (arith, st)) h h'
    run_arm-Agrees _ _ _ values host1 st (ex_iszero a words) h h' =
        let (e, q, h1) = >>=-eq-some (stack_bv interp host 0) _ h in
        let denotes =
          op-Denotes z self model eq e (leaf (evmu256 0)) a 0 refl
            (operand 0 a e q (ground (arith, st)))
            (constant-Denotes z self model 0 (omega arith)) in
        one_pushed 1 (evm_result eq a 0) (binary e (leaf (evmu256 0)) eq) values host1 words h1 h'
          denotes (ground (arith, st))
    run_arm-Agrees _ _ _ values host1 st (ex_concrete n m vs words e) h h' =
        let pushed : push_all (replicate m none) (popped n host) ≡ some host' =
          ground (arith, h, h') in
        subst (λ (stack : Stack). Agrees z self model stack (vs ++ drop n words))
          (sym (push_nones z self model m (popped n host) host' pushed))
          (Agrees-concrete z self model m vs (drop n host.symbolic_stack) (drop n words) e
            (below n (drop n words) (ap (drop n) st)))
    run_arm-Agrees _ _ _ values host1 st (ex_dup n v words e) h h' =
        let (x, q, h1) = >>=-eq-some (stack_bv interp host n) _ h in
        one_pushed 0 v x values host1 words h1 h' (operand n v x q (ground (arith, st, e))) st
    run_arm-Agrees _ _ _ values host1 st (ex_swap n v w words e e') h h' =
        let (x, q, h1) = >>=-eq-some (stack_bv interp host n) _ h in
        let (y, q', h2) = >>=-eq-some (stack_bv interp host 0) _ h1 in
        let same : set (set host.symbolic_stack 0 (some x)) n (some y) ≡ host'.symbolic_stack =
          ground (arith, h2, h') in
        let first =
          Agrees-set z self model host.symbolic_stack interp.stack 0 v x agrees
            (operand n v x q (ground (arith, st, e))) in
        let both =
          Agrees-set z self model (set host.symbolic_stack 0 (some x)) (set interp.stack 0 v) n w y
            first (operand 0 w y q' (ground (arith, st, e'))) in
        subst (λ (stack : Stack). Agrees z self model stack (set (set words 0 v) n w)) same
          (subst
            (λ ws.
              Agrees z self model (set (set host.symbolic_stack 0 (some x)) n (some y))
                (set (set ws 0 v) n w))
            st both)

  -- A step keeps the symbolic stack in agreement with the interpreter's, at ADD, MUL and SUB, the
  -- comparisons, ISZERO, AND, OR and XOR, the shifts, DUP, SWAP, and the instructions that touch the
  -- stack alone with results that are not followed: where each symbolic value that translates stood
  -- for the word on the concrete stack, as a term of 256 bits or a truth value, it does so after the
  -- step. Z3's terms follow the laws of `IsModel`.
  pub on_step-Agrees :
      (debug : ConcolicOp → List ℕ) (interp : Interp) (host host' : ConcolicHost) (after : List ℕ)
      → Agrees z self model host.symbolic_stack interp.stack
      → All IsWord interp.stack
      → EvmStep interp.opcode interp.stack after
      → on_step debug interp host ≡ some host'
      → Agrees z self model host'.symbolic_stack after
  unfolding on_step
  on_step-Agrees debug interp host host' after agrees small ex h =
      let ((values, host1), q, h1) =
        >>=-eq-some (run_arm debug (arm_of interp.opcode) interp host) _ h in
      run_arm-Agrees debug interp host host' agrees small (arm_of interp.opcode) interp.stack after
        values host1 refl (EvmStep-Executes interp.opcode interp.stack after ex) q h1
