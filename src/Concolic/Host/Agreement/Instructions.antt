-- ===== src/Concolic/Host/Agreement/Instructions.antt =====
-- What the EVM's instructions make of the stack, by their opcodes, and by the arms of `on_step` in
-- src/evm/concolic/concolic_host.rs.
use ityfuzz.Prelude.{
  ℕ, ◌+◌, ◌<◌, ◌≡◌, refl, sym, ap, Bool, true, false, not, ◌&&◌, ◌||◌, Option, some, List, ◌∷◌,
  ◌++◌, arith, length, drop, set, get_elem?, up_to, up_to-lookup, ◌==◌,
}
use std.Path.{subst}
use ityfuzz.Concolic.Expr.{
  ConcolicOp, add, mul, sub, and, or, xor, shl, shr, sar, eq, lt, gt, slt, sgt,
}
use ityfuzz.Concolic.Host.Opcodes.{
  Arm, op2, shift, iszero, concrete_eval, dup, swap, arm_of, find_arm, within,
}
use ityfuzz.Concolic.Host.Agreement.Words.{exact, evm_result}
use ityfuzz.Taint.Table.{evm_effect, look_up}

-- The other opcodes that touch the stack alone: EXP and SIGNEXTEND, BYTE, SHA3, what is read of the
-- environment but for the caller, the origin, the value and the input, POP, JUMP, PC to JUMPDEST,
-- and PUSH.
abbrev is_unfollowed : ℕ → Bool
is_unfollowed op =
    (within 0x0a op 0x0b || (op == 0x1a || op == 0x20))
    || ((within 0x30 op 0x31 || (op == 0x36 || op == 0x38)) || (within 0x3a op 0x3b || op == 0x3d))
    || (within 0x3f op 0x48 || (op == 0x50 || op == 0x56))
    || (within 0x58 op 0x5b || within 0x5f op 0x7f)

abbrev evaluates : Arm → Option (ℕ × ℕ) → Bool
evaluates (concrete_eval n m) (some (takes, puts)) = n == takes && m == puts
evaluates _ _ = false

unfollowed_test : ℕ → Bool
unfolding arm_of find_arm evm_effect look_up
unfollowed_test op = not (is_unfollowed op) || evaluates (arm_of op) (evm_effect op)

unfollowed_tests : up_to unfollowed_test 256 ≡ true
unfolding up_to unfollowed_test arm_of find_arm evm_effect look_up
unfollowed_tests = refl

either_holds : (a b : Bool) → (not a || b) ≡ true → a ≡ true → b ≡ true
either_holds true true h k = refl
either_holds true false h k = cc
either_holds false b h k = cc

evaluates-eq :
    (a : Arm) (takes puts : ℕ)
    → evaluates a (some (takes, puts)) ≡ true
    → a ≡ concrete_eval takes puts
evaluates-eq (concrete_eval n m) takes puts h =
    let e : n ≡ takes = ground (arith, h) in let f : m ≡ puts = ground (arith, h) in rw (e, f) refl
evaluates-eq a takes puts h = absurd (ground (arith, h))

arm_of-unfollowed :
    (op takes puts : ℕ)
    → op < 256
    → is_unfollowed op ≡ true
    → evm_effect op ≡ some (takes, puts)
    → arm_of op ≡ concrete_eval takes puts
unfolding unfollowed_test
arm_of-unfollowed op takes puts bound u e = evaluates-eq (arm_of op) takes puts (
    subst (λ x. evaluates (arm_of op) x ≡ true) e
      (either_holds (is_unfollowed op) _
        (up_to-lookup unfollowed_test 256 op unfollowed_tests bound) u))

abbrev is_dup : Arm → ℕ → Bool
is_dup (dup m) n = m == n
is_dup _ _ = false

abbrev is_swap : Arm → ℕ → Bool
is_swap (swap m) n = m == n
is_swap _ _ = false

is_dup-eq : (a : Arm) (n : ℕ) → is_dup a n ≡ true → a ≡ dup n
is_dup-eq (dup m) n h = ap dup (ground (arith, h))
is_dup-eq a n h = absurd (ground (arith, h))

is_swap-eq : (a : Arm) (n : ℕ) → is_swap a n ≡ true → a ≡ swap n
is_swap-eq (swap m) n h = ap swap (ground (arith, h))
is_swap-eq a n h = absurd (ground (arith, h))

dup_test : ℕ → Bool
unfolding arm_of find_arm
dup_test n = is_dup (arm_of (0x80 + n)) n

swap_test : ℕ → Bool
unfolding arm_of find_arm
swap_test n = is_swap (arm_of (0x90 + n)) (n + 1)

dup_tests : up_to dup_test 16 ≡ true
unfolding up_to dup_test arm_of find_arm
dup_tests = refl

swap_tests : up_to swap_test 16 ≡ true
unfolding up_to swap_test arm_of find_arm
swap_tests = refl

arm_of-dup : (n : ℕ) → n < 16 → arm_of (0x80 + n) ≡ dup n
unfolding dup_test
arm_of-dup n h = is_dup-eq (arm_of (0x80 + n)) n (up_to-lookup dup_test 16 n dup_tests h)

arm_of-swap : (n : ℕ) → n < 16 → arm_of (0x90 + n) ≡ swap (n + 1)
unfolding swap_test
arm_of-swap n h = is_swap-eq (arm_of (0x90 + n)) (n + 1) (up_to-lookup swap_test 16 n swap_tests h)

-- What an arm that touches the stack alone makes of it, if it is the instruction's; the
-- results that the analysis does not follow are any words.
pub data Executes : Arm → List ℕ → List ℕ → Type 0 where
  ex_op2 :
      (op : ConcolicOp) (a b : ℕ) (words : List ℕ)
      → exact op ≡ true
      → Executes (op2 op) (a ∷ b ∷ words) (evm_result op a b ∷ words)
  ex_shift :
      (op : ConcolicOp) (a b : ℕ) (words : List ℕ)
      → exact op ≡ true
      → Executes (shift op) (a ∷ b ∷ words) (evm_result op b a ∷ words)
  ex_iszero : (a : ℕ) (words : List ℕ) → Executes iszero (a ∷ words) (evm_result eq a 0 ∷ words)
  ex_concrete :
      (n m : ℕ) (vs words : List ℕ)
      → length vs ≡ m
      → Executes (concrete_eval n m) words (vs ++ drop n words)
  ex_dup :
      (n v : ℕ) (words : List ℕ) → get_elem? words n ≡ some v → Executes (dup n) words (v ∷ words)
  ex_swap :
      (n v w : ℕ) (words : List ℕ)
      → get_elem? words n ≡ some v
      → get_elem? words 0 ≡ some w
      → Executes (swap n) words (set (set words 0 v) n w)

-- What the EVM's instruction makes of the stack; the results that are not followed are any words.
pub data EvmStep : ℕ → List ℕ → List ℕ → Type 0 where
  evm_add : (a b : ℕ) (words : List ℕ) → EvmStep 0x01 (a ∷ b ∷ words) (evm_result add a b ∷ words)
  evm_mul : (a b : ℕ) (words : List ℕ) → EvmStep 0x02 (a ∷ b ∷ words) (evm_result mul a b ∷ words)
  evm_sub : (a b : ℕ) (words : List ℕ) → EvmStep 0x03 (a ∷ b ∷ words) (evm_result sub a b ∷ words)
  evm_lt : (a b : ℕ) (words : List ℕ) → EvmStep 0x10 (a ∷ b ∷ words) (evm_result lt a b ∷ words)
  evm_gt : (a b : ℕ) (words : List ℕ) → EvmStep 0x11 (a ∷ b ∷ words) (evm_result gt a b ∷ words)
  evm_slt : (a b : ℕ) (words : List ℕ) → EvmStep 0x12 (a ∷ b ∷ words) (evm_result slt a b ∷ words)
  evm_sgt : (a b : ℕ) (words : List ℕ) → EvmStep 0x13 (a ∷ b ∷ words) (evm_result sgt a b ∷ words)
  evm_eq : (a b : ℕ) (words : List ℕ) → EvmStep 0x14 (a ∷ b ∷ words) (evm_result eq a b ∷ words)
  evm_and : (a b : ℕ) (words : List ℕ) → EvmStep 0x16 (a ∷ b ∷ words) (evm_result and a b ∷ words)
  evm_or : (a b : ℕ) (words : List ℕ) → EvmStep 0x17 (a ∷ b ∷ words) (evm_result or a b ∷ words)
  evm_xor : (a b : ℕ) (words : List ℕ) → EvmStep 0x18 (a ∷ b ∷ words) (evm_result xor a b ∷ words)
  evm_shl : (a b : ℕ) (words : List ℕ) → EvmStep 0x1b (a ∷ b ∷ words) (evm_result shl b a ∷ words)
  evm_shr : (a b : ℕ) (words : List ℕ) → EvmStep 0x1c (a ∷ b ∷ words) (evm_result shr b a ∷ words)
  evm_sar : (a b : ℕ) (words : List ℕ) → EvmStep 0x1d (a ∷ b ∷ words) (evm_result sar b a ∷ words)
  evm_iszero : (a : ℕ) (words : List ℕ) → EvmStep 0x15 (a ∷ words) (evm_result eq a 0 ∷ words)
  evm_unfollowed :
      (opcode takes puts : ℕ) (vs words : List ℕ)
      → opcode < 256
      → is_unfollowed opcode ≡ true
      → evm_effect opcode ≡ some (takes, puts)
      → length vs ≡ puts
      → EvmStep opcode words (vs ++ drop takes words)
  evm_dup :
      (n v : ℕ) (words : List ℕ)
      → n < 16
      → get_elem? words n ≡ some v
      → EvmStep (0x80 + n) words (v ∷ words)
  evm_swap :
      (n v w : ℕ) (words : List ℕ)
      → n < 16
      → get_elem? words (n + 1) ≡ some v
      → get_elem? words 0 ≡ some w
      → EvmStep (0x90 + n) words (set (set words 0 v) (n + 1) w)

pub EvmStep-Executes :
    (opcode : ℕ) (before after : List ℕ)
    → EvmStep opcode before after
    → Executes (arm_of opcode) before after
unfolding arm_of find_arm
EvmStep-Executes _ _ _ (evm_add a b words) = ex_op2 add a b words refl
EvmStep-Executes _ _ _ (evm_mul a b words) = ex_op2 mul a b words refl
EvmStep-Executes _ _ _ (evm_sub a b words) = ex_op2 sub a b words refl
EvmStep-Executes _ _ _ (evm_lt a b words) = ex_op2 lt a b words refl
EvmStep-Executes _ _ _ (evm_gt a b words) = ex_op2 gt a b words refl
EvmStep-Executes _ _ _ (evm_slt a b words) = ex_op2 slt a b words refl
EvmStep-Executes _ _ _ (evm_sgt a b words) = ex_op2 sgt a b words refl
EvmStep-Executes _ _ _ (evm_eq a b words) = ex_op2 eq a b words refl
EvmStep-Executes _ _ _ (evm_and a b words) = ex_op2 and a b words refl
EvmStep-Executes _ _ _ (evm_or a b words) = ex_op2 or a b words refl
EvmStep-Executes _ _ _ (evm_xor a b words) = ex_op2 xor a b words refl
EvmStep-Executes _ _ _ (evm_shl a b words) = ex_shift shl a b words refl
EvmStep-Executes _ _ _ (evm_shr a b words) = ex_shift shr a b words refl
EvmStep-Executes _ _ _ (evm_sar a b words) = ex_shift sar a b words refl
EvmStep-Executes _ _ _ (evm_iszero a words) = ex_iszero a words
EvmStep-Executes _ _ _ (evm_unfollowed op takes puts vs words bound u e l) =
    subst (λ a. Executes a words (vs ++ drop takes words))
      (sym (arm_of-unfollowed op takes puts bound u e)) (ex_concrete takes puts vs words l)
EvmStep-Executes _ _ _ (evm_dup n v words h e) =
    subst (λ a. Executes a words (v ∷ words)) (sym (arm_of-dup n h)) (ex_dup n v words e)
EvmStep-Executes _ _ _ (evm_swap n v w words h e e') =
    subst (λ a. Executes a words (set (set words 0 v) (n + 1) w)) (sym (arm_of-swap n h))
      (ex_swap (n + 1) v w words e e')
