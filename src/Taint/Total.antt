-- ===== src/Taint/Total.antt =====
-- Steps at which the analysis does not panic.
use ityfuzz.Prelude.{
  up_to, up_to-lookup, not, ◌&&◌, ap, ℕ, zero, suc, ◌≤◌, ◌<◌, ◌≡◌, refl, Bool, true, false, ◌||◌,
  Option, some, List, [], ◌∷◌, arith, ltb, length, get_elem?, set, ◌>>=◌, Bool-cases, inl, inr,
  ==_iff, insert, nat_eq,
}
use ityfuzz.Taint.{
  Interp, Sha3TaintAnalysis, max_call_depth, run_arm, on_step, stack_pop_n, pop_or, swap_top,
  pop_any, top, run_sload, run_sstore, run_jumpi, with_stack,
}
use ityfuzz.Taint.Opcodes.{
  Arm, nothing, pop_push, sha3, push_false, calldataload, setup_mem, pop_push_false, pop, mload,
  mstore, mstore8, sload, sstore, jumpi, dup, swap, pop_n, call, unknown, arm, within,
}
use ityfuzz.Taint.Table.{arm_effect, evm_effect}
use ityfuzz.Taint.Calls.{is_followed, arm_effect-arm}

-- The arms that read neither the memory nor the input of the call, and put no frame away.
abbrev pub is_plain : Arm → Bool
is_plain nothing = true
is_plain sha3 = true
is_plain push_false = true
is_plain pop = true
is_plain sload = true
is_plain sstore = true
is_plain jumpi = true
is_plain (pop_push n) = true
is_plain (pop_push_false n) = true
is_plain (pop_n n) = true
is_plain (dup k) = true
is_plain (swap k) = true
is_plain _ = false

abbrev Defined : {A : Type 0} → Option A → Type 0
Defined {A} m = (a : A) × (m ≡ some a)

get_elem?-Defined : {A : Type 0} (xs : List A) (i : ℕ) → i < length xs → Defined (get_elem? xs i)
get_elem?-Defined [] i h = absurd (omega arith)
get_elem?-Defined (x ∷ xs) zero h = (x, refl)
get_elem?-Defined (x ∷ xs) (suc i) h = get_elem?-Defined xs i (omega arith)

stack_pop_n-Defined : (n : ℕ) (xs : List Bool) → n ≤ length xs → Defined (stack_pop_n n xs)
unfolding stack_pop_n
stack_pop_n-Defined zero xs h = (xs, refl)
stack_pop_n-Defined (suc n) [] h = absurd (omega arith)
stack_pop_n-Defined (suc n) (x ∷ xs) h = stack_pop_n-Defined n xs (omega arith)

pop_or-Defined : (n : ℕ) (b : Bool) (xs : List Bool) → n ≤ length xs → Defined (pop_or n b xs)
unfolding pop_or
pop_or-Defined zero b xs h = ((b, xs), refl)
pop_or-Defined (suc n) b [] h = absurd (omega arith)
pop_or-Defined (suc n) b (x ∷ xs) h = pop_or-Defined n (b || x) xs (omega arith)

top-pop_any-Defined : (xs : List Bool) → 2 ≤ length xs → Defined (top (pop_any xs))
top-pop_any-Defined [] h = absurd (omega arith)
top-pop_any-Defined (x ∷ []) h = absurd (omega arith)
top-pop_any-Defined (x ∷ y ∷ xs) h = ((y, xs), refl)

>>=-Defined :
    {A B : Type 0} (m : Option A) (f : A → B) → Defined m → Defined (m >>= λ a. some (f a))
>>=-Defined m f (a, e) = (f a, rw e refl)

run_arm-Defined :
    (a : Arm) (interp : Interp) (t : Sha3TaintAnalysis)
    → is_plain a ≡ true
    → length interp.stack ≡ length t.dirty_stack
    → (arm_effect a).0 ≤ length t.dirty_stack
    → Defined (run_arm a interp t)
unfolding run_arm run_sload run_sstore run_jumpi swap_top
run_arm-Defined nothing interp t p l le = (t, refl)
run_arm-Defined sha3 interp t p l le =
    >>=-Defined (stack_pop_n 2 t.dirty_stack) _ (stack_pop_n-Defined 2 t.dirty_stack le)
run_arm-Defined push_false interp t p l le = (with_stack t (false ∷ t.dirty_stack), refl)
run_arm-Defined pop interp t p l le = (with_stack t (pop_any t.dirty_stack), refl)
run_arm-Defined sload interp t p l le =
    >>=-Defined (get_elem? interp.stack 0) _ (get_elem?-Defined interp.stack 0 (omega arith))
run_arm-Defined sstore interp t p l le =
    let (popped, e) = top-pop_any-Defined t.dirty_stack le in
    let (key, e') = get_elem?-Defined interp.stack 0 (omega arith) in
    (
      record t { dirty_stack = popped.1; dirty_storage = insert key popped.0 t.dirty_storage },
      rw (e, e') refl,
    )
run_arm-Defined jumpi interp t p l le =
    >>=-Defined (top (pop_any t.dirty_stack)) _ (top-pop_any-Defined t.dirty_stack le)
run_arm-Defined (pop_push n) interp t p l le =
    >>=-Defined (pop_or n false t.dirty_stack) _ (pop_or-Defined n false t.dirty_stack le)
run_arm-Defined (pop_push_false n) interp t p l le =
    >>=-Defined (stack_pop_n n t.dirty_stack) _ (stack_pop_n-Defined n t.dirty_stack le)
run_arm-Defined (pop_n n) interp t p l le =
    >>=-Defined (stack_pop_n n t.dirty_stack) _ (stack_pop_n-Defined n t.dirty_stack le)
run_arm-Defined (dup k) interp t p l le =
    >>=-Defined (get_elem? t.dirty_stack k) _ (get_elem?-Defined t.dirty_stack k (omega arith))
run_arm-Defined (swap k) interp t p l le =
    let (first, e) = get_elem?-Defined t.dirty_stack 0 (omega arith) in
    let (other, e') = get_elem?-Defined t.dirty_stack k (omega arith) in
    (with_stack t (set (set t.dirty_stack 0 other) k first), rw (e, e') refl)
run_arm-Defined calldataload interp t p l le = cc
run_arm-Defined setup_mem interp t p l le = cc
run_arm-Defined mload interp t p l le = cc
run_arm-Defined mstore interp t p l le = cc
run_arm-Defined mstore8 interp t p l le = cc
run_arm-Defined (call n) interp t p l le = cc
run_arm-Defined unknown interp t p l le = cc

-- The opcodes of the EVM that touch the stack or the storage only: not CALLDATALOAD and the copies
-- to memory, BLOCKHASH, the loads and stores of memory, CREATE, the calls, REVERT and SELFDESTRUCT.
abbrev stack_opcodes : List (ℕ × ℕ)
stack_opcodes =
    (0x00, 0x0b)
    ∷ (0x10, 0x1d)
    ∷ (0x20, 0x20)
    ∷ (0x30, 0x34)
    ∷ (0x36, 0x36)
    ∷ (0x38, 0x38)
    ∷ (0x3a, 0x3b)
    ∷ (0x3d, 0x3d)
    ∷ (0x3f, 0x3f)
    ∷ (0x41, 0x48)
    ∷ (0x50, 0x50)
    ∷ (0x54, 0x5b)
    ∷ (0x5f, 0x9f)
    ∷ (0xa0, 0xa4)
    ∷ (0xf3, 0xf3)
    ∷ (0xfe, 0xfe)
    ∷ []

abbrev in_ranges : ℕ → List (ℕ × ℕ) → Bool
in_ranges op [] = false
in_ranges op ((low, high) ∷ rows) = within low op high || in_ranges op rows

unfoldable pub is_stack_opcode : ℕ → Bool
is_stack_opcode op = in_ranges op stack_opcodes

both_true : (a b c : Bool) → (not a || (b && c)) ≡ true → a ≡ true → (b ≡ true) × (c ≡ true)
both_true true true true h k = (refl, refl)
both_true true true false h k = cc
both_true true false c h k = cc
both_true false b c h k = cc

plain_test : ℕ → Bool
unfolding is_stack_opcode arm
plain_test op = not (is_stack_opcode op) || (is_plain (arm op) && is_followed op)

plain_tests : up_to plain_test 256 ≡ true
unfolding up_to plain_test is_stack_opcode arm
plain_tests = refl

arm-IsPlain :
    (op : ℕ)
    → op < 256
    → is_stack_opcode op ≡ true
    → (is_plain (arm op) ≡ true) × (is_followed op ≡ true)
unfolding plain_test
arm-IsPlain op lt h =
    both_true (is_stack_opcode op) (is_plain (arm op)) (is_followed op)
      (up_to-lookup plain_test 256 op plain_tests lt) h

pub on_step-total :
    (interp : Interp) (t : Sha3TaintAnalysis) (takes puts : ℕ)
    → interp.opcode < 256
    → is_stack_opcode interp.opcode ≡ true
    → evm_effect interp.opcode ≡ some (takes, puts)
    → length interp.stack ≡ length t.dirty_stack
    → takes ≤ length interp.stack
    → (t' : Sha3TaintAnalysis) × (on_step interp t ≡ some t')
unfolding on_step
on_step-total interp t takes puts lt s effect l le =
    let (p, f) = arm-IsPlain interp.opcode lt s in
    let q : arm_effect (arm interp.opcode) ≡ (takes, puts) =
      arm_effect-arm interp.opcode (takes, puts) lt f effect in
    let taken : (arm_effect (arm interp.opcode)).0 ≡ takes = ap (λ p. p.0) q in
    let (t', e) = run_arm-Defined (arm interp.opcode) interp t p l (omega arith) in
    elim (Bool-cases (ltb max_call_depth interp.call_depth)) [
      | inl deep ↦ (t, rw deep refl)
      | inr near ↦ (t', rw near (rw ((==_iff (length interp.stack) (length t.dirty_stack)).1 l) e))
    ]
