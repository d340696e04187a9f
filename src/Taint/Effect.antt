-- ===== src/Taint/Effect.antt =====
-- The stack discipline of the arms: each moves as many values as its effect says.
use ityfuzz.Prelude.{
  ℕ, zero, suc, ◌+◌, ◌≤◌, ◌≡◌, refl, Bool, false, ◌||◌, some, List, [], ◌∷◌, arith, >>=-eq-some,
  wrapping_add, length, get_elem?, set, ap,
}
use ityfuzz.Taint.{
  Interp, Sha3TaintAnalysis, run_arm, stack_pop_n, pop_or, swap_top, pop_any, as_u64, arg_places,
  slice, ensure_size, fill_range, read_range, run_setup_mem, run_mload, run_mstore, run_sload,
  run_sstore, run_jumpi, push_ctx, load_input, with_stack, top,
}
use ityfuzz.Taint.Opcodes.{
  Arm, nothing, pop_push, sha3, push_false, calldataload, setup_mem, pop_push_false, pop, mload,
  mstore, mstore8, sload, sstore, jumpi, dup, swap, pop_n, call, unknown,
}
use ityfuzz.Taint.Table.{arm_effect, frame_stack}

pub length-stack_pop_n :
    (n : ℕ) (xs ys : List Bool) → stack_pop_n n xs ≡ some ys → length ys + n ≡ length xs
unfolding stack_pop_n
length-stack_pop_n zero xs ys h = ground arith
length-stack_pop_n (suc n) [] ys h = cc
length-stack_pop_n (suc n) (x ∷ xs) ys h = omega (arith, length-stack_pop_n n xs ys h)

pub length-pop_or :
    (n : ℕ) (res b : Bool) (xs ys : List Bool)
    → pop_or n res xs ≡ some (b, ys)
    → length ys + n ≡ length xs
unfolding pop_or
length-pop_or zero res b xs ys h = ground arith
length-pop_or (suc n) res b [] ys h = cc
length-pop_or (suc n) res b (x ∷ xs) ys h = omega (arith, length-pop_or n (res || x) b xs ys h)

pub length-pop_any : (xs : List Bool) → 1 ≤ length xs → length (pop_any xs) + 1 ≡ length xs
length-pop_any [] h = absurd (omega arith)
length-pop_any (x ∷ xs) h = omega arith

pub length-set : (xs : List Bool) (i : ℕ) (b : Bool) → length (set xs i b) ≡ length xs
length-set [] i b = refl
length-set (x ∷ xs) zero b = refl
length-set (x ∷ xs) (suc i) b = ap suc (length-set xs i b)

pub length-top : (xs ys : List Bool) (b : Bool) → top xs ≡ some (b, ys) → length ys + 1 ≡ length xs
length-top [] ys b h = cc
length-top (x ∷ xs) ys b h = ground arith

pub length-swap_top : (k : ℕ) (xs ys : List Bool) → swap_top k xs ≡ some ys → length ys ≡ length xs
unfolding swap_top
length-swap_top k xs ys h =
    let (first, e, h') = >>=-eq-some (get_elem? xs 0) _ h in
    let (other, e', h'') = >>=-eq-some (get_elem? xs k) _ h' in
    ground (arith, length-set (set xs 0 other) k first, length-set xs 0 other)

module _ (interp : Interp) (t t' : Sha3TaintAnalysis) where
  mload_effect :
      run_mload interp t ≡ some t'
      → 1 ≤ length t.dirty_stack
      → length t'.dirty_stack ≡ length t.dirty_stack
  unfolding run_mload
  mload_effect h ne =
      let (offset, e1, h1) = >>=-eq-some (get_elem? interp.stack 0) _ h in
      let (bytes, e2, h2) =
        >>=-eq-some
          (slice (ensure_size t.dirty_memory (wrapping_add (as_u64 offset) 32)) (as_u64 offset)
            (wrapping_add (as_u64 offset) 32))
          _ h1 in
      ground (arith, length-pop_any t.dirty_stack ne)

  pub setup_mem_effect :
      run_setup_mem interp t ≡ some t' → length t'.dirty_stack + 3 ≡ length t.dirty_stack
  unfolding run_setup_mem
  setup_mem_effect h =
      let (stack, e, h1) = >>=-eq-some (stack_pop_n 3 t.dirty_stack) _ h in
      let (offset, e1, h2) = >>=-eq-some (get_elem? interp.stack 0) _ h1 in
      let (len, e2, h3) = >>=-eq-some (get_elem? interp.stack 2) _ h2 in
      let (memory, e3, h4) =
        >>=-eq-some
          (fill_range (ensure_size t.dirty_memory (wrapping_add (as_u64 offset) (as_u64 len)))
            (as_u64 offset) (as_u64 len) false)
          _ h3 in
      ground (arith, length-stack_pop_n 3 t.dirty_stack stack e)

  mstore_effect :
      (bytes : ℕ)
      → run_mstore bytes interp t ≡ some t'
      → length t'.dirty_stack + 2 ≡ length t.dirty_stack
  unfolding run_mstore
  mstore_effect bytes h =
      let (stack, e, h1) = >>=-eq-some (stack_pop_n 1 t.dirty_stack) _ h in
      let (offset, e1, h2) = >>=-eq-some (get_elem? interp.stack 0) _ h1 in
      let (popped, e2, h3) = >>=-eq-some (top stack) _ h2 in
      let (memory, e3, h4) =
        >>=-eq-some
          (fill_range (ensure_size t.dirty_memory (wrapping_add (as_u64 offset) bytes))
            (as_u64 offset) bytes popped.0)
          _ h3 in
      ground
        (arith, length-stack_pop_n 1 t.dirty_stack stack e, length-top stack popped.1 popped.0 e2)

  sload_effect :
      run_sload interp t ≡ some t'
      → 1 ≤ length t.dirty_stack
      → length t'.dirty_stack ≡ length t.dirty_stack
  unfolding run_sload
  sload_effect h ne = ground (arith, length-pop_any t.dirty_stack ne)

  sstore_effect :
      run_sstore interp t ≡ some t'
      → 1 ≤ length t.dirty_stack
      → length t'.dirty_stack + 2 ≡ length t.dirty_stack
  unfolding run_sstore
  sstore_effect h ne =
      let (popped, e, h1) = >>=-eq-some (top (pop_any t.dirty_stack)) _ h in
      let (key, e1, h2) = >>=-eq-some (get_elem? interp.stack 0) _ h1 in
      ground (
        arith,
        length-pop_any t.dirty_stack ne,
        length-top (pop_any t.dirty_stack) popped.1 popped.0 e,
      )

  jumpi_effect :
      run_jumpi interp t ≡ some t'
      → 1 ≤ length t.dirty_stack
      → length t'.dirty_stack + 2 ≡ length t.dirty_stack
  unfolding run_jumpi
  jumpi_effect h ne =
      let (popped, e, h1) = >>=-eq-some (top (pop_any t.dirty_stack)) _ h in
      ground (
        arith,
        length-pop_any t.dirty_stack ne,
        length-top (pop_any t.dirty_stack) popped.1 popped.0 e,
      )

-- The frame that `push_ctx` puts away.
pub push_ctx_frame :
    (interp : Interp) (t t' : Sha3TaintAnalysis)
    → push_ctx interp t ≡ some t'
    → elim t'.ctxs [ [] ↦ [] | ctx ∷ rest ↦ ctx.dirty_stack ] ≡ t.dirty_stack
unfolding push_ctx
push_ctx_frame interp t t' h =
    let (places, e, h1) = >>=-eq-some (arg_places interp.opcode) _ h in
    let (offset, e1, h2) = >>=-eq-some (get_elem? interp.stack places.0) _ h1 in
    let (len, e2, h3) = >>=-eq-some (get_elem? interp.stack places.1) _ h2 in
    let (input, e3, h4) =
      >>=-eq-some (read_range t.dirty_memory (as_u64 offset) (as_u64 len)) _ h3 in
    ground arith

-- The arm moves as many values as its effect says.
unfoldable pub Moves : Arm → Sha3TaintAnalysis → Sha3TaintAnalysis → Type 0
Moves a t t' =
    length (frame_stack a t') + (arm_effect a).0 ≡ length t.dirty_stack + (arm_effect a).1

pub run_arm-Moves :
    (a : Arm) (interp : Interp) (t t' : Sha3TaintAnalysis)
    → run_arm a interp t ≡ some t'
    → (arm_effect a).0 ≤ length t.dirty_stack
    → Moves a t t'
unfolding run_arm Moves
run_arm-Moves nothing interp t t' h le = ground arith
run_arm-Moves sha3 interp t t' h le =
    let (stack, e, h1) = >>=-eq-some (stack_pop_n 2 t.dirty_stack) _ h in
    ground (arith, length-stack_pop_n 2 t.dirty_stack stack e)
run_arm-Moves push_false interp t t' h le = ground arith
run_arm-Moves calldataload interp t t' h le =
    let (input, e, h1) = >>=-eq-some (load_input interp t) _ h in
    ground (arith, length-pop_any t.dirty_stack le)
run_arm-Moves setup_mem interp t t' h le = omega (arith, setup_mem_effect interp t t' h)
run_arm-Moves pop interp t t' h le = ground (arith, length-pop_any t.dirty_stack le)
run_arm-Moves mload interp t t' h le = omega (arith, mload_effect interp t t' h le)
run_arm-Moves mstore interp t t' h le = omega (arith, mstore_effect interp t t' 32 h)
run_arm-Moves mstore8 interp t t' h le = omega (arith, mstore_effect interp t t' 1 h)
run_arm-Moves sload interp t t' h le = omega (arith, sload_effect interp t t' h le)
run_arm-Moves sstore interp t t' h le = omega (arith, sstore_effect interp t t' h (omega arith))
run_arm-Moves jumpi interp t t' h le = omega (arith, jumpi_effect interp t t' h (omega arith))
run_arm-Moves unknown interp t t' h le = cc
run_arm-Moves (pop_push n) interp t t' h le =
    let (popped, e, h1) = >>=-eq-some (pop_or n false t.dirty_stack) _ h in
    ground (arith, length-pop_or n false popped.0 t.dirty_stack popped.1 e)
run_arm-Moves (pop_push_false n) interp t t' h le =
    let (stack, e, h1) = >>=-eq-some (stack_pop_n n t.dirty_stack) _ h in
    ground (arith, length-stack_pop_n n t.dirty_stack stack e)
run_arm-Moves (pop_n n) interp t t' h le =
    let (stack, e, h1) = >>=-eq-some (stack_pop_n n t.dirty_stack) _ h in
    ground (arith, length-stack_pop_n n t.dirty_stack stack e)
run_arm-Moves (dup k) interp t t' h le =
    let (x, e, h1) = >>=-eq-some (get_elem? t.dirty_stack k) _ h in ground arith
run_arm-Moves (swap k) interp t t' h le =
    let (stack, e, h1) = >>=-eq-some (swap_top k t.dirty_stack) _ h in
    ground (arith, length-swap_top k t.dirty_stack stack e)
run_arm-Moves (call n) interp t t' h le =
    let (stack, e, h1) = >>=-eq-some (stack_pop_n n t.dirty_stack) _ h in
    omega (
      arith,
      length-stack_pop_n n t.dirty_stack stack e,
      ap length (push_ctx_frame interp (with_stack t (false ∷ stack)) t' h1),
    )
