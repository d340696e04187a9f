-- ===== src/Taint/Frames.antt =====
-- Calls and returns: the frames that `push_ctx` puts away and `pop_ctx` brings back.
use ityfuzz.Prelude.{
  ℕ, ◌≤◌, ◌≡◌, refl, Bool, false, some, List, ◌∷◌, arith, >>=-eq-some, get_elem?, ◌∙◌, sym, ap,
  wrapping_add,
}
use ityfuzz.Taint.{
  Interp, Ctx, Sha3TaintAnalysis, max_call_depth, run_arm, on_step, on_return, pop_ctx, top,
  pop_any, pop_or, swap_top, as_u64, arg_places, slice, ensure_size, fill_range, read_range,
  run_setup_mem, run_mload, run_mstore, run_sload, run_sstore, run_jumpi, load_input, stack_pop_n,
  push_ctx, with_stack,
}
use ityfuzz.Taint.Opcodes.{
  Arm, nothing, pop_push, sha3, push_false, calldataload, setup_mem, pop_push_false, pop, mload,
  mstore, mstore8, sload, sstore, jumpi, dup, swap, pop_n, call, unknown, arm,
}
use ityfuzz.Taint.Table.{is_call}
use ityfuzz.Taint.Calls.{on_step-run_arm}

abbrev pub frame_of : Sha3TaintAnalysis → List Bool → Ctx
frame_of t input = record {
  dirty_memory = t.dirty_memory;
  dirty_storage = t.dirty_storage;
  dirty_stack = t.dirty_stack;
  input_data = input;
}

push_ctx_adds :
    (interp : Interp) (t t' : Sha3TaintAnalysis)
    → push_ctx interp t ≡ some t'
    → (input : List Bool) × (t'.ctxs ≡ frame_of t input ∷ t.ctxs)
unfolding push_ctx
push_ctx_adds interp t t' h =
    let (places, e, h1) = >>=-eq-some (arg_places interp.opcode) _ h in
    let (offset, e1, h2) = >>=-eq-some (get_elem? interp.stack places.0) _ h1 in
    let (len, e2, h3) = >>=-eq-some (get_elem? interp.stack places.1) _ h2 in
    let (input, e3, h4) =
      >>=-eq-some (read_range t.dirty_memory (as_u64 offset) (as_u64 len)) _ h3 in
    (input, ground arith)

module _ (interp : Interp) (t t' : Sha3TaintAnalysis) where
  run_setup_mem_ctxs : run_setup_mem interp t ≡ some t' → t'.ctxs ≡ t.ctxs
  unfolding run_setup_mem
  run_setup_mem_ctxs h =
      let (stack, e, h1) = >>=-eq-some (stack_pop_n 3 t.dirty_stack) _ h in
      let (offset, e1, h2) = >>=-eq-some (get_elem? interp.stack 0) _ h1 in
      let (len, e2, h3) = >>=-eq-some (get_elem? interp.stack 2) _ h2 in
      let (memory, e3, h4) =
        >>=-eq-some
          (fill_range (ensure_size t.dirty_memory (wrapping_add (as_u64 offset) (as_u64 len)))
            (as_u64 offset) (as_u64 len) false)
          _ h3 in
      ground arith

  run_mload_ctxs : run_mload interp t ≡ some t' → t'.ctxs ≡ t.ctxs
  unfolding run_mload
  run_mload_ctxs h =
      let (offset, e1, h1) = >>=-eq-some (get_elem? interp.stack 0) _ h in
      let (bytes, e2, h2) =
        >>=-eq-some
          (slice (ensure_size t.dirty_memory (wrapping_add (as_u64 offset) 32)) (as_u64 offset)
            (wrapping_add (as_u64 offset) 32))
          _ h1 in
      ground arith

  run_mstore_ctxs : (bytes : ℕ) → run_mstore bytes interp t ≡ some t' → t'.ctxs ≡ t.ctxs
  unfolding run_mstore
  run_mstore_ctxs bytes h =
      let (stack, e, h1) = >>=-eq-some (stack_pop_n 1 t.dirty_stack) _ h in
      let (offset, e1, h2) = >>=-eq-some (get_elem? interp.stack 0) _ h1 in
      let (popped, e2, h3) = >>=-eq-some (top stack) _ h2 in
      let (memory, e3, h4) =
        >>=-eq-some
          (fill_range (ensure_size t.dirty_memory (wrapping_add (as_u64 offset) bytes))
            (as_u64 offset) bytes popped.0)
          _ h3 in
      ground arith

-- Only the calls put a frame away.
run_arm_ctxs :
    (a : Arm) (interp : Interp) (t t' : Sha3TaintAnalysis)
    → run_arm a interp t ≡ some t'
    → is_call a ≡ false
    → t'.ctxs ≡ t.ctxs
unfolding run_arm run_sload run_sstore run_jumpi
run_arm_ctxs nothing interp t t' h c = ground arith
run_arm_ctxs sha3 interp t t' h c =
    let (stack, e, h1) = >>=-eq-some (stack_pop_n 2 t.dirty_stack) _ h in ground arith
run_arm_ctxs push_false interp t t' h c = ground arith
run_arm_ctxs calldataload interp t t' h c =
    let (input, e, h1) = >>=-eq-some (load_input interp t) _ h in ground arith
run_arm_ctxs setup_mem interp t t' h c = run_setup_mem_ctxs interp t t' h
run_arm_ctxs pop interp t t' h c = ground arith
run_arm_ctxs mload interp t t' h c = run_mload_ctxs interp t t' h
run_arm_ctxs mstore interp t t' h c = run_mstore_ctxs interp t t' 32 h
run_arm_ctxs mstore8 interp t t' h c = run_mstore_ctxs interp t t' 1 h
run_arm_ctxs sload interp t t' h c =
    let (key, e, h1) = >>=-eq-some (get_elem? interp.stack 0) _ h in ground arith
run_arm_ctxs sstore interp t t' h c =
    let (popped, e, h1) = >>=-eq-some (top (pop_any t.dirty_stack)) _ h in
    let (key, e1, h2) = >>=-eq-some (get_elem? interp.stack 0) _ h1 in ground arith
run_arm_ctxs jumpi interp t t' h c =
    let (popped, e, h1) = >>=-eq-some (top (pop_any t.dirty_stack)) _ h in ground arith
run_arm_ctxs unknown interp t t' h c = cc
run_arm_ctxs (pop_push n) interp t t' h c =
    let (popped, e, h1) = >>=-eq-some (pop_or n false t.dirty_stack) _ h in ground arith
run_arm_ctxs (pop_push_false n) interp t t' h c =
    let (stack, e, h1) = >>=-eq-some (stack_pop_n n t.dirty_stack) _ h in ground arith
run_arm_ctxs (pop_n n) interp t t' h c =
    let (stack, e, h1) = >>=-eq-some (stack_pop_n n t.dirty_stack) _ h in ground arith
run_arm_ctxs (dup k) interp t t' h c =
    let (x, e, h1) = >>=-eq-some (get_elem? t.dirty_stack k) _ h in ground arith
run_arm_ctxs (swap k) interp t t' h c =
    let (stack, e, h1) = >>=-eq-some (swap_top k t.dirty_stack) _ h in ground arith
run_arm_ctxs (call n) interp t t' h c = cc

on_step_ctxs :
    (interp : Interp) (t t' : Sha3TaintAnalysis)
    → is_call (arm interp.opcode) ≡ false
    → interp.call_depth ≤ max_call_depth
    → on_step interp t ≡ some t'
    → t'.ctxs ≡ t.ctxs
on_step_ctxs interp t t' c d h =
    run_arm_ctxs (arm interp.opcode) interp t t' (on_step-run_arm interp t t' h d).1 c

-- What the callbacks see of a frame within the depth: steps, and calls with their returns.
pub data Run : Sha3TaintAnalysis → Sha3TaintAnalysis → Type 0 where
  done : (t : Sha3TaintAnalysis) → Run t t
  step :
      (interp : Interp) (t t' after : Sha3TaintAnalysis)
      → interp.call_depth ≤ max_call_depth
      → is_call (arm interp.opcode) ≡ false
      → on_step interp t ≡ some t'
      → Run t' after
      → Run t after
  nested :
      (interp : Interp) (t t' callee back after : Sha3TaintAnalysis) (n : ℕ)
      → interp.call_depth ≤ max_call_depth
      → arm interp.opcode ≡ call n
      → on_step interp t ≡ some t'
      → Run t' callee
      → on_return callee ≡ some back
      → Run back after
      → Run t after

call_adds :
    (interp : Interp) (t t' : Sha3TaintAnalysis) (n : ℕ)
    → run_arm (call n) interp t ≡ some t'
    → (stack : List Bool) × (input : List Bool) × (stack_pop_n n t.dirty_stack ≡ some stack)
      × (t'.ctxs ≡ frame_of (with_stack t (false ∷ stack)) input ∷ t.ctxs)
unfolding run_arm
call_adds interp t t' n h =
    let (stack, e, h1) = >>=-eq-some (stack_pop_n n t.dirty_stack) _ h in
    let (input, q) = push_ctx_adds interp (with_stack t (false ∷ stack)) t' h1 in
    (stack, input, e, q)

on_return_pops :
    (t back : Sha3TaintAnalysis) (ctx : Ctx) (rest : List Ctx)
    → t.ctxs ≡ ctx ∷ rest
    → on_return t ≡ some back
    → back.ctxs ≡ rest
unfolding on_return pop_ctx
on_return_pops t back ctx rest e h = ground arith

on_return_eq :
    (t : Sha3TaintAnalysis) (ctx : Ctx) (rest : List Ctx)
    → t.ctxs ≡ ctx ∷ rest
    → on_return t
      ≡ some (record t {
        dirty_memory = ctx.dirty_memory;
        dirty_storage = ctx.dirty_storage;
        dirty_stack = ctx.dirty_stack;
        ctxs = rest;
      })
unfolding on_return pop_ctx
on_return_eq t ctx rest h = rw h

-- A frame leaves the frames beneath it as they were.
Run_ctxs : (t after : Sha3TaintAnalysis) → Run t after → after.ctxs ≡ t.ctxs
Run_ctxs _ _ (done t) = refl
Run_ctxs _ _ (step interp t t' after d c h run) =
    Run_ctxs t' after run ∙ on_step_ctxs interp t t' c d h
Run_ctxs _ _ (nested interp t t' callee back after n d a h inner ret run) =
    let (stack, input, e, q) =
      call_adds interp t t' n
        (ap (λ a. run_arm a interp t) (sym a) ∙ (on_step-run_arm interp t t' h d).1) in
    let beneath : back.ctxs ≡ t.ctxs =
      on_return_pops callee back (frame_of (with_stack t (false ∷ stack)) input) t.ctxs
        (Run_ctxs t' callee inner ∙ q) ret in
    Run_ctxs back after run ∙ beneath

-- A call at a depth of at most 3, a run of the callee in which every step and every call stands at a
-- depth of at most 3 too, and the return: the return succeeds, and gives the caller back its memory, its storage and the frames beneath, its
-- stack without the arguments and with one clean value for the result, and the marks of the callee.
pub on_return-call :
    (interp : Interp) (t t' callee : Sha3TaintAnalysis) (n : ℕ)
    → interp.call_depth ≤ max_call_depth
    → arm interp.opcode ≡ call n
    → on_step interp t ≡ some t'
    → Run t' callee
    → (stack : List Bool) × (stack_pop_n n t.dirty_stack ≡ some stack)
      × (on_return callee
          ≡ some (record t { dirty_stack = false ∷ stack; tainted_jumpi = callee.tainted_jumpi }))
unfolding on_return pop_ctx
on_return-call interp t t' callee n d a h inner =
    let (stack, input, e, q) =
      call_adds interp t t' n
        (ap (λ a. run_arm a interp t) (sym a) ∙ (on_step-run_arm interp t t' h d).1) in
    let frames : callee.ctxs ≡ frame_of (with_stack t (false ∷ stack)) input ∷ t.ctxs =
      Run_ctxs t' callee inner ∙ q in
    (stack, e, on_return_eq callee (frame_of (with_stack t (false ∷ stack)) input) t.ctxs frames)
