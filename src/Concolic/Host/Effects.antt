-- ===== src/Concolic/Host/Effects.antt =====
-- The symbolic stack against the EVM's: how `on_step` changes it.
use ityfuzz.Prelude.{
  ◌>>=◌, ℕ, ◌+◌, ◌≤◌, ◌<◌, ◌≡◌, refl, Bool, true, false, not, Option, none, some, List, [], ◌∷◌,
  arith, >>=-eq-some, length, length-drop, drop, ◌==◌, agree, agree-eq, up_to, up_to-lookup,
  get_elem?, ◌∙◌, sym, ap,
}
use ityfuzz.Taint.Table.{evm_effect, look_up}
use ityfuzz.Concolic.Expr.{ConcolicOp}
use ityfuzz.Concolic.Memory.{get_slice}
use ityfuzz.Concolic.Host.{calling, Result, run_arm, run_call, push_all, on_step}
use ityfuzz.Concolic.Host.State.{Stack, Interp, ConcolicHost, ConcolicCallCtx, push_ctx, arg_places}
use ityfuzz.Concolic.Host.Opcodes.{Arm, call, arm_of}
use ityfuzz.Concolic.Host.Lengths.{
  log_of, branches, arm_effect, is_call, frame_stack, run_arm-Stays, push_all-Stays,
}

-- The frame that a call puts away, and the state that it starts.
abbrev pub Enters : ℕ → ConcolicHost → ConcolicHost → Type 0
Enters n host host' =
    (ctx : ConcolicCallCtx) × (host'.ctxs ≡ ctx ∷ host.ctxs)
    × (ctx.symbolic_stack ≡ none ∷ drop n host.symbolic_stack)
    × (ctx.symbolic_memory ≡ host.symbolic_memory)
    × (ctx.symbolic_state ≡ host.symbolic_state)
    × (host'.symbolic_stack ≡ [])
    × (host'.symbolic_memory ≡ [])
    × (host'.symbolic_state ≡ [])
    × (host'.call_depth ≡ host.call_depth + 1)
    × (log_of host' ≡ log_of host)

push_ctx_lem :
    (interp : Interp) (host host' : ConcolicHost)
    → push_ctx interp host ≡ some host'
    → (ctx : ConcolicCallCtx) × (host'.ctxs ≡ ctx ∷ host.ctxs)
      × (ctx.symbolic_stack ≡ host.symbolic_stack)
      × (ctx.symbolic_memory ≡ host.symbolic_memory)
      × (ctx.symbolic_state ≡ host.symbolic_state)
      × (host'.symbolic_stack ≡ [])
      × (host'.symbolic_memory ≡ [])
      × (host'.symbolic_state ≡ [])
      × (host'.call_depth ≡ host.call_depth)
      × (log_of host' ≡ log_of host)
unfolding push_ctx
push_ctx_lem interp host host' h =
    let (places, e, h1) = >>=-eq-some (arg_places interp.opcode) _ h in
    let (offset, e1, h2) = >>=-eq-some (get_elem? interp.stack places.0) _ h1 in
    let (len, e2, h3) = >>=-eq-some (get_elem? interp.stack places.1) _ h2 in
    (
      record {
        symbolic_stack = host.symbolic_stack;
        symbolic_memory = host.symbolic_memory;
        symbolic_state = host.symbolic_state;
        input_bytes = (get_slice host.symbolic_memory offset len).1;
      },
      ground (arith, h3),
      refl,
      refl,
      refl,
      ground (arith, h3),
      ground (arith, h3),
      ground (arith, h3),
      ground (arith, h3),
      ground (arith, h3),
    )

pub run_call-Enters :
    (n : ℕ) (interp : Interp) (host host' : ConcolicHost) (values : Stack)
    → run_call n interp host ≡ some (values, host')
    → (values ≡ []) × Enters n host host'
unfolding run_call
run_call-Enters n interp host host' values h =
    let (host1, e, h1) = >>=-eq-some (push_ctx interp (calling n host)) _ h in
    let same : host1 ≡ host' = ground arith in
    let entered = push_ctx_lem interp (calling n host) host1 e in
    (ground arith, rw (sym same) entered)

-- RETURN ends the frame, and the analysis leaves its operands.
abbrev pub follows : ℕ → Bool
follows op = not (op == 0xf3)

same_effect : ℕ → Bool
unfolding evm_effect look_up arm_of agree
same_effect op = agree (follows op) (arm_effect (arm_of op)) (evm_effect op)

same_effects : up_to same_effect 256 ≡ true
unfolding up_to same_effect agree evm_effect look_up arm_of
same_effects = refl

arm_effect-arm_of :
    (op : ℕ) (e : ℕ × ℕ)
    → op < 256
    → follows op ≡ true
    → evm_effect op ≡ some e
    → arm_effect (arm_of op) ≡ e
unfolding same_effect
arm_effect-arm_of op e lt f h =
    agree-eq (follows op) (arm_effect (arm_of op)) e (evm_effect op)
      (up_to-lookup same_effect 256 op same_effects lt) f h

-- An arm, and the loop over its values
unfoldable pub full_arm : (ConcolicOp → List ℕ) → Arm → Interp → ConcolicHost → Option ConcolicHost
full_arm debug a interp host =
    run_arm debug a interp host >>= λ (result : Result). push_all result.0 result.1

module _ (debug : ConcolicOp → List ℕ) (interp : Interp) (host host' : ConcolicHost) where
  pub full_arm-stays :
      (a : Arm)
      → is_call a ≡ false
      → full_arm debug a interp host ≡ some host'
      → (arm_effect a).0 ≤ length host.symbolic_stack
      → (length host'.symbolic_stack + (arm_effect a).0
          ≡ length host.symbolic_stack + (arm_effect a).1)
        × (host'.ctxs ≡ host.ctxs)
        × (host'.call_depth ≡ host.call_depth)
        × (branches a ≡ false → log_of host' ≡ log_of host)
  unfolding full_arm
  full_arm-stays a nc h le =
      let ((values, host1), q, h1) = >>=-eq-some (run_arm debug a interp host) _ h in
      let (len, cs, d, g) = push_all-Stays values host1 host' h1 in
      let (moved, cs', d', g') = run_arm-Stays debug interp host host1 values a nc q le in
      (omega (arith, len, moved), cs ∙ cs', d ∙ d', λ plain. g ∙ g' plain)

  pub full_arm-Enters :
      (n : ℕ) → full_arm debug (call n) interp host ≡ some host' → Enters n host host'
  unfolding full_arm run_arm push_all
  full_arm-Enters n h =
      let ((values, host1), q, h1) = >>=-eq-some (run_call n interp host) _ h in
      let (none_put, entered) = run_call-Enters n interp host host1 values q in
      let same : host1 ≡ host' = ground (arith, none_put, h1) in rw (sym same) entered

  call_moves :
      (n : ℕ)
      → n ≤ length host.symbolic_stack
      → Enters n host host'
      → length (frame_stack (call n) host') + n ≡ length host.symbolic_stack + 1
  call_moves n le (ctx, cs, st, _, _, _, _, _, _, _) =
      ground (arith, cs, st, length-drop n host.symbolic_stack)

  full_arm_moves :
      (a : Arm)
      → full_arm debug a interp host ≡ some host'
      → (arm_effect a).0 ≤ length host.symbolic_stack
      → length (frame_stack a host') + (arm_effect a).0
        ≡ length host.symbolic_stack + (arm_effect a).1
  full_arm_moves (call n) h le = call_moves n le (full_arm-Enters n h)
  full_arm_moves a h le = (full_arm-stays a refl h le).0

pub on_step-full_arm :
    (debug : ConcolicOp → List ℕ) (interp : Interp) (host : ConcolicHost)
    → on_step debug interp host ≡ full_arm debug (arm_of interp.opcode) interp host
unfolding on_step full_arm
on_step-full_arm debug interp host = refl

pub on_step-frame_stack :
    (debug : ConcolicOp → List ℕ) (interp : Interp) (host host' : ConcolicHost) (e : ℕ × ℕ)
    → interp.opcode < 256
    → follows interp.opcode ≡ true
    → evm_effect interp.opcode ≡ some e
    → e.0 ≤ length host.symbolic_stack
    → on_step debug interp host ≡ some host'
    → length (frame_stack (arm_of interp.opcode) host') + e.0 ≡ length host.symbolic_stack + e.1
on_step-frame_stack debug interp host host' e lt f ev le h =
    let ea = arm_effect-arm_of interp.opcode e lt f ev in
    let moved =
      full_arm_moves debug interp host host' (arm_of interp.opcode)
        (sym (on_step-full_arm debug interp host) ∙ h)
        (omega (arith, ap (λ (p : ℕ × ℕ). p.0) ea, le)) in
    omega (arith, moved, ap (λ (p : ℕ × ℕ). p.0) ea, ap (λ (p : ℕ × ℕ). p.1) ea)
