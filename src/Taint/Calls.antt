-- ===== src/Taint/Calls.antt =====
-- The shadow stack against the EVM's: `on_step` and `on_return` together.
use ityfuzz.Prelude.{
  agree, agree-eq, up_to, up_to-lookup, ℕ, ◌+◌, ◌≤◌, ◌<◌, ◌≡◌, refl, Bool, true, false, ◌||◌, not,
  Option, none, some, arith, ◌==◌, ltb, if◌then◌else◌, length, Option-cases, inl, inr, ◌∙◌, sym, ap,
}
use ityfuzz.Taint.{
  Interp, Ctx, Sha3TaintAnalysis, max_call_depth, run_arm, on_step, on_return, pop_ctx, stack_pop_n,
  push_ctx, with_stack, cleanup,
}
use ityfuzz.Taint.Opcodes.{setup_mem, arm}
use ityfuzz.Taint.Table.{evm_effect, arm_effect, frame_stack, look_up}
use ityfuzz.Taint.Effect.{setup_mem_effect, Moves, run_arm-Moves}

-- The opcodes that the analysis treats as the EVM does: not EXTCODECOPY (whose arm takes three
-- values of four), BLOCKHASH (which has no arm), REVERT or SELFDESTRUCT (which end the frame).
abbrev pub is_followed : ℕ → Bool
is_followed op = not (op == 0x3c || op == 0x40 || op == 0xfd || op == 0xff)

same_effect : ℕ → Bool
unfolding evm_effect look_up arm agree
same_effect op = agree (is_followed op) (arm_effect (arm op)) (evm_effect op)

same_effects : up_to same_effect 256 ≡ true
unfolding up_to same_effect agree evm_effect look_up arm
same_effects = refl

pub arm_effect-arm :
    (op : ℕ) (e : ℕ × ℕ)
    → op < 256
    → is_followed op ≡ true
    → evm_effect op ≡ some e
    → arm_effect (arm op) ≡ e
unfolding same_effect
arm_effect-arm op e lt f h =
    agree-eq (is_followed op) (arm_effect (arm op)) e (evm_effect op)
      (up_to-lookup same_effect 256 op same_effects lt) f h

within_depth : (d : ℕ) → d ≤ max_call_depth → ltb max_call_depth d ≡ false
within_depth d h = ground arith

==-eq : (m n : ℕ) → (m == n) ≡ true → m ≡ n
==-eq m n h = ground arith

pub guarded :
    (b c : Bool) (t t' : Sha3TaintAnalysis) (m : Option Sha3TaintAnalysis)
    → (if b then some t else if c then m else none) ≡ some t'
    → b ≡ false
    → (c ≡ true) × (m ≡ some t')
guarded b c t t' m h hb = ground arith

pub on_step-run_arm :
    (interp : Interp) (t t' : Sha3TaintAnalysis)
    → on_step interp t ≡ some t'
    → interp.call_depth ≤ max_call_depth
    → (length interp.stack ≡ length t.dirty_stack)
      × (run_arm (arm interp.opcode) interp t ≡ some t')
unfolding on_step
on_step-run_arm interp t t' h d =
    let (same, run) =
      guarded (ltb max_call_depth interp.call_depth) (length interp.stack == length t.dirty_stack) t
        t' (run_arm (arm interp.opcode) interp t) h (within_depth interp.call_depth d) in
    (==-eq (length interp.stack) (length t.dirty_stack) same, run)

-- While the depth is within the bound, the opcode is a byte that the analysis follows, and the
-- EVM has the values that the opcode takes, a step that the analysis takes changes the size of
-- the shadow stack as the EVM changes its own; a call puts the stack away in a frame.
pub on_step-evm_effect :
    (interp : Interp) (t t' : Sha3TaintAnalysis) (takes puts : ℕ)
    → on_step interp t ≡ some t'
    → interp.call_depth ≤ max_call_depth
    → interp.opcode < 256
    → is_followed interp.opcode ≡ true
    → evm_effect interp.opcode ≡ some (takes, puts)
    → takes ≤ length interp.stack
    → length (frame_stack (arm interp.opcode) t') + takes ≡ length interp.stack + puts
unfolding Moves
on_step-evm_effect interp t t' takes puts h d lt f e le =
    let q : arm_effect (arm interp.opcode) ≡ (takes, puts) =
      arm_effect-arm interp.opcode (takes, puts) lt f e in
    let (same, run) = on_step-run_arm interp t t' h d in
    let taken : (arm_effect (arm interp.opcode)).0 ≡ takes = ap (λ p. p.0) q in
    let put : (arm_effect (arm interp.opcode)).1 ≡ puts = ap (λ p. p.1) q in
    let moves : Moves (arm interp.opcode) t t' =
      run_arm-Moves (arm interp.opcode) interp t t' run (omega arith) in
    omega (arith, moves)

extcodecopy_lem :
    (interp : Interp) (t t' : Sha3TaintAnalysis)
    → interp.opcode ≡ 0x3c
    → interp.call_depth ≤ max_call_depth
    → on_step interp t ≡ some t'
    → length t'.dirty_stack + 3 ≡ length interp.stack
unfolding Moves arm run_arm ityfuzz.Taint.run_setup_mem
extcodecopy_lem interp t t' o d h =
    let (same, run) = on_step-run_arm interp t t' h d in
    let run' : run_arm setup_mem interp t ≡ some t' =
      ap (λ op. run_arm (arm op) interp t) (sym o) ∙ run in
    omega (arith, setup_mem_effect interp t t' run')

-- After an EXTCODECOPY that the analysis takes, within the depth, the analysis panics at the
-- next step of the frame, for the EVM has taken four values off its stack.
pub extcodecopy_panics :
    (interp after : Interp) (t t' : Sha3TaintAnalysis)
    → interp.opcode ≡ 0x3c
    → interp.call_depth ≤ max_call_depth
    → on_step interp t ≡ some t'
    → after.call_depth ≤ max_call_depth
    → length after.stack + 4 ≡ length interp.stack
    → on_step after t' ≡ none
unfolding on_step
extcodecopy_panics interp after t t' o d h d' l =
    let short : length t'.dirty_stack + 3 ≡ length interp.stack =
      extcodecopy_lem interp t t' o d h in
    elim (Option-cases (on_step after t')) [
      | inl e ↦ e
      | inr (t2, e) ↦ let (same, run) = on_step-run_arm after t' t2 e d' in absurd (omega arith)
    ]
