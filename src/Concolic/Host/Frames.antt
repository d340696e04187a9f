-- ===== src/Concolic/Host/Frames.antt =====
-- Calls and returns of the symbolic run: what `push_ctx` puts away `pop_ctx` brings back.
use ityfuzz.Prelude.{
  ℕ, ◌+◌, ◌≤◌, ◌<◌, ◌≡◌, refl, false, none, some, List, ◌∷◌, arith, length, drop, ◌∙◌, sym, ap,
  wrapping_sub, word,
}
use ityfuzz.Concolic.Expr.{ConcolicOp}
use ityfuzz.Concolic.Host.{on_step, on_return}
use ityfuzz.Concolic.Host.State.{Interp, ConcolicHost, ConcolicCallCtx, pop_ctx}
use ityfuzz.Concolic.Host.Opcodes.{call, arm_of}
use ityfuzz.Concolic.Host.Lengths.{arm_effect, is_call}
use ityfuzz.Concolic.Host.Effects.{
  Enters, full_arm, full_arm-stays, full_arm-Enters, on_step-full_arm,
}

on_return_eq :
    (host : ConcolicHost) (ctx : ConcolicCallCtx) (rest : List ConcolicCallCtx)
    → host.ctxs ≡ ctx ∷ rest
    → on_return host
      ≡ some (record host {
        symbolic_stack = ctx.symbolic_stack;
        symbolic_memory = ctx.symbolic_memory;
        symbolic_state = ctx.symbolic_state;
        ctxs = rest;
        call_depth = wrapping_sub host.call_depth 1;
      })
unfolding on_return pop_ctx
on_return_eq host ctx rest h = rw h

module _ (debug : ConcolicOp → List ℕ) where
  -- What the callbacks see of a frame whose stack does not underflow: steps, and calls with
  -- their returns.
  pub data Run : ConcolicHost → ConcolicHost → Type 0 where
    done : (host : ConcolicHost) → Run host host
    step :
        (interp : Interp) (host next after : ConcolicHost)
        → is_call (arm_of interp.opcode) ≡ false
        → (arm_effect (arm_of interp.opcode)).0 ≤ length host.symbolic_stack
        → on_step debug interp host ≡ some next
        → Run next after
        → Run host after
    nested :
        (interp : Interp) (host entered callee back after : ConcolicHost) (n : ℕ)
        → arm_of interp.opcode ≡ call n
        → host.call_depth + 1 < word
        → on_step debug interp host ≡ some entered
        → Run entered callee
        → on_return callee ≡ some back
        → Run back after
        → Run host after

  pub step_Enters :
      (interp : Interp) (host entered : ConcolicHost) (n : ℕ)
      → arm_of interp.opcode ≡ call n
      → on_step debug interp host ≡ some entered
      → Enters n host entered
  step_Enters interp host entered n a h = full_arm-Enters debug interp host entered n (
      ap (λ b. full_arm debug b interp host) (sym a)
      ∙ (sym (on_step-full_arm debug interp host) ∙ h))

  -- The return from a frame that has left the frames beneath it as they were
  returned :
      (n : ℕ) (host entered callee : ConcolicHost)
      → host.call_depth + 1 < word
      → Enters n host entered
      → callee.ctxs ≡ entered.ctxs
      → callee.call_depth ≡ entered.call_depth
      → on_return callee
        ≡ some (record callee {
          symbolic_stack = none ∷ drop n host.symbolic_stack;
          symbolic_memory = host.symbolic_memory;
          symbolic_state = host.symbolic_state;
          ctxs = host.ctxs;
          call_depth = host.call_depth;
        })
  returned n host entered callee lt (ctx, cs, st, me, sa, _, _, _, d, _) same depth =
      let ret = on_return_eq callee ctx host.ctxs (same ∙ cs) in
      let back : wrapping_sub callee.call_depth 1 ≡ host.call_depth = omega (arith, depth, d) in
      ground (arith, ret, back, st, me, sa)

  Run_frames :
      (host after : ConcolicHost)
      → Run host after
      → (after.ctxs ≡ host.ctxs) × (after.call_depth ≡ host.call_depth)
  Run_frames _ _ (done host) = (refl, refl)
  Run_frames _ _ (step interp host next after nc le h run) =
      let (_, cs, d, _) =
        full_arm-stays debug interp host next (arm_of interp.opcode) nc
          (sym (on_step-full_arm debug interp host) ∙ h) le in
      let (cs', d') = Run_frames next after run in (cs' ∙ cs, d' ∙ d)
  Run_frames _ _ (nested interp host entered callee back after n a lt h inner ret run) =
      let (cs, d) = Run_frames entered callee inner in
      let e = returned n host entered callee lt (step_Enters interp host entered n a h) cs d in
      let (cs', d') = Run_frames back after run in
      (cs' ∙ ground (arith, e, ret), d' ∙ ground (arith, e, ret))

  -- A call, the callee's whole run (with calls of its own), and the return: the return succeeds, and
  -- gives the caller back its memory, its storage, the frames beneath and the call depth, its
  -- stack without the arguments and with one concrete value for the result, and the constraints
  -- and solved sets of the callee.
  pub on_return-Run :
      (interp : Interp) (host entered callee : ConcolicHost) (n : ℕ)
      → arm_of interp.opcode ≡ call n
      → host.call_depth + 1 < word
      → on_step debug interp host ≡ some entered
      → Run entered callee
      → on_return callee
        ≡ some (record callee {
          symbolic_stack = none ∷ drop n host.symbolic_stack;
          symbolic_memory = host.symbolic_memory;
          symbolic_state = host.symbolic_state;
          ctxs = host.ctxs;
          call_depth = host.call_depth;
        })
  on_return-Run interp host entered callee n a lt h inner =
      let (cs, d) = Run_frames entered callee inner in
      returned n host entered callee lt (step_Enters interp host entered n a h) cs d
