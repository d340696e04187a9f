-- ===== src/Concolic/Host/Branches.antt =====
-- The constraints that a symbolic run collects at its branches, and what is solved of them.
use ityfuzz.Prelude.{
  ◌++◌, ℕ, ◌≤◌, ◌≡◌, refl, Bool, true, false, ◌&&◌, not as negb, some, List, [], ◌∷◌, arith, length,
  ◌∙◌, sym, All, All-append, any_of, list_beq, Bool-cases, inl, inr, >>=-eq-some, ◌==◌, get_elem?,
}
use std.Path.{subst}
use ityfuzz.Concolic.Expr.{ConcolicOp, Expr, unary, lnot, is_concrete}
use ityfuzz.Concolic.Host.{
  run_arm, run_jumpi, solve_once, attempt, assume_path, path_constraint, need_solve, popped,
  push_all, on_step,
}
use ityfuzz.Concolic.Host.State.{Stack, Interp, ConcolicHost, pretty_print_str, stack_bv}
use ityfuzz.Concolic.Host.Opcodes.{Arm, jumpi, call, arm_of}
use ityfuzz.Concolic.Host.Lengths.{arm_effect, log_of}
use ityfuzz.Concolic.Host.Effects.{full_arm, full_arm-stays, full_arm-Enters, on_step-full_arm}
use ityfuzz.Concolic.Host.Frames.{Run, done, step, nested, step_Enters, on_return-Run}

abbrev pub Symbolic : Expr → Type 0
Symbolic e = is_concrete e ≡ some false

abbrev pub Distinct : List (List ℕ) → Type 0
Distinct [] = Unit
Distinct (k ∷ ks) = (any_of (list_beq k) ks ≡ false) × Distinct ks

module _ (debug : ConcolicOp → List ℕ) where
  -- What was handed to a solver ends with the constraint whose hash is recorded for it.
  unfoldable pub Recorded : List (List Expr) → List (List ℕ) → Type 0
  Recorded [] [] = Unit
  Recorded [] (k ∷ ks) = ⊥
  Recorded (cs ∷ solving) [] = ⊥
  Recorded (cs ∷ solving) (k ∷ ks) =
      ((path : List Expr) × (e : Expr) × (cs ≡ path ++ (e ∷ [])) × (k ≡ pretty_print_str debug e))
      × Recorded solving ks

  -- The constraints, also those that were handed to the solver, depend on the input; what was
  -- solved is recorded, each constraint once.
  abbrev pub SoundLog : List Expr × List (List Expr) × List (List ℕ) → Type 0
  SoundLog (constraints, solving, already_solved) =
      All Symbolic constraints
      × All (All Symbolic) solving
      × Distinct already_solved
      × Recorded solving already_solved

  abbrev pub IsSound : ConcolicHost → Type 0
  IsSound host = SoundLog (log_of host)

  log-IsSound :
      (host host' : ConcolicHost) → log_of host' ≡ log_of host → IsSound host → IsSound host'
  log-IsSound host host' e s = subst SoundLog (sym e) s

  solve_once-IsSound :
      (e : Expr) (host : ConcolicHost)
      → Symbolic e
      → IsSound host
      → IsSound (solve_once (pretty_print_str debug e) e host)
  unfolding solve_once Recorded
  solve_once-IsSound e host sy (cs, so, di, le) =
      elim (Bool-cases (any_of (list_beq (pretty_print_str debug e)) host.already_solved)) [
        | inl known ↦ rw known (cs, so, di, le)
        | inr new ↦ rw new (
          cs,
          (All-append Symbolic host.constraints (e ∷ []) cs (sy, tt), so),
          (new, di),
          ((host.constraints, e, refl, refl), le),
        )
      ]

  jumpi-host-IsSound :
      (wanted concrete : Bool) (real : Expr) (host : ConcolicHost)
      → is_concrete real ≡ some concrete
      → IsSound host
      → IsSound (
          popped 2 (
            assume_path concrete real
              (attempt debug (wanted && negb concrete) (unary real lnot) host)))
  unfolding attempt assume_path is_concrete
  jumpi-host-IsSound wanted true real host k s = ground (arith, s)
  jumpi-host-IsSound false false real host k (cs, so, di, le) =
      (All-append Symbolic host.constraints (real ∷ []) cs (k, tt), so, di, le)
  jumpi-host-IsSound true false real host k s =
      let intended = unary real lnot in
      let solved = solve_once (pretty_print_str debug intended) intended host in
      let (cs, so, di, le) = solve_once-IsSound intended host k s in
      (All-append Symbolic solved.constraints (real ∷ []) cs (k, tt), so, di, le)

  run_jumpi-IsSound :
      (interp : Interp) (host host' : ConcolicHost) (values : Stack)
      → run_jumpi debug interp host ≡ some (values, host')
      → IsSound host
      → (values ≡ []) × IsSound host'
  unfolding run_jumpi
  run_jumpi-IsSound interp host host' values h s =
      let (cond, e, h1) = >>=-eq-some (get_elem? interp.stack 1) _ h in
      let (e1, q, h2) = >>=-eq-some (stack_bv interp host 1) _ h1 in
      let real = path_constraint (cond == 0) e1 in
      let (k, q', h3) = >>=-eq-some (is_concrete real) _ h2 in
      let sound = jumpi-host-IsSound (need_solve interp host) k real host q' s in
      let result : (popped 2 (
            assume_path k real
              (attempt debug (need_solve interp host && negb k) (unary real lnot) host)))
          ≡ host' =
        ground (arith, h3) in
      (ground (arith, h3), subst (IsSound) result sound)

  full_arm-IsSound :
      (a : Arm) (interp : Interp) (host host' : ConcolicHost)
      → (arm_effect a).0 ≤ length host.symbolic_stack
      → full_arm debug a interp host ≡ some host'
      → IsSound host
      → IsSound host'
  unfolding full_arm run_arm push_all
  full_arm-IsSound jumpi interp host host' le h s =
      let ((values, host1), q, h1) = >>=-eq-some (run_jumpi debug interp host) _ h in
      let (nothing, sound) = run_jumpi-IsSound interp host host1 values q s in
      let same : host1 ≡ host' = ground (arith, h1, nothing) in subst (IsSound) same sound
  full_arm-IsSound (call n) interp host host' le h s =
      let (_, _, _, _, _, _, _, _, _, log) = full_arm-Enters debug interp host host' n h in
      log-IsSound host host' log s
  full_arm-IsSound a interp host host' le h s =
      let (_, _, _, log) = full_arm-stays debug interp host host' a refl h le in
      log-IsSound host host' (log refl) s

  step_taken :
      (interp : Interp) (host host' : ConcolicHost)
      → on_step debug interp host ≡ some host'
      → full_arm debug (arm_of interp.opcode) interp host ≡ some host'
  step_taken interp host host' h = sym (on_step-full_arm debug interp host) ∙ h

  -- A run of a frame, with its calls and returns, keeps to the end: every constraint depends on the
  -- input, in those collected and in those handed to a solver, what was handed over ends with the
  -- constraint whose hash is recorded for it, and no hash is recorded twice.
  pub Run-IsSound :
      (host after : ConcolicHost) → Run debug host after → IsSound host → IsSound after
  Run-IsSound _ _ (done host) s = s
  Run-IsSound _ _ (step interp host next after nc le h run) s = Run-IsSound next after run (
      full_arm-IsSound (arm_of interp.opcode) interp host next le (step_taken interp host next h) s)
  Run-IsSound _ _ (nested interp host entered callee back after n a lt h inner ret run) s =
      let (_, _, _, _, _, _, _, _, _, log) = step_Enters debug interp host entered n a h in
      let before = log-IsSound host entered log s in
      let behind = Run-IsSound entered callee inner before in
      let e = on_return-Run debug interp host entered callee n a lt h inner in
      let log' : log_of back ≡ log_of callee = ground (arith, e, ret) in
      Run-IsSound back after run (log-IsSound callee back log' behind)
