-- ===== src/Concolic/Tests/Steps.antt =====
-- The steps of the concolic host at concrete values.
use ityfuzz.Prelude.{ℕ, ◌+◌, ◌≡◌, refl, true, none, some, List, [], ◌∷◌, arith, length, nat_eq}
use ityfuzz.Taint.Table.{look_up, evm_effect}
use ityfuzz.Concolic.Memory.{get_slice}
use ityfuzz.Concolic.Expr.{add, binary, callvalue, fields, leaf, unary, lnot, is_concrete, evmu256}
use ityfuzz.Concolic.Host.{
  on_step, on_return, run_arm, run_call, run_jumpi, solve_once, attempt, assume_path,
}
use ityfuzz.Concolic.Host.State.{Stack, Interp, ConcolicHost, push_ctx, stack_bv, pretty_print_str}
use ityfuzz.Concolic.Host.Opcodes.{arm_of, find_arm}
use ityfuzz.Concolic.Host.Lengths.{frame_stack}
use ityfuzz.Concolic.Host.Effects.{on_step-frame_stack}
use ityfuzz.Concolic.Host.Frames.{done, step, on_return-Run}
use ityfuzz.Concolic.Host.Branches.{IsSound, Recorded, Run-IsSound}

abbrev at : ℕ → List ℕ → Interp
at op stack = record { opcode = op; stack = stack; has_source = true }

abbrev pub host_of : Stack → ConcolicHost
host_of stack = record {
  symbolic_stack = stack;
  symbolic_memory = [];
  symbolic_state = [];
  constraints = [];
  ctxs = [];
  call_depth = 0;
  already_solved = [];
  solving = [];
}

abbrev after_add : ConcolicHost
after_add = host_of (some (binary (leaf (evmu256 1)) (leaf callvalue) add) ∷ [])

on_step-frame_stack_example : length (frame_stack (arm_of 0x01) after_add) + 2 ≡ 2 + 1
unfolding on_step stack_bv arm_of find_arm evm_effect look_up is_concrete
on_step-frame_stack_example =
    on_step-frame_stack fields (at 0x01 (1 ∷ 2 ∷ [])) (host_of (none ∷ some (leaf callvalue) ∷ []))
      after_add (2, 1) (omega arith) refl refl (omega arith) refl

abbrev seven : Stack
seven = none ∷ none ∷ none ∷ none ∷ none ∷ none ∷ some (leaf callvalue) ∷ []

abbrev calling_host : ConcolicHost
calling_host = host_of seven

abbrev inside : Stack → ConcolicHost
inside stack = record (host_of stack) {
  ctxs =
      record {
        symbolic_stack = none ∷ some (leaf callvalue) ∷ [];
        symbolic_memory = [];
        symbolic_state = [];
        input_bytes = [];
      }
      ∷ [];
  call_depth = 1;
}

on_return-Run_example :
    on_return (inside (none ∷ []))
    ≡ some (record (inside (none ∷ [])) {
      symbolic_stack = none ∷ some (leaf callvalue) ∷ [];
      symbolic_memory = [];
      symbolic_state = [];
      ctxs = [];
      call_depth = 0;
    })
unfolding on_step arm_of find_arm run_arm run_call push_ctx get_slice
on_return-Run_example =
    on_return-Run fields (at 0xf4 (0 ∷ 0 ∷ 0 ∷ 0 ∷ 0 ∷ 0 ∷ 9 ∷ [])) calling_host (inside [])
      (inside (none ∷ [])) 6 refl (omega arith) refl
      (step (at 0x5f []) (inside []) (inside (none ∷ [])) (inside (none ∷ [])) refl (omega arith)
        refl (done (inside (none ∷ []))))

-- A branch on the value sent, taken
abbrev branched : ConcolicHost
branched = record (host_of []) {
  constraints = leaf callvalue ∷ [];
  already_solved = pretty_print_str fields (unary (leaf callvalue) lnot) ∷ [];
  solving = (unary (leaf callvalue) lnot ∷ []) ∷ [];
}

Run-IsSound_example : IsSound fields branched
unfolding on_step arm_of find_arm run_arm stack_bv run_jumpi attempt assume_path solve_once
    is_concrete pretty_print_str Recorded
Run-IsSound_example =
    Run-IsSound fields (host_of (none ∷ some (leaf callvalue) ∷ [])) branched
      (step (at 0x57 (5 ∷ 1 ∷ [])) (host_of (none ∷ some (leaf callvalue) ∷ [])) branched branched
        refl (omega arith) refl (done branched))
      (tt, tt, tt, tt)
