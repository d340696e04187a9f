-- ===== src/Taint/Tests.antt =====
-- The taint analysis at concrete steps.
use ityfuzz.Prelude.{ℕ, ◌+◌, ◌≡◌, refl, Bool, true, false, some, List, [], ◌∷◌, arith, length}
use ityfuzz.Taint.{Interp, Sha3TaintAnalysis, on_step, on_return, run_arm, stack_pop_n}
use ityfuzz.Taint.Opcodes.{arm}
use ityfuzz.Taint.Table.{evm_effect, frame_stack, look_up}
use ityfuzz.Taint.Calls.{on_step-evm_effect}
use ityfuzz.Taint.Total.{is_stack_opcode, on_step-total}
use ityfuzz.Taint.Frames.{done, step, on_return-call}

abbrev at : ℕ → List ℕ → Interp
at op stack = record {
  opcode = op;
  stack = stack;
  address = 1;
  program_counter = 0;
  call_depth = 1;
}

abbrev tainted : List Bool → Sha3TaintAnalysis
tainted stack = record {
  dirty_memory = [];
  dirty_storage = [];
  dirty_stack = stack;
  tainted_jumpi = [];
  ctxs = [];
}

abbrev three : List ℕ
three = 5 ∷ 6 ∷ 7 ∷ []

on_step-evm_effect_example :
    length (frame_stack (arm 0x01) (tainted (true ∷ false ∷ []))) + 2 ≡ length three + 1
unfolding on_step evm_effect look_up arm
on_step-evm_effect_example =
    on_step-evm_effect (at 0x01 three) (tainted (true ∷ false ∷ false ∷ []))
      (tainted (true ∷ false ∷ [])) 2 1 refl (omega arith) (omega arith) refl refl (omega arith)

abbrev clean_stack : List Bool
clean_stack = false ∷ false ∷ false ∷ false ∷ []

abbrev caller : Sha3TaintAnalysis
caller = tainted (false ∷ false ∷ false ∷ false ∷ false ∷ false ∷ true ∷ [])

abbrev called : List Bool → Sha3TaintAnalysis
called stack = record (tainted stack) {
  ctxs =
      record {
        dirty_memory = [];
        dirty_storage = [];
        dirty_stack = false ∷ true ∷ [];
        input_data = [];
      }
      ∷ [];
}

on_return-call_example :
    (stack : List Bool) × (stack_pop_n 6 caller.dirty_stack ≡ some stack)
    × (on_return (called (false ∷ []))
        ≡ some (record caller { dirty_stack = false ∷ stack; tainted_jumpi = [] }))
unfolding on_step arm run_arm
on_return-call_example =
    on_return-call (at 0xf4 (0 ∷ 0 ∷ 0 ∷ 0 ∷ 0 ∷ 0 ∷ 9 ∷ [])) caller (called [])
      (called (false ∷ [])) 6 (omega arith) refl refl
      (step (at 0x5f []) (called []) (called (false ∷ [])) (called (false ∷ [])) (omega arith) refl
        refl (done (called (false ∷ []))))

on_step-total_example :
    (t : Sha3TaintAnalysis) × (on_step (at 0x01 three) (tainted (true ∷ false ∷ false ∷ []))
      ≡ some t)
unfolding evm_effect look_up is_stack_opcode
on_step-total_example =
    on_step-total (at 0x01 three) (tainted (true ∷ false ∷ false ∷ [])) 2 1 (omega arith) refl refl
      refl (omega arith)
