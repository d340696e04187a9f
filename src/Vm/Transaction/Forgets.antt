-- ===== src/Vm/Transaction/Forgets.antt =====
-- What the frames of one suspended execution see of each other.
use ityfuzz.Prelude.{ℕ, ◌≡◌, refl, Bool, true, false, Option, some, List, ◌∷◌}
use ityfuzz.Vm.State.{CallContext, SinglePostExecution, get_call_ctx, EvmState}
use ityfuzz.Vm.Executor.{VmHost, Input, Intermediate, Machine, execute_from_pc}
use ityfuzz.Vm.Transaction.{run_frames}

execute_from_pc_forget :
    (m : Machine) (ctx : CallContext) (s t : EvmState) (bytes : List ℕ) (input : Input)
    (pe : Option SinglePostExecution) (cleanup : Bool) (host : VmHost)
    → execute_from_pc m ctx s bytes input pe cleanup (record host { evmstate = t })
      ≡ execute_from_pc m ctx s bytes input pe cleanup host
unfolding execute_from_pc
execute_from_pc_forget m ctx s t bytes input pe true host = refl
execute_from_pc_forget m ctx s t bytes input pe false host = refl

-- The frames that are left of a suspended execution run as if the frame before had left any other
-- state: what it wrote to the storage and the balances is lost.
pub run_frames_forget :
    (m : Machine) (pe : SinglePostExecution) (pes : List SinglePostExecution) (bytes : List ℕ)
    (s t : EvmState) (input : Input) (cleanup : Bool) (host : VmHost)
    (local_res : Option Intermediate)
    → run_frames m (pe ∷ pes) bytes s input cleanup (record host { evmstate = t }) local_res
      ≡ run_frames m (pe ∷ pes) bytes s input cleanup host local_res
unfolding run_frames
run_frames_forget m pe pes bytes s t input cleanup host local_res =
    let pushed = record pe { stack = m.push 1 pe.stack } in
    rw (execute_from_pc_forget m (get_call_ctx pushed) s t bytes input (some pushed) cleanup host)
      refl
