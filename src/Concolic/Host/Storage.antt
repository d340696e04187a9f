-- ===== src/Concolic/Host/Storage.antt =====
-- What a load from the symbolic storage finds after a store.
use ityfuzz.Prelude.{
  ℕ, ◌≡◌, refl, ap, ◌∙◌, false, some, List, ◌∷◌, arith, ◌>>=◌, drop, insert, get, get-insert,
  beq_refl, nat_eq,
}
use ityfuzz.Concolic.Expr.{ConcolicOp, Expr, is_concrete}
use ityfuzz.Concolic.Host.{on_step, run_arm, push_all, popped}
use ityfuzz.Concolic.Host.State.{Interp, ConcolicHost, stack_bv}
use ityfuzz.Concolic.Host.Opcodes.{sload, sstore, arm_of, find_arm}
use ityfuzz.Concolic.Host.Effects.{full_arm, on_step-full_arm}

module _ (debug : ConcolicOp → List ℕ) (interp : Interp) (host : ConcolicHost) where
  sstore-host :
      (key value : ℕ) (below : List ℕ) (e : Expr)
      → interp.stack ≡ key ∷ value ∷ below
      → stack_bv interp host 0 ≡ some e
      → full_arm debug sstore interp host
        ≡ some
            (popped 2 (record host { symbolic_state = insert value (some e) host.symbolic_state }))
  unfolding full_arm run_arm push_all
  sstore-host key value below e st h = ground (arith, st, h)

  sload-host :
      (key : ℕ) (below : List ℕ) (e : Expr)
      → interp.stack ≡ key ∷ below
      → get key host.symbolic_state ≡ some (some e)
      → is_concrete e ≡ some false
      → full_arm debug sload interp host
        ≡ some (record host { symbolic_stack = some e ∷ drop 1 host.symbolic_stack })
  unfolding full_arm run_arm push_all
  sload-host key below e st h k = ground (arith, st, h, k)

sload_opcode : arm_of 0x54 ≡ sload
unfolding arm_of find_arm
sload_opcode = refl

sstore_opcode : arm_of 0x55 ≡ sstore
unfolding arm_of find_arm
sstore_opcode = refl

step_at :
    (debug : ConcolicOp → List ℕ) (interp : Interp) (host : ConcolicHost) (op : ℕ)
    → interp.opcode ≡ op
    → on_step debug interp host ≡ full_arm debug (arm_of op) interp host
step_at debug interp host op e =
    on_step-full_arm debug interp host ∙ ap (λ o. full_arm debug (arm_of o) interp host) e

-- SSTORE with a key above a value, and a later SLOAD of the key that is that VALUE: the load finds
-- the expression of the key, where that depends on the input.
pub sload-sstore :
    (debug : ConcolicOp → List ℕ) (store load : Interp) (host : ConcolicHost) (key value : ℕ)
    (below below' : List ℕ) (e : Expr)
    → store.opcode ≡ 0x55
    → load.opcode ≡ 0x54
    → store.stack ≡ key ∷ value ∷ below
    → load.stack ≡ value ∷ below'
    → stack_bv store host 0 ≡ some e
    → is_concrete e ≡ some false
    → (on_step debug store host >>= on_step debug load)
      ≡ some (record host {
        symbolic_stack = some e ∷ drop 1 (drop 2 host.symbolic_stack);
        symbolic_state = insert value (some e) host.symbolic_state;
      })
sload-sstore debug store load host key value below below' e so lo st st' h k =
    let after =
      popped 2 (record host { symbolic_state = insert value (some e) host.symbolic_state }) in
    let stored : on_step debug store host ≡ some after =
      step_at debug store host 0x55 so
      ∙ (ap (λ a. full_arm debug a store host) sstore_opcode
          ∙ sstore-host debug store host key value below e st h) in
    let found : get value after.symbolic_state ≡ some (some e) =
      get-insert value value (some e) host.symbolic_state ∙ ground (arith, beq_refl value) in
    let loaded =
      step_at debug load after 0x54 lo
      ∙ (ap (λ a. full_arm debug a load after) sload_opcode
          ∙ sload-host debug load after value below' e st' found k) in
    ap (λ o. o >>= on_step debug load) stored ∙ loaded
