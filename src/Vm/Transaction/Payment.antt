-- ===== src/Vm/Transaction/Payment.antt =====
-- The balances before and after the payment.
use ityfuzz.Prelude.{
  ℕ, ◌+◌, ◌-◌, ◌%◌, ◌^◌, ◌≤◌, ◌<◌, ◌≡◌, ◌≢◌, none, some, List, ◌==◌, if◌then◌else◌, arith, get,
  insert, get-insert, nat_eq, or_default, total, total-insert_new, total-insert_old, Option-cases,
  inl, inr,
}
use ityfuzz.Vm.State.{EvmState, set_balance}
use ityfuzz.Vm.Executor.{Input}
use ityfuzz.Vm.Transaction.{pay}

abbrev pub balance_of : ℕ → EvmState → ℕ
balance_of a s = or_default 0 (get a s.balance)

abbrev pub identity : ℕ → ℕ
identity v = v

-- All the balances together
abbrev pub total_balance : EvmState → ℕ
total_balance s = total identity s.balance

total-set :
    (k v : ℕ) (m : List (ℕ × ℕ))
    → total identity (insert k v m) + or_default 0 (get k m) ≡ total identity m + v
total-set k v m = elim (Option-cases (get k m)) [
  | inl absent ↦ ground (arith, total-insert_new identity k v m)
  | inr (w, there) ↦ ground (arith, total-insert_old identity k v w m)
]

balance_at :
    (k j v : ℕ) (m : List (ℕ × ℕ))
    → or_default 0 (get j (insert k v m)) ≡ (if k == j then v else or_default 0 (get j m))
balance_at k j v m = ground (arith, get-insert k j v m)

-- A payment needs the balance of the caller. To another account it leaves the total the same; a
-- caller that pays itself ends with the value more.
pub pay_lem :
    (input : Input) (s : EvmState) (v : ℕ)
    → input.txn_value ≡ some v
    → 0 < v
    → balance_of input.contract s + v < 2 ^ 256
    → ((pay input s ≡ none) → balance_of input.caller s < v)
      × (v ≤ balance_of input.caller s
          → (s' : EvmState) × (pay input s ≡ some s')
            × (input.caller ≢ input.contract
                → (total_balance s' ≡ total_balance s)
                  × (balance_of input.contract s' ≡ balance_of input.contract s + v)
                  × (balance_of input.caller s' + v ≡ balance_of input.caller s))
            × (input.caller ≡ input.contract
                → balance_of input.caller s' ≡ balance_of input.caller s + v))
unfolding pay set_balance
pay_lem input s v h pos room = (
  λ failed. ground (arith, h, failed),
  λ enough.
      let caller_balance = balance_of input.caller s in
      let contract_balance = balance_of input.contract s in
      let paid = insert input.caller (caller_balance - v) s.balance in
      let moved = total-set input.caller (caller_balance - v) s.balance in
      let received = total-set input.contract (contract_balance + v) paid in
      let other_contract = balance_at input.caller input.contract (caller_balance - v) s.balance in
      let paid_at = balance_at input.caller input.caller (caller_balance - v) s.balance in
      let fits : (contract_balance + v) % 2 ^ 256 ≡ contract_balance + v = omega arith in
      (
        set_balance input.contract ((contract_balance + v) % 2 ^ 256)
            (set_balance input.caller (caller_balance - v) s),
        ground (arith, h),
        λ apart. (
          ground (arith, moved, received, other_contract),
          ground (arith, balance_at input.contract input.contract (contract_balance + v) paid),
          ground
              (arith, paid_at, balance_at input.contract input.caller (contract_balance + v) paid),
        ),
        λ same. ground (arith, balance_at input.contract input.caller (contract_balance + v) paid),
      ),
)
