-- ===== src/Concolic/Solving/Limits.antt =====
-- Expressions and constraints that the simplification and the solver do not keep.
use ityfuzz.Prelude.{ℕ, ◌+◌, ◌≤◌, ◌<◌, ◌^◌, ◌≡◌, true, none, some, arith}
use ityfuzz.Concolic.Expr.{
  select, concat, Expr, leaf, unary, binary, evmu256, eq, lnot, expr_beq_refl,
}
use ityfuzz.Concolic.Simplify.{
  simplify, simplify_concat_select_helper, simplify_node, finish, merge,
}
use ityfuzz.Concolic.Simplify.Joins.{well_formed}
use ityfuzz.Concolic.Simplify.Order.{in_order}
use ityfuzz.Concolic.Simplify.Laws.{helper_lem}
use ityfuzz.Concolic.Solving.{Z3, Solving, bool, value, arm_value, generate_z3_bv}
use ityfuzz.Concolic.Solving.Adjoin.{Adjoins}
use ityfuzz.Concolic.Solving.Meaning.{simplify-value}
use ityfuzz.Concolic.Solving.Solve.{asserted, assertion_arm}

-- The bits of an expression from `low` to `mid`, and those above up to `high`
abbrev pub low_bits : Expr → ℕ → ℕ → Expr
low_bits x mid low = unary x (select mid low)

abbrev pub upper_bits : Expr → ℕ → ℕ → Expr
upper_bits x high mid = unary x (select high (mid + 1))

module _ {Bv Bo : Type 0} (z : Z3 Bv Bo) (self : Solving Bv) where
  -- Selects that stand in ascending order, the low bits to the left of the bits above them, are
  -- joined into what translates as the same selects in the other order.
  pub simplify-ascending :
      (x : Expr) (high mid low : ℕ)
      → Adjoins z
      → well_formed x ≡ true
      → in_order x ≡ true
      → low ≤ mid
      → mid < high
      → high + 1 < 2 ^ 32
      → (v : Expr) × (simplify (binary (low_bits x mid low) (upper_bits x high mid) concat)
          ≡ some v)
        × (value z self v
            ≡ value z self (binary (upper_bits x high mid) (low_bits x mid low) concat))
  unfolding simplify simplify_concat_select_helper simplify_node finish merge well_formed in_order
  simplify-ascending x high mid low law wf ord le lt top =
      let (cx, x', (run, _, _, _, _)) = helper_lem x wf in
      let (v, e, same) =
        simplify-value z self law (binary (upper_bits x high mid) (low_bits x mid low) concat)
          (ground arith) (ground (arith, run)) in
      (v, ground (arith, run, e, expr_beq_refl x'), same)

  -- A comparison is a Boolean; its comparison with a word, as ISZERO builds it, and the negations
  -- that a branch puts on that are passed over by the solver.
  pub asserted-iszero :
      (e : Expr) (t : Bo) (word : ℕ)
      → value z self e ≡ some (some (bool t))
      → ((asserted z self (binary e (leaf (evmu256 word)) eq)).1 ≡ some none)
        × ((asserted z self (unary (binary e (leaf (evmu256 word)) eq) lnot)).1 ≡ some none)
        × ((asserted z self (unary (unary (binary e (leaf (evmu256 word)) eq) lnot) lnot)).1
            ≡ some none)
  unfolding asserted assertion_arm generate_z3_bv arm_value
  asserted-iszero e t word h = (ground (arith, h), ground (arith, h), ground (arith, h))
