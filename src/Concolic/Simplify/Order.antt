-- ===== src/Concolic/Simplify/Order.antt =====
-- Expressions whose selects are joined in order, high bits first.
use ityfuzz.Prelude.{
  ◌+◌, ◌≤◌, ◌<◌, ◌^◌, ◌⊎◌, inl, inr, ◌≡◌, Bool, true, false, ◌&&◌, not as negb, Option, none, some,
  ◌==◌, ltb, leb, arith, Option-cases,
}
use ityfuzz.Concolic.Expr.{ConcolicOp, select, concat, Expr, leaf, unary, only_rhs, binary}
use ityfuzz.Concolic.Simplify.{
  ConcatOptCtx, Info, next_bit, same_expr, simplify_concat_select_helper,
}

-- The bits of a `SELECT` are given from the high one to the low one, and are `u32`.
abbrev pub proper : ConcolicOp → Bool
proper (select high low) = leb low high && ltb (high + 1) (2 ^ 32)
proper _ = true

-- A `CONCAT` of selects of one expression whose right select takes the bits above the left one.
abbrev pub ascends : ConcolicOp → Option Info → Option Info → Bool
ascends concat (some (lc, l)) (some (rc, r)) =
    same_expr lc.on_expr rc.on_expr && next_bit lc.high == rc.low
ascends _ _ _ = false

-- No `CONCAT` joins, after its operands are simplified, bits in ascending order.
unfoldable pub in_order : Expr → Bool
in_order (leaf op) = true
in_order (unary l op) = in_order l && proper op
in_order (only_rhs r op) = in_order r
in_order (binary l r op) =
    in_order l
    && (in_order r
        && negb (ascends op (simplify_concat_select_helper l) (simplify_concat_select_helper r)))

abbrev pub Proper : ConcatOptCtx → Type 0
Proper ctx = (ctx.on_expr ≡ none) ⊎ ((ctx.low ≤ ctx.high) × (ctx.high + 1 < 2 ^ 32))

pub Proper-pair :
    (lc rc : ConcatOptCtx)
    → Proper lc
    → Proper rc
    → same_expr lc.on_expr rc.on_expr ≡ true
    → (lc.low ≤ lc.high) × (lc.high + 1 < 2 ^ 32) × (rc.low ≤ rc.high) × (rc.high + 1 < 2 ^ 32)
Proper-pair lc rc (inl q) pr h = absurd (ground (arith, q))
Proper-pair lc rc (inr (le, lt)) (inr (le', lt')) h = (le, lt, le', lt')
Proper-pair lc rc (inr p) (inl q) h = elim (Option-cases lc.on_expr) [
  | inl e ↦ absurd (ground (arith, e))
  | inr (x, e) ↦ absurd (ground (arith, q, e))
]
