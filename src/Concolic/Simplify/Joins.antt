-- ===== src/Concolic/Simplify/Joins.antt =====
-- The arms of the helper: which expressions are fit for it, and when two selects are joined.
use ityfuzz.Prelude.{
  ℕ, ◌⊎◌, inl, inr, ◌≡◌, refl, Bool, true, false, ◌&&◌, not as negb, Option, none, some, ◌==◌,
  arith, Bool-cases,
}
use ityfuzz.Concolic.Expr.{
  evmu256, add, div, mul, sub, sdiv, smod, urem, srem, and, or, xor, not, shl, shr, sar,
  slicedinput, balance, callvalue, caller, origin, symbyte, constbyte, finegrainedinput, eq, lt,
  slt, gt, sgt, lnot, ConcolicOp, select, concat, Expr, leaf, unary, only_rhs, binary, expr_beq,
  expr_beq-eq,
}
use ityfuzz.Concolic.Simplify.{
  same_expr, ConcatOptCtx, Info, no_ctx, next_bit, merge, join, finish,
  simplify_concat_select_helper,
}

-- A `CONCAT` has two operands, a `SELECT` has the left one alone; nothing builds an
-- expression with the right one alone.
abbrev pub fits : ConcolicOp → Bool → Bool → Bool
fits concat l r = l && r
fits (select high low) l r = l && negb r
fits _ l r = true

unfoldable pub well_formed : Expr → Bool
well_formed (leaf op) = fits op false false
well_formed (unary l op) = fits op true false && well_formed l
well_formed (only_rhs r op) = false
well_formed (binary l r op) = fits op true true && (well_formed l && well_formed r)

-- A context that names an expression is that of a select of the expression, itself simplified.
abbrev pub Backs : ConcatOptCtx → Expr → Type 0
Backs ctx e =
    (ctx.on_expr ≡ none)
    ⊎ ((x : Expr) × (cx : ConcatOptCtx) × (ctx.on_expr ≡ some x)
        × (e ≡ unary x (select ctx.high ctx.low))
        × (simplify_concat_select_helper x ≡ some (cx, x)))

-- The two ways in which selects are joined: the right one below the left one, and above it.
abbrev pub Below : ConcatOptCtx → ConcatOptCtx → ConcatOptCtx → Type 0
Below lc rc c = (lc.low ≡ next_bit rc.high) × (c.high ≡ lc.high) × (c.low ≡ rc.low)

abbrev pub Above : ConcatOptCtx → ConcatOptCtx → ConcatOptCtx → Type 0
Above lc rc c = (next_bit lc.high ≡ rc.low) × (c.high ≡ rc.high) × (c.low ≡ lc.low)

abbrev pub Joined : ConcatOptCtx → ConcatOptCtx → Expr → Expr → Expr → Type 0
Joined lc rc l r e =
    (x : Expr) × (cx : ConcatOptCtx) × (c : ConcatOptCtx) × (join (merge lc rc) e
      ≡ (c, unary x (select c.high c.low)))
    × (c.on_expr ≡ some x)
    × (l ≡ unary x (select lc.high lc.low))
    × (r ≡ unary x (select rc.high rc.low))
    × (simplify_concat_select_helper x ≡ some (cx, x))
    × (same_expr lc.on_expr rc.on_expr ≡ true)
    × (Below lc rc c ⊎ Above lc rc c)

pub join-cases :
    (lc rc : ConcatOptCtx) (l r e : Expr)
    → Backs lc l
    → Backs rc r
    → (join (merge lc rc) e ≡ (no_ctx, e)) ⊎ Joined lc rc l r e
unfolding merge
join-cases lc rc l r e (inl q) br = inl (ground (arith, q))
join-cases lc rc l r e (inr (x, cx, q, _, _)) (inl p) = inl (ground (arith, q, p))
join-cases lc rc l r e (inr (x, cx, q, el, hx)) (inr (y, cy, p, er, hy)) =
    elim (Bool-cases (expr_beq y x)) [
      | inr other ↦ inl (ground (arith, q, p))
      | inl same ↦
          let er' : r ≡ unary x (select rc.high rc.low) = ground (arith, expr_beq-eq y x same) in
          elim (Bool-cases (lc.low == next_bit rc.high)) [
            | inl below ↦ inr (
              x,
              cx,
              record lc { low = rc.low },
              ground (arith, q, p),
              q,
              el,
              er',
              hx,
              ground (arith, q, p),
              inl (ground arith, refl, refl),
            )
            | inr not_below ↦ elim (Bool-cases (next_bit lc.high == rc.low)) [
              | inl above ↦ inr (
                x,
                cx,
                record lc { high = rc.high },
                ground (arith, q, p),
                q,
                el,
                er',
                hx,
                ground (arith, q, p),
                inr (ground arith, refl, refl),
              )
              | inr not_above ↦ inl (ground (arith, q, p))
            ]
          ]
    ]

-- The operations that have no arm of their own
pub finish-cases :
    (op : ConcolicOp)
    → (op ≡ concat)
      ⊎ ((high : ℕ) × (low : ℕ) × (op ≡ select high low))
      ⊎ ((li ri : Option Info) (e : Expr) → finish op li ri e ≡ some (no_ctx, e))
unfolding finish
finish-cases (evmu256 _) = inr (inr (λ li ri e. refl))
finish-cases add = inr (inr (λ li ri e. refl))
finish-cases div = inr (inr (λ li ri e. refl))
finish-cases mul = inr (inr (λ li ri e. refl))
finish-cases sub = inr (inr (λ li ri e. refl))
finish-cases sdiv = inr (inr (λ li ri e. refl))
finish-cases smod = inr (inr (λ li ri e. refl))
finish-cases urem = inr (inr (λ li ri e. refl))
finish-cases srem = inr (inr (λ li ri e. refl))
finish-cases and = inr (inr (λ li ri e. refl))
finish-cases or = inr (inr (λ li ri e. refl))
finish-cases xor = inr (inr (λ li ri e. refl))
finish-cases not = inr (inr (λ li ri e. refl))
finish-cases shl = inr (inr (λ li ri e. refl))
finish-cases shr = inr (inr (λ li ri e. refl))
finish-cases sar = inr (inr (λ li ri e. refl))
finish-cases (slicedinput _) = inr (inr (λ li ri e. refl))
finish-cases balance = inr (inr (λ li ri e. refl))
finish-cases callvalue = inr (inr (λ li ri e. refl))
finish-cases caller = inr (inr (λ li ri e. refl))
finish-cases origin = inr (inr (λ li ri e. refl))
finish-cases (symbyte _) = inr (inr (λ li ri e. refl))
finish-cases (constbyte _) = inr (inr (λ li ri e. refl))
finish-cases (finegrainedinput _ _) = inr (inr (λ li ri e. refl))
finish-cases eq = inr (inr (λ li ri e. refl))
finish-cases lt = inr (inr (λ li ri e. refl))
finish-cases slt = inr (inr (λ li ri e. refl))
finish-cases gt = inr (inr (λ li ri e. refl))
finish-cases sgt = inr (inr (λ li ri e. refl))
finish-cases lnot = inr (inr (λ li ri e. refl))
finish-cases (select high low) = inr (inl (high, low, refl))
finish-cases concat = inl refl
