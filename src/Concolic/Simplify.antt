-- ===== src/Concolic/Simplify.antt =====
-- `simplify` of src/evm/concolic/expr.rs: two selects of adjacent bits of one expression under a
-- `CONCAT` become one select. `none` is a panic (an `unwrap` on a missing operand, the `assert!`).
pub mod Joins
pub mod Order
pub mod Laws
use ityfuzz.Prelude.{
  ℕ, ◌+◌, ◌%◌, ◌^◌, Bool, true, false, Option, none, some, ◌==◌, if◌then◌else◌, ◌>>=◌,
}
use ityfuzz.Concolic.Expr.{
  ConcolicOp, select, concat, Expr, leaf, unary, only_rhs, binary, mk_expr, expr_beq,
}

pub record ConcatOptCtx : Type 0 where
  pub low : ℕ
  pub high : ℕ
  pub on_expr : Option Expr

-- `u32` addition of one
abbrev pub next_bit : ℕ → ℕ
next_bit n = (n + 1) % 2 ^ 32

-- `other.on_expr != self.on_expr || other.on_expr.is_none() || self.on_expr.is_none()`
abbrev pub same_expr : Option Expr → Option Expr → Bool
same_expr (some x) (some y) = expr_beq y x
same_expr _ _ = false

-- The changed `self` and the answer.
unfoldable pub merge : ConcatOptCtx → ConcatOptCtx → ConcatOptCtx × Bool
merge self other =
    if same_expr self.on_expr other.on_expr
    then (if self.low == next_bit other.high
        then (record self { low = other.low }, true)
        else (if next_bit self.high == other.low
            then (record self { high = other.high }, true)
            else (self, false)))
    else (self, false)

abbrev pub no_ctx : ConcatOptCtx
no_ctx = record { low = 0; high = 0; on_expr = none }

abbrev pub Info : Type 0
Info = ConcatOptCtx × Expr

abbrev pub expr_of : Option Info → Option Expr
expr_of none = none
expr_of (some (ctx, e)) = some e

-- The `CONCAT` arm, on the contexts of the two operands.
abbrev pub join : ConcatOptCtx × Bool → Expr → Info
join (ctx, true) new_expr = (ctx, mk_expr ctx.on_expr none (select ctx.high ctx.low))
join (ctx, false) new_expr = (no_ctx, new_expr)

abbrev pub join_infos : Option Info → Option Info → Expr → Option Info
join_infos (some (lhs_ctx, l)) (some (rhs_ctx, r)) new_expr =
    some (join (merge lhs_ctx rhs_ctx) new_expr)
join_infos _ _ new_expr = none

-- The `SELECT` arm.
abbrev pub select_info : Option Info → ℕ → ℕ → Expr → Option Info
select_info none high low new_expr = none
select_info (some (ctx, l)) high low new_expr =
    some (record { low = low; high = high; on_expr = some l }, new_expr)

-- The `match op`.
unfoldable pub finish : ConcolicOp → Option Info → Option Info → Expr → Option Info
finish concat lhs_info rhs_info new_expr = join_infos lhs_info rhs_info new_expr
finish (select high low) lhs_info rhs_info new_expr = select_info lhs_info high low new_expr
finish _ lhs_info rhs_info new_expr = some (no_ctx, new_expr)

unfoldable pub simplify_node : Option Info → Option Info → ConcolicOp → Option Info
unfolding finish
simplify_node lhs_info rhs_info op =
    finish op lhs_info rhs_info (mk_expr (expr_of lhs_info) (expr_of rhs_info) op)

unfoldable pub simplify_concat_select_helper : Expr → Option Info
unfolding simplify_node
simplify_concat_select_helper (leaf op) = simplify_node none none op
simplify_concat_select_helper (unary l op) =
    simplify_concat_select_helper l >>= λ l_info. simplify_node (some l_info) none op
simplify_concat_select_helper (only_rhs r op) =
    simplify_concat_select_helper r >>= λ r_info. simplify_node none (some r_info) op
simplify_concat_select_helper (binary l r op) = simplify_concat_select_helper l >>= λ l_info.
    simplify_concat_select_helper r >>= λ r_info. simplify_node (some l_info) (some r_info) op

unfoldable pub simplify : Expr → Option Expr
simplify e = expr_of (simplify_concat_select_helper e)
