-- ===== src/Concolic/Simplify/Laws.antt =====
-- What `simplify` keeps of an expression, and that it is done after one run.
use ityfuzz.Prelude.{
  ◌≤◌, inl, inr, ◌≡◌, refl, sym, ap, ◌∙◌, Bool, true, false, Option, none, some, arith,
}
use ityfuzz.Concolic.Expr.{
  ConcolicOp, select, concat, Expr, leaf, unary, only_rhs, binary, depth, is_concrete, lazy_and,
}
use ityfuzz.Concolic.Simplify.{
  ConcatOptCtx, no_ctx, finish, simplify_node, simplify_concat_select_helper, simplify,
}
use ityfuzz.Concolic.Simplify.Joins.{fits, well_formed, Backs, join-cases, finish-cases}

lazy_and_same : (b : Option Bool) → lazy_and b b ≡ b
lazy_and_same none = refl
lazy_and_same (some true) = refl
lazy_and_same (some false) = refl

abbrev Simplifies : Expr → ConcatOptCtx → Expr → Type 0
Simplifies e ctx v =
    (simplify_concat_select_helper e ≡ some (ctx, v))
    × (simplify_concat_select_helper v ≡ some (ctx, v))
    × Backs ctx v
    × (depth v ≤ depth e)
    × (is_concrete v ≡ is_concrete e)

leaf-Simplifies :
    (op : ConcolicOp)
    → well_formed (leaf op) ≡ true
    → (ctx : ConcatOptCtx) × (v : Expr) × Simplifies (leaf op) ctx v
unfolding well_formed simplify_concat_select_helper simplify_node finish
leaf-Simplifies op wf = elim (finish-cases op) [
  | inl q ↦ absurd (ground (arith, q))
  | inr (inl (high, low, q)) ↦ absurd (ground (arith, q))
  | inr (inr plain) ↦
      let run = plain none none (leaf op) in
      (no_ctx, leaf op, (run, run, inl refl, omega arith, refl))
]

unary-Simplifies :
    (l : Expr) (op : ConcolicOp)
    → fits op true false ≡ true
    → (ctx : ConcatOptCtx) × (v : Expr) × Simplifies l ctx v
    → (ctx : ConcatOptCtx) × (v : Expr) × Simplifies (unary l op) ctx v
unfolding simplify_concat_select_helper simplify_node finish depth is_concrete
unary-Simplifies l op fit (cl, l', (run, again, backs, dl, kl)) = elim (finish-cases op) [
  | inl q ↦ absurd (ground (arith, q))
  | inr (inl (high, low, q)) ↦ (
    record { low = low; high = high; on_expr = some l' },
    unary l' (select high low),
    (
      ground (arith, q, run),
      ground (arith, again),
      inr (l', cl, refl, refl, again),
      omega (arith, dl),
      kl,
    ),
  )
  | inr (inr plain) ↦ (
    no_ctx,
    unary l' op,
    (
      ground (arith, run, plain (some (cl, l')) none (unary l' op)),
      ground (arith, again, plain (some (cl, l')) none (unary l' op)),
      inl refl,
      omega (arith, dl),
      kl,
    ),
  )
]

binary-Simplifies :
    (l r : Expr) (op : ConcolicOp)
    → fits op true true ≡ true
    → (ctx : ConcatOptCtx) × (v : Expr) × Simplifies l ctx v
    → (ctx : ConcatOptCtx) × (v : Expr) × Simplifies r ctx v
    → (ctx : ConcatOptCtx) × (v : Expr) × Simplifies (binary l r op) ctx v
unfolding simplify_concat_select_helper simplify_node finish depth is_concrete
binary-Simplifies l r op fit (cl, l', (run, again, bl, dl, kl))
      (cr, r', (run', again', br, dr, kr)) =
    elim (finish-cases op) [
      | inr (inl (high, low, q)) ↦ absurd (ground (arith, q))
      | inr (inr plain) ↦
          let node = plain (some (cl, l')) (some (cr, r')) (binary l' r' op) in
          (
            no_ctx,
            binary l' r' op,
            (
              ground (arith, run, run', node),
              ground (arith, again, again', node),
              inl refl,
              omega (arith, dl, dr),
              ground (arith, kl, kr),
            ),
          )
      | inl q ↦ elim (join-cases cl cr l' r' (binary l' r' concat) bl br) [
        | inl apart ↦ (
          no_ctx,
          binary l' r' concat,
          (
            ground (arith, q, run, run', apart),
            ground (arith, again, again', apart),
            inl refl,
            omega (arith, dl, dr),
            ground (arith, kl, kr),
          ),
        )
        | inr (x, cx, c, j, on, el, er, hx, _, _) ↦
            let dl' = ap depth el in
            let kl' = sym (ap is_concrete el) ∙ kl in
            let kr' = sym (ap is_concrete er) ∙ kr in
            (
              c,
              unary x (select c.high c.low),
              (
                ground (arith, q, run, run', j),
                ground (arith, hx, on),
                inr (x, cx, on, refl, hx),
                omega (arith, dl', dl),
                ground (arith, kl', kr', lazy_and_same (is_concrete x)),
              ),
            )
      ]
    ]

pub helper_lem :
    (e : Expr) → well_formed e ≡ true → (ctx : ConcatOptCtx) × (v : Expr) × Simplifies e ctx v
unfolding well_formed
helper_lem (leaf op) wf = leaf-Simplifies op wf
helper_lem (unary l op) wf = unary-Simplifies l op (ground arith) (helper_lem l (ground arith))
helper_lem (only_rhs r op) wf = cc
helper_lem (binary l r op) wf =
    binary-Simplifies l r op (ground arith) (helper_lem l (ground arith))
      (helper_lem r (ground arith))

-- A well-formed expression is simplified without a panic; the result is no deeper, it is concrete
-- where the expression was, and to simplify it again changes nothing.
pub simplify_lem :
    (e : Expr)
    → well_formed e ≡ true
    → (v : Expr) × (simplify e ≡ some v)
      × (depth v ≤ depth e)
      × (is_concrete v ≡ is_concrete e)
      × (simplify v ≡ some v)
unfolding simplify
simplify_lem e wf =
    let (ctx, v, (run, again, _, le, same)) = helper_lem e wf in
    (v, ground (arith, run), le, same, ground (arith, again))
