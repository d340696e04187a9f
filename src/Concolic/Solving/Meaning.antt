-- ===== src/Concolic/Solving/Meaning.antt =====
-- That `simplify` keeps the translation of an expression.
use ityfuzz.Prelude.{◌+◌, inl, inr, ◌≡◌, refl, sym, ap, ◌∙◌, true, false, none, some, arith}
use ityfuzz.Concolic.Expr.{ConcolicOp, select, concat, Expr, leaf, unary, only_rhs, binary}
use ityfuzz.Concolic.Simplify.{
  ConcatOptCtx, same_expr, finish, simplify_node, simplify_concat_select_helper, simplify,
}
use ityfuzz.Concolic.Simplify.Joins.{well_formed, fits, join-cases, finish-cases}
use ityfuzz.Concolic.Simplify.Laws.{helper_lem}
use ityfuzz.Concolic.Solving.{Z3, Solving, value}
use ityfuzz.Concolic.Simplify.Order.{ascends, proper, in_order, Proper, Proper-pair}
use ityfuzz.Concolic.Simplify.Joins.{Backs, Below}
use ityfuzz.Concolic.Solving.Adjoin.{Adjoins, unary_same, binary_same, joined_same}

module _ {Bv Bo : Type 0} (z : Z3 Bv Bo) (self : Solving Bv) (adjoining : Adjoins z) where
  leaf_meaning :
      (op : ConcolicOp) (ctx : ConcatOptCtx) (v : Expr)
      → fits op false false ≡ true
      → simplify_node none none op ≡ some (ctx, v)
      → Proper ctx × (value z self v ≡ value z self (leaf op))
  unfolding simplify_node finish
  leaf_meaning op ctx v fit run = elim (finish-cases op) [
    | inl q ↦ absurd (ground (arith, q))
    | inr (inl (high, low, q)) ↦ absurd (ground (arith, q))
    | inr (inr plain) ↦
        let node = plain none none (leaf op) in
        (inl (ground (arith, node)), ap (value z self) (ground (arith, node)))
  ]

  unary_meaning :
      (l l' : Expr) (op : ConcolicOp) (cl ctx : ConcatOptCtx) (v : Expr)
      → fits op true false ≡ true
      → proper op ≡ true
      → simplify_node (some (cl, l')) none op ≡ some (ctx, v)
      → value z self l' ≡ value z self l
      → Proper ctx × (value z self v ≡ value z self (unary l op))
  unfolding simplify_node finish
  unary_meaning l l' op cl ctx v fit bits run same = elim (finish-cases op) [
    | inl q ↦ absurd (ground (arith, q))
    | inr (inl (high, low, q)) ↦
        (inr (ground arith), unary_same z self adjoining l l' v op same (ground (arith, q, run)))
    | inr (inr plain) ↦
        let node = plain (some (cl, l')) none (unary l' op) in
        (
          inl (ground (arith, node)),
          unary_same z self adjoining l l' v op same (ground (arith, node)),
        )
  ]

  Below-meaning :
      (l r l' r' x : Expr) (cl cr c : ConcatOptCtx)
      → Below cl cr c
      → same_expr cl.on_expr cr.on_expr ≡ true
      → Proper cl
      → Proper cr
      → l' ≡ unary x (select cl.high cl.low)
      → r' ≡ unary x (select cr.high cr.low)
      → value z self l' ≡ value z self l
      → value z self r' ≡ value z self r
      → Proper c × (value z self (unary x (select c.high c.low)) ≡ value z self (binary l r concat))
  Below-meaning l r l' r' x cl cr c (m, hi, lo) se pl pr el er same_l same_r =
      let (le_l, lt_l, le_r, lt_r) = Proper-pair cl cr pl pr se in
      let mid : cl.low ≡ cr.high + 1 = omega (arith, m) in
      (
        inr (omega (arith, hi, lo), omega (arith, hi)),
        joined_same z self adjoining l r l' r' x (unary x (select c.high c.low)) concat cl.high
            cr.high cr.low refl le_r (omega (arith, mid, le_l)) same_l same_r
            (ground (arith, mid, el)) er (ground (arith, hi, lo)),
      )

  binary_meaning :
      (l r l' r' : Expr) (op : ConcolicOp) (cl cr ctx : ConcatOptCtx) (v : Expr)
      → fits op true true ≡ true
      → ascends op (some (cl, l')) (some (cr, r')) ≡ false
      → simplify_node (some (cl, l')) (some (cr, r')) op ≡ some (ctx, v)
      → Backs cl l'
      → Backs cr r'
      → Proper cl
      → Proper cr
      → value z self l' ≡ value z self l
      → value z self r' ≡ value z self r
      → Proper ctx × (value z self v ≡ value z self (binary l r op))
  unfolding simplify_node finish
  binary_meaning l r l' r' op cl cr ctx v fit ord run bl br pl pr same_l same_r =
      elim (finish-cases op) [
        | inr (inl (high, low, q)) ↦ absurd (ground (arith, q))
        | inr (inr plain) ↦
            let node = plain (some (cl, l')) (some (cr, r')) (binary l' r' op) in
            (
              inl (ground (arith, node)),
              binary_same z self adjoining l r l' r' v op same_l same_r (ground (arith, node)),
            )
        | inl q ↦ elim (join-cases cl cr l' r' (binary l' r' concat) bl br) [
          | inl apart ↦ (
            inl (ground (arith, q, apart)),
            binary_same z self adjoining l r l' r' v op same_l same_r (ground (arith, q, apart)),
          )
          | inr (x, cx, c, j, on, el, er, hx, se, inr (m, _, _)) ↦ absurd (ground (arith, q, se, m))
          | inr (x, cx, c, j, on, el, er, hx, se, inl below) ↦
              let (pc, vc) = Below-meaning l r l' r' x cl cr c below se pl pr el er same_l same_r in
              let ec : ctx ≡ c = ground (arith, q, j) in
              let ev : v ≡ unary x (select c.high c.low) = ground (arith, q, j) in
              (
                ground (arith, pc, ec),
                ap (value z self) ev ∙ (vc ∙ ap (λ o. value z self (binary l r o)) (sym q)),
              )
        ]
      ]

  helper-value :
      (e : Expr) (ctx : ConcatOptCtx) (v : Expr)
      → well_formed e ≡ true
      → in_order e ≡ true
      → simplify_concat_select_helper e ≡ some (ctx, v)
      → Proper ctx × (value z self v ≡ value z self e)
  unfolding simplify_concat_select_helper well_formed in_order
  helper-value (leaf op) ctx v wf ord run = leaf_meaning op ctx v wf run
  helper-value (unary l op) ctx v wf ord run =
      let (cl, l', (run_l, _, _, _, _)) = helper_lem l (ground arith) in
      let (_, same) = helper-value l cl l' (ground arith) (ground arith) run_l in
      unary_meaning l l' op cl ctx v (ground arith) (ground arith) (ground (arith, run_l)) same
  helper-value (only_rhs r op) ctx v wf ord run = absurd cc
  helper-value (binary l r op) ctx v wf ord run =
      let (cl, l', (run_l, _, bl, _, _)) = helper_lem l (ground arith) in
      let (cr, r', (run_r, _, br, _, _)) = helper_lem r (ground arith) in
      let (pl, same_l) = helper-value l cl l' (ground arith) (ground arith) run_l in
      let (pr, same_r) = helper-value r cr r' (ground arith) (ground arith) run_r in
      binary_meaning l r l' r' op cl cr ctx v (ground arith) (ground (arith, run_l, run_r))
        (ground (arith, run_l, run_r)) bl br pl pr same_l same_r

  -- A well-formed expression and what `simplify` makes of it translate to the same Z3 term, where
  -- the selects that it joins stand in order, high bits first.
  pub simplify-value :
      (e : Expr)
      → well_formed e ≡ true
      → in_order e ≡ true
      → (v : Expr) × (simplify e ≡ some v) × (value z self v ≡ value z self e)
  unfolding simplify
  simplify-value e wf ord =
      let (ctx, v, (run, _, _, _, _)) = helper_lem e wf in
      let (_, same) = helper-value e ctx v wf ord run in (v, ground (arith, run), same)
