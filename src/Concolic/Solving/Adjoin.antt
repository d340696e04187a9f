-- ===== src/Concolic/Solving/Adjoin.antt =====
-- The translation of joined and of rebuilt expressions.
use ityfuzz.Prelude.{ℕ, ◌+◌, ◌≤◌, ◌<◌, ◌≡◌, refl, sym, ap, ◌∙◌, none, some}
use ityfuzz.Concolic.Expr.{ConcolicOp, select, concat, Expr, unary, binary}
use ityfuzz.Concolic.Solving.{
  Z3, Solving, bv, bool, Value, arm_value, generate_z3_bv, value, extracted, binop,
}

-- SMT-LIB: two adjoining extracts of one bit vector, concatenated, are the extract of both.
abbrev pub Adjoins : {Bv Bo : Type 0} → Z3 Bv Bo → Type 0
Adjoins {Bv = Bv} z =
    (high mid low : ℕ) (x : Bv)
    → low ≤ mid
    → mid < high
    → z.bv_concat (z.bv_extract high (mid + 1) x) (z.bv_extract mid low x) ≡ z.bv_extract high low x

module _ {Bv Bo : Type 0} (z : Z3 Bv Bo) (self : Solving Bv) (adjoining : Adjoins z) where
  joined_value :
      (high mid low : ℕ) (x : Value z self)
      → low ≤ mid
      → mid < high
      → binop z self z.bv_concat (extracted z self high (mid + 1) x) (extracted z self mid low x)
        ≡ extracted z self high low x
  joined_value high mid low none le lt = refl
  joined_value high mid low (some none) le lt = refl
  joined_value high mid low (some (some (bool b))) le lt = refl
  joined_value high mid low (some (some (bv x))) le lt =
      ap (λ (y : Bv). some (some (bv y))) (adjoining high mid low x le lt)

  value-unary :
      (l : Expr) (op : ConcolicOp)
      → value z self (unary l op) ≡ arm_value z self op (value z self l) none
  unfolding generate_z3_bv
  value-unary l op = refl

  value-binary :
      (l r : Expr) (op : ConcolicOp)
      → value z self (binary l r op) ≡ arm_value z self op (value z self l) (value z self r)
  unfolding generate_z3_bv
  value-binary l r op = refl

  pub unary_same :
      (l l' v : Expr) (op : ConcolicOp)
      → value z self l' ≡ value z self l
      → v ≡ unary l' op
      → value z self v ≡ value z self (unary l op)
  unary_same l l' v op same e =
      ap (value z self) e
      ∙ (value-unary l' op ∙ (ap (λ y. arm_value z self op y none) same ∙ sym (value-unary l op)))

  pub binary_same :
      (l r l' r' v : Expr) (op : ConcolicOp)
      → value z self l' ≡ value z self l
      → value z self r' ≡ value z self r
      → v ≡ binary l' r' op
      → value z self v ≡ value z self (binary l r op)
  binary_same l r l' r' v op same_l same_r e =
      ap (value z self) e
      ∙ (value-binary l' r' op
          ∙ (ap (λ y. arm_value z self op y (value z self r')) same_l
              ∙ (ap (arm_value z self op (value z self l)) same_r ∙ sym (value-binary l r op))))

  -- Two selects that are joined
  pub joined_same :
      (l r l' r' x v : Expr) (op : ConcolicOp) (high mid low : ℕ)
      → op ≡ concat
      → low ≤ mid
      → mid < high
      → value z self l' ≡ value z self l
      → value z self r' ≡ value z self r
      → l' ≡ unary x (select high (mid + 1))
      → r' ≡ unary x (select mid low)
      → v ≡ unary x (select high low)
      → value z self v ≡ value z self (binary l r op)
  unfolding arm_value
  joined_same l r l' r' x v op high mid low q le lt same_l same_r el er ev =
      let vl : value z self l ≡ extracted z self high (mid + 1) (value z self x) =
        sym same_l ∙ (ap (value z self) el ∙ value-unary x (select high (mid + 1))) in
      let vr : value z self r ≡ extracted z self mid low (value z self x) =
        sym same_r ∙ (ap (value z self) er ∙ value-unary x (select mid low)) in
      let ve : value z self v ≡ extracted z self high low (value z self x) =
        ap (value z self) ev ∙ value-unary x (select high low) in
      let node : value z self (binary l r op)
          ≡ binop z self z.bv_concat (value z self l) (value z self r) =
        ap (λ o. value z self (binary l r o)) q ∙ value-binary l r concat in
      ve
      ∙ (sym (joined_value high mid low (value z self x) le lt)
          ∙ (ap (binop z self z.bv_concat (extracted z self high (mid + 1) (value z self x)))
                (sym vr)
              ∙ (ap (λ y. binop z self z.bv_concat y (value z self r)) (sym vl) ∙ sym node)))
