-- ===== src/Concolic/Host/Agreement/Model.antt =====
-- What an expression denotes at the input of a run.
use ityfuzz.Prelude.{
  ℕ, ◌/◌, ◌%◌, ◌^◌, ◌<◌, ◌≡◌, refl, sym, ap, ◌∙◌, Bool, true, false, not as negb, none, some, ltb,
  ◌==◌, if◌then◌else◌, arith, word,
}
use std.Path.{subst}
use ityfuzz.Concolic.Expr.{
  ConcolicOp, evmu256, add, mul, sub, and, or, xor, shl, shr, sar, eq, lt, gt, slt, sgt, Expr, leaf,
  binary,
}
use ityfuzz.Concolic.Solving.{
  Z3, Solving, SymbolicTy, bv, bool, Value, binop, comparisons1, comparisons2, value, arm_value,
  generate_z3_bv, bv_from_u256,
}
use ityfuzz.Concolic.Host.Agreement.Words.{
  exact, truth, signed_below, evm_result, Computes, Decides, IsModel,
}

module _ {Bv Bo : Type 0} (z : Z3 Bv Bo) (self : Solving Bv) (model : IsModel z) where
  -- The word that a translation stands for; a truth value is 0 or 1.
  abbrev pub reads : SymbolicTy Bv Bo → ℕ
  reads (bv a) = model.unsigned a
  reads (bool b) = truth (model.holds b)

  abbrev pub Is256 : SymbolicTy Bv Bo → Type 0
  Is256 (bv a) = model.width a ≡ 256
  Is256 (bool b) = Unit

  abbrev pub Stands : ℕ → SymbolicTy Bv Bo → Type 0
  Stands v t = Is256 t × (reads t ≡ v)

  -- An expression that translates stands for the word.
  abbrev pub Denotes : Expr → ℕ → Type 0
  Denotes e v = (t : SymbolicTy Bv Bo) → value z self e ≡ some (some t) → Stands v t

  pub constant-Denotes : (v : ℕ) → v < 2 ^ 256 → Denotes (leaf (evmu256 v)) v
  unfolding generate_z3_bv arm_value
  constant-Denotes v small t h =
      let same : bv (bv_from_u256 z self v) ≡ t = ground (arith, h) in
      let (wide, is) =
        model.limbs (v / word / word / word % word) (v / word / word % word) (v / word % word)
          (v % word) (omega arith) (omega arith) (omega arith) (omega arith) in
      subst (Stands v) same (wide, is ∙ omega arith)

  binop-Stands :
      (f : Bv → Bv → Bv) (g : ℕ → ℕ → ℕ) (l r t : SymbolicTy Bv Bo)
      → Computes model.width model.unsigned f g
      → Is256 l
      → Is256 r
      → binop z self f (some (some l)) (some (some r)) ≡ some (some t)
      → Stands (g (reads l) (reads r)) t
  binop-Stands f g (bv l) (bv r) t law wl wr h =
      let same : bv (f l r) ≡ t = ground (arith, h) in
      subst (Stands (g (model.unsigned l) (model.unsigned r))) same (law l r wl wr)
  binop-Stands f g (bv l) (bool r) t law wl wr h = cc
  binop-Stands f g (bool l) r t law wl wr h = cc

  comparisons1-Stands :
      (f : Bv → Bv → Bo) (g : ℕ → ℕ → Bool) (l r t : SymbolicTy Bv Bo)
      → Decides model.width model.unsigned model.holds f g
      → Is256 l
      → Is256 r
      → comparisons1 z self f (some (some l)) (some (some r)) ≡ some (some t)
      → Stands (truth (g (reads l) (reads r))) t
  comparisons1-Stands f g (bv l) (bv r) t law wl wr h =
      let same : bool (f l r) ≡ t = ground (arith, h) in
      subst (Stands (truth (g (model.unsigned l) (model.unsigned r)))) same
        (tt, ap truth (law l r wl wr))
  comparisons1-Stands f g (bv l) (bool r) t law wl wr h = cc
  comparisons1-Stands f g (bool l) r t law wl wr h = cc

  truth-same : (a b : Bool) → truth (if a then b else negb b) ≡ truth (truth a == truth b)
  truth-same true true = refl
  truth-same true false = refl
  truth-same false true = refl
  truth-same false false = refl

  eq-Stands :
      (l r t : SymbolicTy Bv Bo)
      → Is256 l
      → Is256 r
      → comparisons2 z self z.bv_eq z.bool_eq (some (some l)) (some (some r)) ≡ some (some t)
      → Stands (truth (reads l == reads r)) t
  eq-Stands (bv l) (bv r) t wl wr h =
      let same : bool (z.bv_eq l r) ≡ t = ground (arith, h) in
      subst (Stands (truth (model.unsigned l == model.unsigned r))) same
        (tt, ap truth (model.bv_eq l r wl wr))
  eq-Stands (bool l) (bool r) t wl wr h =
      let same : bool (z.bool_eq l r) ≡ t = ground (arith, h) in
      subst (Stands (truth (truth (model.holds l) == truth (model.holds r)))) same
        (tt, ap truth (model.bool_eq l r) ∙ truth-same (model.holds l) (model.holds r))
  eq-Stands (bv l) (bool r) t wl wr h = cc
  eq-Stands (bool l) (bv r) t wl wr h = cc

  op-Stands :
      (op : ConcolicOp) (l r t : SymbolicTy Bv Bo)
      → exact op ≡ true
      → Is256 l
      → Is256 r
      → arm_value z self op (some (some l)) (some (some r)) ≡ some (some t)
      → Stands (evm_result op (reads l) (reads r)) t
  unfolding arm_value
  op-Stands add l r t e wl wr h = binop-Stands z.bvadd (evm_result add) l r t model.bvadd wl wr h
  op-Stands mul l r t e wl wr h = binop-Stands z.bvmul (evm_result mul) l r t model.bvmul wl wr h
  op-Stands sub l r t e wl wr h = binop-Stands z.bvsub (evm_result sub) l r t model.bvsub wl wr h
  op-Stands and l r t e wl wr h = binop-Stands z.bvand (evm_result and) l r t model.bvand wl wr h
  op-Stands or l r t e wl wr h = binop-Stands z.bvor (evm_result or) l r t model.bvor wl wr h
  op-Stands xor l r t e wl wr h = binop-Stands z.bvxor (evm_result xor) l r t model.bvxor wl wr h
  op-Stands shl l r t e wl wr h = binop-Stands z.bvshl (evm_result shl) l r t model.bvshl wl wr h
  op-Stands shr l r t e wl wr h = binop-Stands z.bvlshr (evm_result shr) l r t model.bvlshr wl wr h
  op-Stands sar l r t e wl wr h = binop-Stands z.bvashr (evm_result sar) l r t model.bvashr wl wr h
  op-Stands lt l r t e wl wr h =
      comparisons1-Stands z.bvult (λ a b. ltb a b) l r t model.bvult wl wr h
  op-Stands gt l r t e wl wr h =
      comparisons1-Stands z.bvugt (λ a b. ltb b a) l r t model.bvugt wl wr h
  op-Stands slt l r t e wl wr h = comparisons1-Stands z.bvslt signed_below l r t model.bvslt wl wr h
  op-Stands sgt l r t e wl wr h =
      comparisons1-Stands z.bvsgt (λ a b. signed_below b a) l r t model.bvsgt wl wr h
  op-Stands eq l r t e wl wr h = eq-Stands l r t wl wr h
  op-Stands op l r t e wl wr h = absurd (ground (arith, e))

  -- An operation that translates has operands that translate.
  abbrev Both : Value z self → Value z self → Type 0
  Both a b =
      (l : SymbolicTy Bv Bo) × (r : SymbolicTy Bv Bo) × (a ≡ some (some l)) × (b ≡ some (some r))

  binop-Both :
      (f : Bv → Bv → Bv) (a b : Value z self) (t : SymbolicTy Bv Bo)
      → binop z self f a b ≡ some (some t)
      → Both a b
  binop-Both f (some (some (bv l))) (some (some (bv r))) t h = (bv l, bv r, refl, refl)
  binop-Both f (some (some (bv l))) (some (some (bool r))) t h = cc
  binop-Both f (some (some (bv l))) (some none) t h = cc
  binop-Both f (some (some (bv l))) none t h = cc
  binop-Both f (some (some (bool l))) (some r) t h = cc
  binop-Both f (some (some (bool l))) none t h = cc
  binop-Both f (some none) (some r) t h = cc
  binop-Both f (some none) none t h = cc
  binop-Both f none b t h = cc

  comparisons1-Both :
      (f : Bv → Bv → Bo) (a b : Value z self) (t : SymbolicTy Bv Bo)
      → comparisons1 z self f a b ≡ some (some t)
      → Both a b
  comparisons1-Both f (some (some (bv l))) (some (some (bv r))) t h = (bv l, bv r, refl, refl)
  comparisons1-Both f (some (some (bv l))) (some (some (bool r))) t h = cc
  comparisons1-Both f (some (some (bv l))) (some none) t h = cc
  comparisons1-Both f (some (some (bv l))) none t h = cc
  comparisons1-Both f (some (some (bool l))) (some r) t h = cc
  comparisons1-Both f (some (some (bool l))) none t h = cc
  comparisons1-Both f (some none) (some r) t h = cc
  comparisons1-Both f (some none) none t h = cc
  comparisons1-Both f none b t h = cc

  comparisons2-Both :
      (f : Bv → Bv → Bo) (g : Bo → Bo → Bo) (a b : Value z self) (t : SymbolicTy Bv Bo)
      → comparisons2 z self f g a b ≡ some (some t)
      → Both a b
  comparisons2-Both f g (some (some (bv l))) (some (some (bv r))) t h = (bv l, bv r, refl, refl)
  comparisons2-Both f g (some (some (bool l))) (some (some (bool r))) t h =
      (bool l, bool r, refl, refl)
  comparisons2-Both f g (some (some (bv l))) (some (some (bool r))) t h = cc
  comparisons2-Both f g (some (some (bool l))) (some (some (bv r))) t h = cc
  comparisons2-Both f g (some (some (bv l))) (some none) t h = cc
  comparisons2-Both f g (some (some (bool l))) (some none) t h = cc
  comparisons2-Both f g (some (some (bv l))) none t h = cc
  comparisons2-Both f g (some (some (bool l))) none t h = cc
  comparisons2-Both f g (some none) (some r) t h = cc
  comparisons2-Both f g (some none) none t h = cc
  comparisons2-Both f g none b t h = cc

  arm_value-Both :
      (op : ConcolicOp) (a b : Value z self) (t : SymbolicTy Bv Bo)
      → exact op ≡ true
      → arm_value z self op a b ≡ some (some t)
      → Both a b
  unfolding arm_value
  arm_value-Both add a b t e h = binop-Both z.bvadd a b t h
  arm_value-Both mul a b t e h = binop-Both z.bvmul a b t h
  arm_value-Both sub a b t e h = binop-Both z.bvsub a b t h
  arm_value-Both and a b t e h = binop-Both z.bvand a b t h
  arm_value-Both or a b t e h = binop-Both z.bvor a b t h
  arm_value-Both xor a b t e h = binop-Both z.bvxor a b t h
  arm_value-Both shl a b t e h = binop-Both z.bvshl a b t h
  arm_value-Both shr a b t e h = binop-Both z.bvlshr a b t h
  arm_value-Both sar a b t e h = binop-Both z.bvashr a b t h
  arm_value-Both eq a b t e h = comparisons2-Both z.bv_eq z.bool_eq a b t h
  arm_value-Both lt a b t e h = comparisons1-Both z.bvult a b t h
  arm_value-Both gt a b t e h = comparisons1-Both z.bvugt a b t h
  arm_value-Both slt a b t e h = comparisons1-Both z.bvslt a b t h
  arm_value-Both sgt a b t e h = comparisons1-Both z.bvsgt a b t h
  arm_value-Both op a b t e h = absurd (ground (arith, e))

  pub op-Denotes :
      (op : ConcolicOp) (a b : Expr) (x y : ℕ)
      → exact op ≡ true
      → Denotes a x
      → Denotes b y
      → Denotes (binary a b op) (evm_result op x y)
  unfolding generate_z3_bv
  op-Denotes op a b x y e da db t h =
      let (l, r, ql, qr) = arm_value-Both op (value z self a) (value z self b) t e h in
      let same : arm_value z self op (some (some l)) (some (some r)) ≡ some (some t) =
        ap (λ v. arm_value z self op v (some (some r))) (sym ql)
        ∙ (ap (arm_value z self op (value z self a)) (sym qr) ∙ h) in
      let (wl, is_l) = da l ql in
      let (wr, is_r) = db r qr in
      let (wide, is) = op-Stands op l r t e wl wr same in
      (wide, is ∙ (ap (λ v. evm_result op v (reads r)) is_l ∙ ap (evm_result op x) is_r))
