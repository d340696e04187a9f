-- ===== src/Concolic/Expr.antt =====
-- Expressions of src/evm/concolic/expr.rs. `Expr` has the two optional operands of the source's
-- struct as four constructors, one for each way the options may be filled. Words, bytes and `u32`
-- are numbers, a `String` is the list of its characters.
use ityfuzz.Prelude.{
  ℕ, ◌+◌, ◌≡◌, refl, Bool, true, false, ◌&&◌, Option, none, some, List, [], ◌∷◌, arith, ◌==◌,
  list_beq, list_beq_iff, get_elem?, if◌then◌else◌, ap, sym, ◌∙◌,
}
use Prim.Native.Nat.{max}

pub data ConcolicOp : Type 0 where
  evmu256 : ℕ → ConcolicOp
  add div mul sub sdiv smod urem srem and or xor not shl shr sar : ConcolicOp
  slicedinput : ℕ → ConcolicOp
  balance callvalue caller origin : ConcolicOp
  symbyte : List ℕ → ConcolicOp
  constbyte : ℕ → ConcolicOp
  finegrainedinput : ℕ → ℕ → ConcolicOp
  eq lt slt gt sgt lnot : ConcolicOp
  select : ℕ → ℕ → ConcolicOp
  concat : ConcolicOp

pub data Expr : Type 0 where
  leaf : ConcolicOp → Expr
  unary : Expr → ConcolicOp → Expr
  only_rhs : Expr → ConcolicOp → Expr
  binary : Expr → Expr → ConcolicOp → Expr

-- The struct from its fields.
abbrev pub mk_expr : Option Expr → Option Expr → ConcolicOp → Expr
mk_expr none none op = leaf op
mk_expr (some l) none op = unary l op
mk_expr none (some r) op = only_rhs r op
mk_expr (some l) (some r) op = binary l r op

abbrev pub lhs : Expr → Option Expr
lhs (leaf op) = none
lhs (unary l op) = some l
lhs (only_rhs r op) = none
lhs (binary l r op) = some l

-- The derived `PartialEq` of `ConcolicOp`: the same variant with the same fields.
abbrev pub fields : ConcolicOp → List ℕ
fields (evmu256 v) = 0 ∷ v ∷ []
fields add = 1 ∷ []
fields div = 2 ∷ []
fields mul = 3 ∷ []
fields sub = 4 ∷ []
fields sdiv = 5 ∷ []
fields smod = 6 ∷ []
fields urem = 7 ∷ []
fields srem = 8 ∷ []
fields and = 9 ∷ []
fields or = 10 ∷ []
fields xor = 11 ∷ []
fields not = 12 ∷ []
fields shl = 13 ∷ []
fields shr = 14 ∷ []
fields sar = 15 ∷ []
fields (slicedinput idx) = 16 ∷ idx ∷ []
fields balance = 17 ∷ []
fields callvalue = 18 ∷ []
fields caller = 19 ∷ []
fields origin = 20 ∷ []
fields (symbyte s) = 21 ∷ s
fields (constbyte b) = 22 ∷ b ∷ []
fields (finegrainedinput start end) = 23 ∷ start ∷ end ∷ []
fields eq = 24 ∷ []
fields lt = 25 ∷ []
fields slt = 26 ∷ []
fields gt = 27 ∷ []
fields sgt = 28 ∷ []
fields lnot = 29 ∷ []
fields (select high low) = 30 ∷ high ∷ low ∷ []
fields concat = 31 ∷ []

unfoldable pub op_beq : ConcolicOp → ConcolicOp → Bool
op_beq a b = list_beq (fields a) (fields b)

-- The derived `PartialEq` of `Expr`.
unfoldable pub expr_beq : Expr → Expr → Bool
unfolding op_beq
expr_beq (leaf a) (leaf b) = op_beq a b
expr_beq (unary l a) (unary m b) = expr_beq l m && op_beq a b
expr_beq (only_rhs r a) (only_rhs s b) = expr_beq r s && op_beq a b
expr_beq (binary l r a) (binary m s b) = expr_beq l m && (expr_beq r s && op_beq a b)
expr_beq _ _ = false

-- The leaves that `is_concrete` knows; `none` is its `unreachable!()`.
abbrev pub leaf_is_concrete : ConcolicOp → Option Bool
leaf_is_concrete (evmu256 _) = some true
leaf_is_concrete (slicedinput _) = some false
leaf_is_concrete balance = some false
leaf_is_concrete callvalue = some false
leaf_is_concrete (symbyte _) = some false
leaf_is_concrete (constbyte _) = some true
leaf_is_concrete (finegrainedinput _ _) = some false
leaf_is_concrete caller = some false
leaf_is_concrete origin = some false
leaf_is_concrete _ = none

-- `&&` does not evaluate its right operand where the left one is false.
abbrev pub lazy_and : Option Bool → Option Bool → Option Bool
lazy_and none r = none
lazy_and (some false) r = some false
lazy_and (some true) r = r

unfoldable pub is_concrete : Expr → Option Bool
is_concrete (leaf op) = leaf_is_concrete op
is_concrete (unary l op) = is_concrete l
is_concrete (only_rhs r op) = none
is_concrete (binary l r op) = lazy_and (is_concrete l) (is_concrete r)

unfoldable pub depth : Expr → ℕ
depth (leaf op) = 0
depth (unary l op) = max (depth l) 0 + 1
depth (only_rhs r op) = max 0 (depth r) + 1
depth (binary l r op) = max (depth l) (depth r) + 1

-- The variant and the fields determine the operation.
abbrev plain_ops : List ConcolicOp
plain_ops =
    concat ∷ add ∷ div ∷ mul ∷ sub ∷ sdiv ∷ smod ∷ urem ∷ srem ∷ and ∷ or ∷ xor ∷ not ∷ shl ∷ shr
    ∷ sar ∷ concat ∷ balance ∷ callvalue ∷ caller ∷ origin ∷ concat ∷ concat ∷ concat ∷ eq ∷ lt
    ∷ slt ∷ gt ∷ sgt ∷ lnot ∷ []

abbrev op_or_concat : Option ConcolicOp → ConcolicOp
op_or_concat none = concat
op_or_concat (some op) = op

abbrev with_args : ℕ → List ℕ → ConcolicOp
with_args n [] = op_or_concat (get_elem? plain_ops n)
with_args n (v ∷ []) = if n == 0 then evmu256 v else if n == 16 then slicedinput v else constbyte v
with_args n (v ∷ w ∷ rest) = if n == 23 then finegrainedinput v w else select v w

abbrev of_fields : List ℕ → ConcolicOp
of_fields [] = concat
of_fields (n ∷ args) = if n == 21 then symbyte args else with_args n args

of_fields-fields : (a : ConcolicOp) → of_fields (fields a) ≡ a
of_fields-fields (evmu256 v) = refl
of_fields-fields (slicedinput idx) = refl
of_fields-fields (symbyte s) = refl
of_fields-fields (constbyte b) = refl
of_fields-fields (finegrainedinput start end) = refl
of_fields-fields (select high low) = refl
of_fields-fields add = refl
of_fields-fields div = refl
of_fields-fields mul = refl
of_fields-fields sub = refl
of_fields-fields sdiv = refl
of_fields-fields smod = refl
of_fields-fields urem = refl
of_fields-fields srem = refl
of_fields-fields and = refl
of_fields-fields or = refl
of_fields-fields xor = refl
of_fields-fields not = refl
of_fields-fields shl = refl
of_fields-fields shr = refl
of_fields-fields sar = refl
of_fields-fields balance = refl
of_fields-fields callvalue = refl
of_fields-fields caller = refl
of_fields-fields origin = refl
of_fields-fields eq = refl
of_fields-fields lt = refl
of_fields-fields slt = refl
of_fields-fields gt = refl
of_fields-fields sgt = refl
of_fields-fields lnot = refl
of_fields-fields concat = refl

pub op_beq-eq : (a b : ConcolicOp) → op_beq a b ≡ true → a ≡ b
unfolding op_beq
op_beq-eq a b h =
    sym (of_fields-fields a)
    ∙ (ap of_fields ((list_beq_iff (fields a) (fields b)).0 h) ∙ of_fields-fields b)

pub op_beq_refl : (a : ConcolicOp) → op_beq a a ≡ true
unfolding op_beq
op_beq_refl a = (list_beq_iff (fields a) (fields a)).1 refl

pub expr_beq-eq : (a b : Expr) → expr_beq a b ≡ true → a ≡ b
unfolding expr_beq
expr_beq-eq (leaf a) (leaf b) h = ap leaf (op_beq-eq a b h)
expr_beq-eq (unary l a) (unary m b) h = ground (arith, op_beq-eq a b, expr_beq-eq l m)
expr_beq-eq (only_rhs r a) (only_rhs s b) h = ground (arith, op_beq-eq a b, expr_beq-eq r s)
expr_beq-eq (binary l r a) (binary m s b) h =
    ground (arith, op_beq-eq a b, expr_beq-eq l m, expr_beq-eq r s)
expr_beq-eq (leaf _) (unary _ _) h = cc
expr_beq-eq (leaf _) (only_rhs _ _) h = cc
expr_beq-eq (leaf _) (binary _ _ _) h = cc
expr_beq-eq (unary _ _) (leaf _) h = cc
expr_beq-eq (unary _ _) (only_rhs _ _) h = cc
expr_beq-eq (unary _ _) (binary _ _ _) h = cc
expr_beq-eq (only_rhs _ _) (leaf _) h = cc
expr_beq-eq (only_rhs _ _) (unary _ _) h = cc
expr_beq-eq (only_rhs _ _) (binary _ _ _) h = cc
expr_beq-eq (binary _ _ _) (leaf _) h = cc
expr_beq-eq (binary _ _ _) (unary _ _) h = cc
expr_beq-eq (binary _ _ _) (only_rhs _ _) h = cc

pub expr_beq_refl : (a : Expr) → expr_beq a a ≡ true
unfolding expr_beq
expr_beq_refl (leaf a) = op_beq_refl a
expr_beq_refl (unary l a) = ground (arith, expr_beq_refl l, op_beq_refl a)
expr_beq_refl (only_rhs r a) = ground (arith, expr_beq_refl r, op_beq_refl a)
expr_beq_refl (binary l r a) = ground (arith, expr_beq_refl l, expr_beq_refl r, op_beq_refl a)
