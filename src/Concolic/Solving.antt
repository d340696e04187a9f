-- ===== src/Concolic/Solving.antt =====
-- `Solving` of src/evm/concolic/concolic_host.rs: expressions and path constraints as Z3 terms.
-- Z3 is a parameter; `none` is a panic where the result is an `Option (Option ..)`.
pub mod Adjoin
pub mod Meaning
pub mod Solve
pub mod Solutions
pub mod Limits
use ityfuzz.Prelude.{
  ℕ, zero, suc, ◌+◌, ◌-◌, ◌/◌, ◌%◌, ◌^◌, Option, none, some, List, [], ◌∷◌, ◌++◌, ◌>>=◌, get_elem?,
  word,
}
use ityfuzz.Concolic.Expr.{
  ConcolicOp, evmu256, add, div, mul, sub, sdiv, smod, urem, srem, and, or, xor, not, shl, shr, sar,
  slicedinput, balance, callvalue, caller, origin, symbyte, constbyte, finegrainedinput, eq, lt,
  slt, gt, sgt, lnot, select, concat, Expr, leaf, unary, only_rhs, binary,
}

-- What is called of the z3 crate, on its bit vectors and its Booleans.
pub record Z3 (Bv Bo : Type 0) : Type 0 where
  pub bvadd : Bv → Bv → Bv
  pub bvudiv : Bv → Bv → Bv
  pub bvmul : Bv → Bv → Bv
  pub bvsub : Bv → Bv → Bv
  pub bvsdiv : Bv → Bv → Bv
  pub bvsmod : Bv → Bv → Bv
  pub bvurem : Bv → Bv → Bv
  pub bvsrem : Bv → Bv → Bv
  pub bvand : Bv → Bv → Bv
  pub bvor : Bv → Bv → Bv
  pub bvxor : Bv → Bv → Bv
  pub bvshl : Bv → Bv → Bv
  pub bvlshr : Bv → Bv → Bv
  pub bvashr : Bv → Bv → Bv
  pub bvnot : Bv → Bv
  -- the `not` of a bit vector and of a Boolean
  pub bv_not : Bv → Bv
  pub bool_not : Bo → Bo
  pub bv_eq : Bv → Bv → Bo
  pub bool_eq : Bo → Bo → Bo
  pub bvult : Bv → Bv → Bo
  pub bvslt : Bv → Bv → Bo
  pub bvugt : Bv → Bv → Bo
  pub bvsgt : Bv → Bv → Bo
  pub bv_extract : ℕ → ℕ → Bv → Bv
  pub bv_concat : Bv → Bv → Bv
  pub from_u64 : ℕ → ℕ → Bv
  pub new_const : List ℕ → ℕ → Bv

pub data Field : Type 0 where
  caller_field call_data_value origin_field : Field

-- `Solving`; the list `constrained_field` is what the functions below return first.
pub record Solving (Bv : Type 0) : Type 0 where
  pub input : List Bv
  pub balance_bv : Bv
  pub calldatavalue : Bv
  pub caller_bv : Bv
  pub origin_bv : Bv
  pub constraints : List Expr

pub data SymbolicTy (Bv Bo : Type 0) : Type 0 where
  bv : Bv → SymbolicTy Bv Bo
  bool : Bo → SymbolicTy Bv Bo

module _ {Bv Bo : Type 0} (z : Z3 Bv Bo) (self : Solving Bv) where
  -- A translation that returns, if it does not panic
  abbrev pub Value : Type 0
  Value = Option (Option (SymbolicTy Bv Bo))

  -- The fields pushed to `constrained_field`, and the result.
  abbrev pub Translated : Type 0
  Translated = List Field × Value

  -- The macro `bv_from_u256!`
  abbrev pub bv_from_u256 : ℕ → Bv
  bv_from_u256 val =
      z.bv_concat
        (z.bv_concat
          (z.bv_concat (z.from_u64 (val / word / word / word % word) 64)
            (z.from_u64 (val / word / word % word) 64))
          (z.from_u64 (val / word % word) 64))
        (z.from_u64 (val % word) 64)

  abbrev input_or_zero : Option Bv → Bv
  input_or_zero (some by) = by
  input_or_zero none = z.from_u64 0 8

  -- The loop of `slice_input`, `n` rounds from `i` on
  abbrev pub slice_rest : ℕ → ℕ → Bv → Bv
  slice_rest zero i slice = slice
  slice_rest (suc n) i slice =
      slice_rest n (i + 1) (z.bv_concat slice (input_or_zero (get_elem? self.input i)))

  abbrev pub slice_input : ℕ → ℕ → Option Bv
  slice_input start end = get_elem? self.input start >>= λ first.
      some (slice_rest (end - (start + 1)) (start + 1) first)

  -- A bit vector that is the result
  abbrev pub returned : Option Bv → Value
  returned none = none
  returned (some v) = some (some (bv v))

  -- The macros `binop!`, `comparisons1!` and `comparisons2!`, and the arms with one operand
  abbrev pub binop : (Bv → Bv → Bv) → Value → Value → Value
  binop op (some (some (bv l))) (some (some (bv r))) = some (some (bv (op l r)))
  binop op (some l) (some r) = some none
  binop op l r = none

  abbrev pub comparisons1 : (Bv → Bv → Bo) → Value → Value → Value
  comparisons1 op (some (some (bv l))) (some (some (bv r))) = some (some (bool (op l r)))
  comparisons1 op (some l) (some r) = some none
  comparisons1 op l r = none

  abbrev pub comparisons2 : (Bv → Bv → Bo) → (Bo → Bo → Bo) → Value → Value → Value
  comparisons2 op op' (some (some (bv l))) (some (some (bv r))) = some (some (bool (op l r)))
  comparisons2 op op' (some (some (bool l))) (some (some (bool r))) = some (some (bool (op' l r)))
  comparisons2 op op' (some l) (some r) = some none
  comparisons2 op op' l r = none

  abbrev pub negated : (Bv → Bv) → Value → Value
  negated op (some (some (bv l))) = some (some (bv (op l)))
  negated op (some (some (bool l))) = some (some (bool (z.bool_not l)))
  negated op l = l

  abbrev pub extracted : ℕ → ℕ → Value → Value
  extracted high low (some (some (bv l))) = some (some (bv (z.bv_extract high low l)))
  extracted high low (some l) = some none
  extracted high low none = none

  -- The result of an arm from those of its operands; a missing operand panics as one that panics.
  unfoldable pub arm_value : ConcolicOp → Value → Value → Value
  arm_value (evmu256 constant) l r = returned (some (bv_from_u256 constant))
  arm_value add l r = binop z.bvadd l r
  arm_value div l r = binop z.bvudiv l r
  arm_value mul l r = binop z.bvmul l r
  arm_value sub l r = binop z.bvsub l r
  arm_value sdiv l r = binop z.bvsdiv l r
  arm_value smod l r = binop z.bvsmod l r
  arm_value urem l r = binop z.bvurem l r
  arm_value srem l r = binop z.bvsrem l r
  arm_value and l r = binop z.bvand l r
  arm_value or l r = binop z.bvor l r
  arm_value xor l r = binop z.bvxor l r
  arm_value not l r = negated z.bvnot l
  arm_value shl l r = binop z.bvshl l r
  arm_value shr l r = binop z.bvlshr l r
  arm_value sar l r = binop z.bvashr l r
  arm_value (slicedinput idx) l r =
      let start = idx % word % 2 ^ 32 in returned (slice_input start ((start + 32) % 2 ^ 32))
  arm_value balance l r = returned (some self.balance_bv)
  arm_value callvalue l r = returned (some self.calldatavalue)
  arm_value caller l r = returned (some self.caller_bv)
  arm_value origin l r = returned (some self.origin_bv)
  arm_value (finegrainedinput start end) l r = returned (slice_input start end)
  arm_value lnot l r = negated z.bv_not l
  arm_value (constbyte b) l r = returned (some (z.from_u64 b 8))
  arm_value (symbyte s) l r = returned (some (z.new_const s 8))
  arm_value eq l r = comparisons2 z.bv_eq z.bool_eq l r
  arm_value lt l r = comparisons1 z.bvult l r
  arm_value slt l r = comparisons1 z.bvslt l r
  arm_value gt l r = comparisons1 z.bvugt l r
  arm_value sgt l r = comparisons1 z.bvsgt l r
  arm_value (select high low) l r = extracted high low l
  arm_value concat l r = binop z.bv_concat l r

  -- The pushes of an arm: those of the operands that it translates, or its own.
  abbrev pub arm_fields : ConcolicOp → List Field → List Field → List Field
  arm_fields callvalue l r = call_data_value ∷ []
  arm_fields caller l r = caller_field ∷ origin_field ∷ []
  arm_fields origin l r = origin_field ∷ caller_field ∷ []
  arm_fields (evmu256 _) l r = []
  arm_fields (slicedinput _) l r = []
  arm_fields balance l r = []
  arm_fields (finegrainedinput _ _) l r = []
  arm_fields (constbyte _) l r = []
  arm_fields (symbyte _) l r = []
  arm_fields not l r = l
  arm_fields lnot l r = l
  arm_fields (select _ _) l r = l
  arm_fields _ l r = l ++ r

  abbrev pub arm : ConcolicOp → Translated → Translated → Translated
  arm op (fl, l) (fr, r) = (arm_fields op fl fr, arm_value op l r)

  abbrev pub absent : Translated
  absent = ([], none)

  unfoldable pub generate_z3_bv : Expr → Translated
  unfolding arm_value
  generate_z3_bv (leaf op) = arm op absent absent
  generate_z3_bv (unary l op) = arm op (generate_z3_bv l) absent
  generate_z3_bv (only_rhs r op) = arm op absent (generate_z3_bv r)
  generate_z3_bv (binary l r op) = arm op (generate_z3_bv l) (generate_z3_bv r)

  abbrev pub value : Expr → Value
  value e = (generate_z3_bv e).1
