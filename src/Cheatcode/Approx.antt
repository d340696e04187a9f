-- ===== src/Cheatcode/Approx.antt =====
-- The tests of `assertApproxEqAbs` and `assertApproxEqRel` in
-- src/evm/middlewares/cheatcode/assert.rs, without their messages. `none` is a panic, the division
-- by zero. `I256` is of a crate; what the code uses of it is a parameter.
pub mod Bounds
use ityfuzz.Prelude.{
  ℕ, ◌+◌, ◌-◌, ◌*◌, ◌/◌, ◌%◌, ◌^◌, Bool, true, false, ◌&&◌, not, Option, none, some, ◌==◌, ltb, leb,
  if◌then◌else◌,
}

abbrev pub modulus : ℕ
modulus = 2 ^ 256

abbrev pub eq_rel_delta_resolution : ℕ
eq_rel_delta_resolution = 18

-- `Result<Vec<u8>, E>`, of which `Ok` is always empty
pub data Checked {ℓ} (E : Type ℓ) : Type ℓ where
  ok : Checked E
  err : E → Checked E

pub record EqAbsAssertionError (T : Type 0) : Type 0 where
  pub left : T
  pub right : T
  pub max_delta : ℕ
  pub real_delta : ℕ

pub data EqRelDelta : Type 0 where
  defined : ℕ → EqRelDelta
  undefined : EqRelDelta

pub record EqRelAssertionFailure (T : Type 0) : Type 0 where
  pub left : T
  pub right : T
  pub max_delta : ℕ
  pub real_delta : EqRelDelta

pub data EqRelAssertionError (T : Type 0) : Type 0 where
  failure : EqRelAssertionFailure T → EqRelAssertionError T
  overflow : EqRelAssertionError T

unfoldable pub get_delta_uint : ℕ → ℕ → ℕ
get_delta_uint left right = if ltb right left then left - right else right - left

unfoldable pub uint_assert_approx_eq_abs : ℕ → ℕ → ℕ → Checked (EqAbsAssertionError ℕ)
unfolding get_delta_uint
uint_assert_approx_eq_abs left right max_delta =
    let delta = get_delta_uint left right in
    if leb delta max_delta
    then ok
    else err (record { left = left; right = right; max_delta = max_delta; real_delta = delta })

-- The end of both relative tests: `checked_mul`, the division by the right side's absolute value,
-- and the comparison.
unfoldable pub compare_rel :
    {T : Type 0} → T → T → ℕ → ℕ → ℕ → Option (Checked (EqRelAssertionError T))
compare_rel left right abs_right difference max_delta =
    let product = difference * 10 ^ eq_rel_delta_resolution in
    if leb modulus product
    then some (err overflow)
    else if abs_right == 0
    then none
    else if leb (product / abs_right) max_delta
    then some ok
    else some (
        err (
          failure (record {
            left = left;
            right = right;
            max_delta = max_delta;
            real_delta = defined (product / abs_right);
          })))

abbrev pub undefined_delta : {T : Type 0} → T → T → ℕ → Option (Checked (EqRelAssertionError T))
undefined_delta left right max_delta = some (
    err (
      failure
        (record { left = left; right = right; max_delta = max_delta; real_delta = undefined })))

unfoldable pub uint_assert_approx_eq_rel : ℕ → ℕ → ℕ → Option (Checked (EqRelAssertionError ℕ))
unfolding get_delta_uint compare_rel
uint_assert_approx_eq_rel left right max_delta =
    if right == 0 && not (left == 0)
    then undefined_delta left right max_delta
    else compare_rel left right right (get_delta_uint left right) max_delta

-- `true` is the negative sign.
pub record IntOps (I256 : Type 0) : Type 0 where
  pub into_sign_and_abs : I256 → Bool × ℕ
  pub is_zero : I256 → Bool

abbrev same_sign : Bool → Bool → Bool
same_sign true s = s
same_sign false s = not s

-- `get_delta_int` of the two signs and absolute values
unfoldable pub signed_delta : Bool × ℕ → Bool × ℕ → ℕ
signed_delta (left_sign, left_abs) (right_sign, right_abs) =
    if same_sign left_sign right_sign
    then if ltb right_abs left_abs then left_abs - right_abs else right_abs - left_abs
    else (left_abs + right_abs) % modulus

module _ {I256 : Type 0} (int : IntOps I256) where
  unfoldable pub get_delta_int : I256 → I256 → ℕ
  unfolding signed_delta
  get_delta_int left right = signed_delta (int.into_sign_and_abs left) (int.into_sign_and_abs right)

  unfoldable pub int_assert_approx_eq_abs : I256 → I256 → ℕ → Checked (EqAbsAssertionError I256)
  unfolding get_delta_int
  int_assert_approx_eq_abs left right max_delta =
      let delta = get_delta_int left right in
      if leb delta max_delta
      then ok
      else err (record { left = left; right = right; max_delta = max_delta; real_delta = delta })

  unfoldable pub int_assert_approx_eq_rel :
      I256 → I256 → ℕ → Option (Checked (EqRelAssertionError I256))
  unfolding get_delta_int compare_rel
  int_assert_approx_eq_rel left right max_delta =
      if int.is_zero right && not (int.is_zero left)
      then undefined_delta left right max_delta
      else compare_rel left right ((int.into_sign_and_abs right).1) (get_delta_int left right)
          max_delta
