-- ===== src/Cheatcode/Approx/Bounds.antt =====
-- What the tests of approximate equality accept, and when they panic.
use ityfuzz.Prelude.{
  ℕ, suc, ◌+◌, ◌-◌, ◌*◌, ◌/◌, ◌^◌, ◌≤◌, ◌<◌, ◌≡◌, ◌↔◌, Bool, true, false, none, some, leb, arith,
  le→leb,
}
use native.Mathlib.Nat.{div-lt_iff_lt-mul}
use ityfuzz.Cheatcode.Approx.{
  modulus, ok, IntOps, get_delta_uint, signed_delta, get_delta_int, int_assert_approx_eq_abs,
  int_assert_approx_eq_rel, uint_assert_approx_eq_rel, compare_rel,
}

-- Two's complement: magnitudes to 2^255 - 1 above zero and to 2^255 below.
abbrev pub InRange : Bool × ℕ → Type 0
InRange (true, abs) = (0 < abs) × (abs ≤ 2 ^ 255)
InRange (false, abs) = abs < 2 ^ 255

-- The value of the number above the least one, -2^255
abbrev pub offset : Bool × ℕ → ℕ
offset (true, abs) = 2 ^ 255 - abs
offset (false, abs) = 2 ^ 255 + abs

pub record IntLaws {I256 : Type 0} (int : IntOps I256) : Type 0 where
  pub in_range : (i : I256) → InRange (int.into_sign_and_abs i)
  pub zero_iff : (i : I256) → (int.is_zero i ≡ true) ↔ ((int.into_sign_and_abs i).1 ≡ 0)

signed_delta_lem :
    (p q : Bool × ℕ)
    → InRange p
    → InRange q
    → signed_delta p q ≡ get_delta_uint (offset p) (offset q)
unfolding signed_delta get_delta_uint
signed_delta_lem (true, a) (true, b) l r = ground (arith, l.0, l.1, r.0, r.1)
signed_delta_lem (true, a) (false, b) l r = ground (arith, l.0, l.1)
signed_delta_lem (false, a) (true, b) l r = ground (arith, r.0, r.1)
signed_delta_lem (false, a) (false, b) l r = ground arith

signed_delta-zero :
    (p q : Bool × ℕ) → InRange p → InRange q → p.1 ≡ 0 → q.1 ≡ 0 → signed_delta p q ≡ 0
unfolding signed_delta
signed_delta-zero (true, a) q l r e f = omega (arith, l.0)
signed_delta-zero (false, a) (true, b) l r e f = omega (arith, r.0)
signed_delta-zero (false, a) (false, b) l r e f = ground arith

get_delta_uint_lem : (x y m : ℕ) → (leb (get_delta_uint x y) m ≡ true) ↔ ((x ≤ y + m) × (y ≤ x + m))
unfolding get_delta_uint
get_delta_uint_lem x y m = ground arith

module _ {I256 : Type 0} (int : IntOps I256) (laws : IntLaws int) where
  get_delta_int_lem :
      (left right : I256)
      → get_delta_int int left right
        ≡ get_delta_uint
            (offset (int.into_sign_and_abs left))
            (offset (int.into_sign_and_abs right))
  unfolding get_delta_int
  get_delta_int_lem left right =
      signed_delta_lem (int.into_sign_and_abs left) (int.into_sign_and_abs right)
        (laws.in_range left) (laws.in_range right)

  -- The signed test passes exactly when neither value exceeds the other by more than the bound.
  pub int_assert_approx_eq_abs_lem :
      (left right : I256) (max_delta : ℕ)
      → (int_assert_approx_eq_abs int left right max_delta ≡ ok) ↔ (
          (offset (int.into_sign_and_abs left) ≤ offset (int.into_sign_and_abs right) + max_delta)
          × (offset (int.into_sign_and_abs right)
              ≤ offset (int.into_sign_and_abs left) + max_delta))
  unfolding int_assert_approx_eq_abs
  int_assert_approx_eq_abs_lem left right max_delta =
      let d = get_delta_int_lem left right in
      let (there, back) =
        get_delta_uint_lem (offset (int.into_sign_and_abs left))
          (offset (int.into_sign_and_abs right)) max_delta in
      (λ h. there (ground (arith, h, d)), λ h. ground (arith, back h, d))

div-le_iff : (x r m : ℕ) → 0 < r → (leb (x / r) m ≡ true) ↔ (x < suc m * r)
div-le_iff x r m pos =
    let (to, fro) = div-lt_iff_lt-mul {k = r} {x = x} {y = suc m} pos in
    (λ h. to (ground arith), λ h. le→leb (x / r) m (omega (arith, fro h)))

-- When the comparison panics and when it accepts
compare_rel_lem :
    {T : Type 0} (left right : T) (r difference m : ℕ)
    → ((compare_rel left right r difference m ≡ none)
        ↔ ((difference * 10 ^ 18 < modulus) × (r ≡ 0)))
      × ((compare_rel left right r difference m ≡ some ok)
          ↔ ((difference * 10 ^ 18 < modulus) × (0 < r) × (difference * 10 ^ 18 < suc m * r)))
unfolding compare_rel
compare_rel_lem left right r difference m = (
  (λ h. ground arith, λ h. ground arith),
  (λ h. grind (arith, div-le_iff), λ h. grind (arith, div-le_iff)),
)

-- The relative test of two unsigned numbers, the bound in units of 10^-18: it panics exactly when
-- both numbers are zero, and passes exactly when the right one is not zero, the scaled distance has
-- less than 257 bits, and it is below the bound and one more times the right number.
pub uint_assert_approx_eq_rel_lem :
    (left right max_delta : ℕ)
    → ((uint_assert_approx_eq_rel left right max_delta ≡ none) ↔ ((left ≡ 0) × (right ≡ 0)))
      × ((uint_assert_approx_eq_rel left right max_delta ≡ some ok) ↔ (
          (0 < right)
          × (get_delta_uint left right * 10 ^ 18 < 2 ^ 256)
          × (get_delta_uint left right * 10 ^ 18 < suc max_delta * right)))
unfolding uint_assert_approx_eq_rel get_delta_uint
uint_assert_approx_eq_rel_lem left right max_delta =
    let ((a, b), (c, d)) = compare_rel_lem left right right (get_delta_uint left right) max_delta in
    ((λ h. grind arith, λ h. grind (arith, b)), (λ h. grind (arith, c), λ h. grind (arith, d)))

module _ {I256 : Type 0} (int : IntOps I256) (laws : IntLaws int) where
  -- The relative test of two signed numbers panics exactly when both are zero.
  pub int_assert_approx_eq_rel-total :
      (left right : I256) (max_delta : ℕ)
      → (int_assert_approx_eq_rel int left right max_delta ≡ none)
        ↔ ((int.is_zero left ≡ true) × (int.is_zero right ≡ true))
  unfolding int_assert_approx_eq_rel get_delta_int
  int_assert_approx_eq_rel-total left right max_delta =
      let ((a, b), _) =
        compare_rel_lem left right ((int.into_sign_and_abs right).1) (get_delta_int int left right)
          max_delta in
      let (to, fro) = laws.zero_iff right in
      let (tol, frol) = laws.zero_iff left in
      (
        λ h. grind (arith, a, fro),
        λ (l, r). grind (
          arith,
          r,
          l,
          b,
          to r,
          signed_delta-zero (int.into_sign_and_abs left) (int.into_sign_and_abs right)
              (laws.in_range left) (laws.in_range right) (tol l) (to r),
        ),
      )
