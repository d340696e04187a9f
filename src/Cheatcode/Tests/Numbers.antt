-- ===== src/Cheatcode/Tests/Numbers.antt =====
-- The tests of approximate equality at concrete numbers; a signed number is here its word.
use ityfuzz.Prelude.{
  ℕ, suc, ◌+◌, ◌-◌, ◌*◌, ◌%◌, ◌^◌, ◌≤◌, ◌<◌, ◌≡◌, ◌↔◌, refl, Bool, true, false, none, some, ◌==◌,
  ltb, if◌then◌else◌, arith,
}
use ityfuzz.Cheatcode.Approx.{
  modulus, ok, IntOps, get_delta_uint, int_assert_approx_eq_abs, uint_assert_approx_eq_rel,
}
use ityfuzz.Cheatcode.Approx.Bounds.{
  InRange, IntLaws, offset, int_assert_approx_eq_abs_lem, uint_assert_approx_eq_rel_lem,
}

abbrev sign_and_abs : ℕ → Bool × ℕ
sign_and_abs i =
    if ltb (i % modulus) (2 ^ 255) then (false, i % modulus) else (true, modulus - i % modulus)

abbrev words : IntOps ℕ
words = record { into_sign_and_abs = sign_and_abs; is_zero = λ i. i % modulus == 0 }

in_range :
    (w : ℕ) (b : Bool)
    → w < modulus
    → ltb w (2 ^ 255) ≡ b
    → InRange (if b then (false, w) else (true, modulus - w))
in_range w true lt h = ground arith
in_range w false lt h = (omega arith, ground arith)

words-IntLaws : IntLaws words
words-IntLaws = record {
  in_range = λ i. in_range (i % modulus) (ltb (i % modulus) (2 ^ 255)) (omega arith) refl;
  zero_iff = λ i. ground arith;
}

-- Two and minus three are five apart.
int_assert_approx_eq_abs_lem_example : (int_assert_approx_eq_abs words 2 (modulus - 3) 5 ≡ ok) ↔ (
    (offset (sign_and_abs 2) ≤ offset (sign_and_abs (modulus - 3)) + 5)
    × (offset (sign_and_abs (modulus - 3)) ≤ offset (sign_and_abs 2) + 5))
int_assert_approx_eq_abs_lem_example =
    int_assert_approx_eq_abs_lem words words-IntLaws 2 (modulus - 3) 5

abbrev left : ℕ
left = 101

abbrev right : ℕ
right = 100

abbrev one_percent : ℕ
one_percent = 10 ^ 16

uint_assert_approx_eq_rel_lem_example :
    ((uint_assert_approx_eq_rel left right one_percent ≡ none) ↔ ((left ≡ 0) × (right ≡ 0)))
    × ((uint_assert_approx_eq_rel left right one_percent ≡ some ok) ↔ (
        (0 < right)
        × (get_delta_uint left right * 10 ^ 18 < 2 ^ 256)
        × (get_delta_uint left right * 10 ^ 18 < suc one_percent * right)))
uint_assert_approx_eq_rel_lem_example = uint_assert_approx_eq_rel_lem left right one_percent
