-- ===== src/Abi/TypeNames/Simples.antt =====
-- src/evm/abi.rs: `get_abi_type_basic` on the text of a basic type.
use ityfuzz.Prelude.{
  ℕ, ◌≡◌, refl, none, some, Option, List, [], ◌∷◌, ◌++◌, ◌+◌, ◌-◌, ◌*◌, ◌/◌, ◌%◌, ◌≤◌, ◌<◌, word,
  arith, All,
}
use ityfuzz.Abi.TypeNames.{get_abi_type_basic, width}
use ityfuzz.Abi.TypeNames.Text.{digits_value, parse_usize}
use ityfuzz.Abi.TypeNames.Printing.{
  Numeral, numeral, numeral_text, value_from, numeral_value, IsDigit, IsNumeral, Simple, signed,
  unsigned, address_name, bool_name, bytes_name, string_name, unknown, signed_of, unsigned_of,
  bytes_of, simple_text, IsSimple, simple_default,
}

value_from-ge : (acc : ℕ) (s : List ℕ) → acc ≤ value_from acc s
value_from-ge acc [] = omega arith
value_from-ge acc (c ∷ s) = omega (arith, value_from-ge (10 * acc + (c - b'0')) s)

digits_value-value_from :
    (acc : ℕ) (s : List ℕ)
    → All IsDigit s
    → value_from acc s < word
    → digits_value acc s ≡ some (value_from acc s)
digits_value-value_from acc [] h k = refl
digits_value-value_from acc (c ∷ s) (d, h) k = ground (
  arith,
  d.0,
  d.1,
  value_from-ge (10 * acc + (c - b'0')) s,
  digits_value-value_from (10 * acc + (c - b'0')) s h k,
)

pub parse_usize-numeral_text :
    (m : Numeral) → IsNumeral m → parse_usize (numeral_text m) ≡ some (numeral_value m)
parse_usize-numeral_text (numeral [] final) (d, h) =
    ground (arith, d.0.0, d.0.1, digits_value-value_from 0 (final ∷ []) d h)
parse_usize-numeral_text (numeral (c ∷ front) final) (d, h) =
    ground (arith, d.0.0, d.0.1, digits_value-value_from 0 (c ∷ (front ++ (final ∷ []))) d h)

width-numeral_text :
    (m : Numeral)
    → IsNumeral m
    → numeral_value m % 8 ≡ 0
    → 8 ≤ numeral_value m
    → width (numeral_text m) ≡ some (numeral_value m / 8)
width-numeral_text m h k l = ground (arith, parse_usize-numeral_text m h)

pub get_abi_type_basic-simple_text :
    (a : Option (List ℕ)) (t : Simple)
    → IsSimple t
    → get_abi_type_basic (simple_text t) 32 a ≡ some (simple_default a t)
unfolding get_abi_type_basic
get_abi_type_basic-simple_text a signed h = refl
get_abi_type_basic-simple_text a unsigned h = refl
get_abi_type_basic-simple_text none address_name h = refl
get_abi_type_basic-simple_text (some a) address_name h = refl
get_abi_type_basic-simple_text a bool_name h = refl
get_abi_type_basic-simple_text a bytes_name h = refl
get_abi_type_basic-simple_text a string_name h = refl
get_abi_type_basic-simple_text a unknown h = refl
get_abi_type_basic-simple_text a (signed_of (numeral [] d)) h =
    rw (width-numeral_text (numeral [] d) h.0 h.1 h.2) refl
get_abi_type_basic-simple_text a (signed_of (numeral (c ∷ s) d)) h =
    rw (width-numeral_text (numeral (c ∷ s) d) h.0 h.1 h.2) refl
get_abi_type_basic-simple_text a (unsigned_of (numeral [] d)) h =
    rw (width-numeral_text (numeral [] d) h.0 h.1 h.2) refl
get_abi_type_basic-simple_text a (unsigned_of (numeral (c ∷ s) d)) h =
    rw (width-numeral_text (numeral (c ∷ s) d) h.0 h.1 h.2) refl
get_abi_type_basic-simple_text a (bytes_of (numeral [] d)) h =
    rw (parse_usize-numeral_text (numeral [] d) h) refl
get_abi_type_basic-simple_text a (bytes_of (numeral (c ∷ s) d)) h =
    rw (parse_usize-numeral_text (numeral (c ∷ s) d) h) refl
