-- ===== src/Abi/TypeNames/Roundtrip.antt =====
-- src/evm/abi.rs: `get_abi_type` reads a printed type name back.
use mathlib.Core.List.{append_assoc}
use ityfuzz.Prelude.{
  ℕ, zero, suc, ◌≡◌, refl, sym, ap, ◌∙◌, false, some, Option, List, [], ◌∷◌, ◌++◌, ◌≤◌, ◌<◌, arith,
  All, length, length-append, contains,
}
use ityfuzz.Abi.TypeNames.{
  i32_size, Shape, empty_tuple, basic, tuple, fixed, dynamic, shape_of, shaped_type, tuple_types,
  type_within, get_abi_type, split_with_parenthesis,
}
use ityfuzz.Abi.TypeNames.Text.{codes}
use ityfuzz.Abi.TypeNames.Printing.{
  Numeral, numeral, numeral_text, IsDigit, IsNumeral, Simple, signed, unsigned, address_name,
  bool_name, bytes_name, string_name, unknown, signed_of, unsigned_of, bytes_of, simple_text,
  IsSimple, TypeName, TypeNames, simple, tuple_of, dynamic_of, fixed_of, no_names, and_name,
  type_text, further_text, type_texts, height, heights, IsTypeName, AreTypeNames, type_default,
  type_defaults,
}
use ityfuzz.Abi.TypeNames.Joined.{split_with_parenthesis-joined_text}
use ityfuzz.Abi.TypeNames.Simples.{parse_usize-numeral_text, get_abi_type_basic-simple_text}
use ityfuzz.Abi.TypeNames.Shapes.{shape_of-basic, shape_of-tuple, shape_of-dynamic, shape_of-fixed}

digits-contains : (c : ℕ) (s : List ℕ) → b'9' < c → All IsDigit s → contains c s ≡ false
digits-contains c [] l h = refl
digits-contains c (x ∷ s) l (d, h) = ground (arith, d.1, digits-contains c s l h)

final-IsDigit : (front : List ℕ) (final : ℕ) → All IsDigit (front ++ (final ∷ [])) → IsDigit final
final-IsDigit [] final h = h.0
final-IsDigit (c ∷ front) final h = final-IsDigit front final h.1

shape_of-numeral :
    (s front : List ℕ) (final : ℕ)
    → All IsDigit (front ++ (final ∷ []))
    → shape_of (s ++ (front ++ (final ∷ []))) ≡ basic
shape_of-numeral s front final h =
    let d = final-IsDigit front final h in
    ap shape_of (sym (append_assoc s front (final ∷ [])))
    ∙ shape_of-basic (s ++ front) final (λ e. omega (arith, d.0, d.1, e))
        (λ e. omega (arith, d.0, d.1, e))

shape_of-simple_text : (t : Simple) → IsSimple t → shape_of (simple_text t) ≡ basic
shape_of-simple_text signed h = refl
shape_of-simple_text unsigned h = refl
shape_of-simple_text address_name h = refl
shape_of-simple_text bool_name h = refl
shape_of-simple_text bytes_name h = refl
shape_of-simple_text string_name h = refl
shape_of-simple_text unknown h = refl
shape_of-simple_text (signed_of (numeral front final)) h =
    shape_of-numeral (codes "int") front final h.0.0
shape_of-simple_text (unsigned_of (numeral front final)) h =
    shape_of-numeral (codes "uint") front final h.0.0
shape_of-simple_text (bytes_of (numeral front final)) h =
    shape_of-numeral (codes "bytes") front final h.0

Nonempty : List ℕ → Type 0
Nonempty s = (x : ℕ) × (t : List ℕ) × (s ≡ x ∷ t)

append-Nonempty : (s t : List ℕ) → Nonempty s → Nonempty (s ++ t)
unfolding Nonempty
append-Nonempty [] t (x, u, e) = cc
append-Nonempty (c ∷ s) t h = (c, s ++ t, refl)

type_text-Nonempty : (t : TypeName) → Nonempty (type_text t)
unfolding Nonempty type_text
type_text-Nonempty (simple t) = simple_text-Nonempty t
  where
    simple_text-Nonempty : (t : Simple) → Nonempty (simple_text t)
    simple_text-Nonempty signed = (_, _, refl)
    simple_text-Nonempty unsigned = (_, _, refl)
    simple_text-Nonempty address_name = (_, _, refl)
    simple_text-Nonempty bool_name = (_, _, refl)
    simple_text-Nonempty bytes_name = (_, _, refl)
    simple_text-Nonempty string_name = (_, _, refl)
    simple_text-Nonempty unknown = (_, _, refl)
    simple_text-Nonempty (signed_of m) = (_, _, refl)
    simple_text-Nonempty (unsigned_of m) = (_, _, refl)
    simple_text-Nonempty (bytes_of m) = (_, _, refl)
type_text-Nonempty (tuple_of ts) = (_, _, refl)
type_text-Nonempty (dynamic_of t) = append-Nonempty (type_text t) _ (type_text-Nonempty t)
type_text-Nonempty (fixed_of t m) = append-Nonempty (type_text t) _ (type_text-Nonempty t)

shape_of-tuple_text :
    (s : List ℕ)
    → Nonempty s
    → shape_of (b'(' ∷ (s ++ codes ")")) ≡ tuple (split_with_parenthesis s)
unfolding Nonempty
shape_of-tuple_text [] (x, t, e) = cc
shape_of-tuple_text (x ∷ s) h = shape_of-tuple x s

shape_of-dynamic_text : (s : List ℕ) → Nonempty s → shape_of (s ++ codes "[]") ≡ dynamic s
unfolding Nonempty
shape_of-dynamic_text [] (x, t, e) = cc
shape_of-dynamic_text (x ∷ s) h = shape_of-dynamic x s

shape_of-fixed_text :
    (s : List ℕ) (m : Numeral)
    → IsNumeral m
    → shape_of (s ++ (b'[' ∷ (numeral_text m ++ codes "]"))) ≡ fixed s (numeral_text m)
shape_of-fixed_text s (numeral front final) h =
    let d = final-IsDigit front final h.0 in
    shape_of-fixed s front final (λ e. omega (arith, d.0, d.1, e))
      (digits-contains b'[' (front ++ (final ∷ [])) (omega arith) h.0)
      (digits-contains b']' (front ++ (final ∷ [])) (omega arith) h.0)

type_within-shape :
    (n : ℕ) (name : List ℕ) (a : Option (List ℕ)) {shape : Shape}
    → shape_of name ≡ shape
    → type_within (suc n) name a ≡ shaped_type (λ item. type_within n item a) shape name a
unfolding type_within
type_within-shape n name a e =
    ap (λ (x : Shape). shaped_type (λ item. type_within n item a) x name a) e

mutual
  unfolding type_text height IsTypeName type_default shaped_type

  type_within-type_text :
      (n : ℕ) (a : Option (List ℕ)) (t : TypeName)
      → IsTypeName t
      → height t < i32_size
      → length (type_text t) < n
      → type_within n (type_text t) a ≡ some (type_default a t)
  type_within-type_text zero a t w h l = absurd (omega arith)
  type_within-type_text (suc n) a (simple t) w h l =
      type_within-shape n (simple_text t) a (shape_of-simple_text t w)
      ∙ get_abi_type_basic-simple_text a t w
  type_within-type_text (suc n) a (dynamic_of t) w h l =
      type_within-shape n (type_text (dynamic_of t)) a
        (shape_of-dynamic_text (type_text t) (type_text-Nonempty t))
      ∙ rw
          (type_within-type_text n a t w h
            (omega (arith, length-append (type_text t) (codes "[]"))))
          refl
  type_within-type_text (suc n) a (fixed_of t m) w h l =
      type_within-shape n (type_text (fixed_of t m)) a (shape_of-fixed_text (type_text t) m w.1)
      ∙ rw
          (
            parse_usize-numeral_text m w.1,
            type_within-type_text n a t w.0 h
                (omega (arith, length-append (type_text t) (b'[' ∷ (numeral_text m ++ codes "]")))),
          )
          refl
  type_within-type_text (suc n) a (tuple_of no_names) w h l =
      type_within-shape n (codes "()") a {shape = empty_tuple} refl
  type_within-type_text (suc n) a (tuple_of (and_name t ts)) w h l =
      type_within-shape n (type_text (tuple_of (and_name t ts))) a (
        shape_of-tuple_text (type_text t ++ further_text ts)
          (append-Nonempty (type_text t) (further_text ts) (type_text-Nonempty t))
        ∙ ap tuple (split_with_parenthesis-joined_text t ts w (omega arith)))
      ∙ rw
          (
            type_within-type_text n a t w.0 (omega arith) (
                omega (
                  arith,
                  length-append (type_text t ++ further_text ts) (codes ")"),
                  length-append (type_text t) (further_text ts),
                )),
            tuple_types-type_texts n a ts w.1 (omega arith) (
                omega (
                  arith,
                  length-append (type_text t ++ further_text ts) (codes ")"),
                  length-append (type_text t) (further_text ts),
                )),
          )
          refl

  tuple_types-type_texts :
      (n : ℕ) (a : Option (List ℕ)) (ts : TypeNames)
      → AreTypeNames ts
      → heights ts < i32_size
      → length (further_text ts) ≤ n
      → tuple_types (λ item. type_within n item a) (type_texts ts) ≡ some (type_defaults a ts)
  tuple_types-type_texts n a no_names w h l = refl
  tuple_types-type_texts n a (and_name t ts) w h l =
      rw
        (
          type_within-type_text n a t w.0 (omega arith)
              (omega (arith, length-append (type_text t) (further_text ts))),
          tuple_types-type_texts n a ts w.1 (omega arith)
              (omega (arith, length-append (type_text t) (further_text ts))),
        )
        refl

-- A printed type name is read back as the type's default value, where the parentheses are less
-- than 2^32 deep and the numerals are those of a `usize`, those of integers a multiple of 8 from 8.
pub get_abi_type-type_text :
    (a : Option (List ℕ)) (t : TypeName)
    → IsTypeName t
    → height t < i32_size
    → get_abi_type (type_text t) a ≡ some (type_default a t)
unfolding get_abi_type
get_abi_type-type_text a t w h =
    type_within-type_text (suc (length (type_text t))) a t w h (omega arith)
