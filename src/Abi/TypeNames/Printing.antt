-- ===== src/Abi/TypeNames/Printing.antt =====
-- Solidity's type names as trees, their text, and the default value of each: what the parser of
-- src/evm/abi.rs is to read.
use ityfuzz.Prelude.{
  ℕ, suc, ◌≡◌, true, false, Option, none, some, List, [], ◌∷◌, ◌++◌, ◌+◌, ◌-◌, ◌*◌, ◌/◌, ◌%◌, ◌≤◌,
  ◌<◌, word, replicate, All,
}
use Prim.Native.Nat.{max}
use ityfuzz.Abi.{
  Abi, aempty, a256, adynamic, aarray, aunknown, int, uint, bool, bytes, address, BoxedAbis, nil,
  cons,
}
use ityfuzz.Abi.TypeNames.{boxed_default, copies}
use ityfuzz.Abi.TypeNames.Text.{codes}

-- The digits before the last, and the last.
pub data Numeral : Type 0 where
  numeral : List ℕ → ℕ → Numeral

abbrev pub numeral_text : Numeral → List ℕ
numeral_text (numeral front final) = front ++ (final ∷ [])

abbrev pub value_from : ℕ → List ℕ → ℕ
value_from acc [] = acc
value_from acc (c ∷ s) = value_from (10 * acc + (c - b'0')) s

abbrev pub numeral_value : Numeral → ℕ
numeral_value m = value_from 0 (numeral_text m)

abbrev pub IsDigit : ℕ → Type 0
IsDigit c = (b'0' ≤ c) × (c ≤ b'9')

abbrev pub IsNumeral : Numeral → Type 0
IsNumeral m = All IsDigit (numeral_text m) × (numeral_value m < word)

pub data Simple : Type 0 where
  signed unsigned address_name bool_name bytes_name string_name unknown : Simple
  signed_of unsigned_of bytes_of : Numeral → Simple

mutual
  pub data TypeName : Type 0 where
    simple : Simple → TypeName
    tuple_of : TypeNames → TypeName
    dynamic_of : TypeName → TypeName
    fixed_of : TypeName → Numeral → TypeName

  pub data TypeNames : Type 0 where
    no_names : TypeNames
    and_name : TypeName → TypeNames → TypeNames

abbrev pub simple_text : Simple → List ℕ
simple_text signed = codes "int"
simple_text unsigned = codes "uint"
simple_text address_name = codes "address"
simple_text bool_name = codes "bool"
simple_text bytes_name = codes "bytes"
simple_text string_name = codes "string"
simple_text unknown = codes "unknown"
simple_text (signed_of m) = codes "int" ++ numeral_text m
simple_text (unsigned_of m) = codes "uint" ++ numeral_text m
simple_text (bytes_of m) = codes "bytes" ++ numeral_text m

unfoldable mutual
  pub type_text : TypeName → List ℕ
  type_text (simple t) = simple_text t
  type_text (tuple_of ts) = b'(' ∷ (joined_text ts ++ (b')' ∷ []))
  type_text (dynamic_of t) = type_text t ++ codes "[]"
  type_text (fixed_of t m) = type_text t ++ (b'[' ∷ (numeral_text m ++ (b']' ∷ [])))

  pub joined_text : TypeNames → List ℕ
  joined_text no_names = []
  joined_text (and_name t ts) = type_text t ++ further_text ts

  -- The names after the first.
  pub further_text : TypeNames → List ℕ
  further_text no_names = []
  further_text (and_name t ts) = b',' ∷ (type_text t ++ further_text ts)

abbrev pub type_texts : TypeNames → List (List ℕ)
unfolding type_text
type_texts no_names = []
type_texts (and_name t ts) = type_text t ∷ type_texts ts

-- The depth of parentheses.
unfoldable mutual
  pub height : TypeName → ℕ
  height (simple t) = 0
  height (tuple_of ts) = suc (heights ts)
  height (dynamic_of t) = height t
  height (fixed_of t m) = height t

  pub heights : TypeNames → ℕ
  heights no_names = 0
  heights (and_name t ts) = max (height t) (heights ts)

abbrev IsWidth : Numeral → Type 0
IsWidth m = IsNumeral m × (numeral_value m % 8 ≡ 0) × (8 ≤ numeral_value m)

abbrev pub IsSimple : Simple → Type 0
IsSimple (signed_of m) = IsWidth m
IsSimple (unsigned_of m) = IsWidth m
IsSimple (bytes_of m) = IsNumeral m
IsSimple t = Unit

unfoldable mutual
  pub IsTypeName : TypeName → Type 0
  IsTypeName (simple t) = IsSimple t
  IsTypeName (tuple_of ts) = AreTypeNames ts
  IsTypeName (dynamic_of t) = IsTypeName t
  IsTypeName (fixed_of t m) = IsTypeName t × IsNumeral m

  pub AreTypeNames : TypeNames → Type 0
  AreTypeNames no_names = Unit
  AreTypeNames (and_name t ts) = IsTypeName t × AreTypeNames ts

abbrev pub simple_default : Option (List ℕ) → Simple → Abi
simple_default a signed = a256 (replicate 32 0) false false int
simple_default a unsigned = a256 (replicate 32 0) false false uint
simple_default none address_name = a256 (replicate 20 0) true false address
simple_default (some a) address_name = a256 a true false address
simple_default a bool_name = a256 (0 ∷ []) false false bool
simple_default a bytes_name = adynamic [] 32
simple_default a string_name = adynamic [] 32
simple_default a unknown = aunknown (boxed_default (a256 (replicate 32 0) false false uint)) 1
simple_default a (signed_of m) = a256 (replicate (numeral_value m / 8) 0) false false int
simple_default a (unsigned_of m) = a256 (replicate (numeral_value m / 8) 0) false false uint
simple_default a (bytes_of m) = a256 (replicate (numeral_value m) 0) false false bytes

unfoldable mutual
  pub type_default : Option (List ℕ) → TypeName → Abi
  type_default a (simple t) = simple_default a t
  type_default a (tuple_of no_names) = aempty
  type_default a (tuple_of (and_name t ts)) =
      aarray (cons (boxed_default (type_default a t)) (type_defaults a ts)) false
  type_default a (dynamic_of t) = aarray (cons (boxed_default (type_default a t)) nil) true
  type_default a (fixed_of t m) =
      aarray (copies (boxed_default (type_default a t)) (numeral_value m)) false

  pub type_defaults : Option (List ℕ) → TypeNames → BoxedAbis
  type_defaults a no_names = nil
  type_defaults a (and_name t ts) = cons (boxed_default (type_default a t)) (type_defaults a ts)
