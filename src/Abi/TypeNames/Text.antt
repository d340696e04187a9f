-- ===== src/Abi/TypeNames/Text.antt =====
-- The operations on texts that src/evm/abi.rs uses to read type names. A text is the list of its
-- code points.
use Prim.Native.Char.{code}
use Prim.Native.String.{String}
use mathlib.Core.List.{reverse}
use ityfuzz.Prelude.{
  ℕ, Bool, true, false, ◌&&◌, Option, none, some, List, [], ◌∷◌, ◌==◌, if◌then◌else◌, ◌+◌, ◌-◌, ◌*◌,
  leb, ltb, word,
}

abbrev pub codes : String → List ℕ
codes String.[] = []
codes (String.◌∷◌ c s) = code c ∷ codes s

-- `str::strip_prefix`.
abbrev pub strip_prefix : List ℕ → List ℕ → Option (List ℕ)
strip_prefix [] s = some s
strip_prefix (p ∷ ps) [] = none
strip_prefix (p ∷ ps) (c ∷ s) = if c == p then strip_prefix ps s else none

abbrev pub starts_with : List ℕ → List ℕ → Bool
starts_with p s = elim (strip_prefix p s) [ none ↦ false | some rest ↦ true ]

-- `str::ends_with`, by the last character first.
abbrev pub ends_with : List ℕ → List ℕ → Bool
ends_with p s = starts_with (reverse p) (reverse s)

-- `str::rsplit_once` at a character.
abbrev pub rsplit_once : ℕ → List ℕ → Option (List ℕ × List ℕ)
rsplit_once c [] = none
rsplit_once c (x ∷ s) = elim (rsplit_once c s) [
  | some (before, after) ↦ some (x ∷ before, after)
  | none ↦ if x == c then some ([], s) else none
]

-- The first part of `str::split` at a character.
abbrev pub first_part : ℕ → List ℕ → List ℕ
first_part c [] = []
first_part c (x ∷ s) = if x == c then [] else x ∷ first_part c s

abbrev pub is_digit : ℕ → Bool
is_digit c = leb b'0' c && leb c b'9'

abbrev pub digits_value : ℕ → List ℕ → Option ℕ
digits_value acc [] = some acc
digits_value acc (c ∷ s) =
    let next = 10 * acc + (c - b'0') in
    if is_digit c && ltb next word then digits_value next s else none

abbrev pub unsigned_value : List ℕ → Option ℕ
unsigned_value [] = none
unsigned_value (c ∷ s) = digits_value 0 (c ∷ s)

-- `str::parse::<usize>`; `none` is an error.
abbrev pub parse_usize : List ℕ → Option ℕ
parse_usize [] = none
parse_usize (c ∷ s) = if c == b'+' then unsigned_value s else unsigned_value (c ∷ s)
