-- ===== src/Abi/TypeNames.antt =====
-- src/evm/abi.rs: the default value of an ABI type, read from the type's name. `none` is a panic.
-- The depth of the parentheses is an `i32` that wraps round at 2^32. An allocation succeeds.
pub mod Text
pub mod Split
pub mod Fuel
pub mod Printing
pub mod Joined
pub mod Simples
pub mod Shapes
pub mod Roundtrip
mod Tests
use ityfuzz.Prelude.{
  ℕ, zero, suc, ◌≡◌, Bool, true, false, ◌&&◌, Option, none, some, List, [], ◌∷◌, ◌++◌, ◌==◌, ◌>>=◌,
  if◌then◌else◌, ◌+◌, ◌-◌, ◌/◌, ◌%◌, ◌^◌, leb, list_beq, length, replicate, take, drop, contains,
}
use ityfuzz.Abi.{
  Abi, aempty, a256, adynamic, aarray, aunknown, A256InnerType, int, uint, bool, bytes, address,
  BoxedAbi, boxed, BoxedAbis, nil, cons,
}
use Text.{codes, strip_prefix, starts_with, ends_with, rsplit_once, first_part, parse_usize}

abbrev pub i32_size : ℕ
i32_size = 2 ^ 32

abbrev pub new_depth : ℕ → ℕ → ℕ
new_depth c depth =
    if c == b'('
    then (depth + 1) % i32_size
    else if c == b')'
    then (depth + i32_size - 1) % i32_size
    else depth

-- The parts from where `current` has been read.
abbrev pub split_from : List ℕ → ℕ → List ℕ → List (List ℕ)
split_from current depth [] = current ∷ []
split_from current depth (c ∷ s) =
    let depth' = new_depth c depth in
    elim (c == b',' && depth' == 0) [
      | true ↦ current ∷ split_from [] depth' s
      | false ↦ split_from (current ++ (c ∷ [])) depth' s
    ]

abbrev pub split_with_parenthesis : List ℕ → List (List ℕ)
split_with_parenthesis s = split_from [] 0 s

abbrev pub boxed_default : Abi → BoxedAbi
boxed_default b = boxed b (replicate 4 0)

abbrev pub copies : BoxedAbi → ℕ → BoxedAbis
copies b zero = nil
copies b (suc n) = cons b (copies b n)

-- The arms of `get_abi_type_basic` that compare the whole name.
abbrev pub exact_type : List ℕ → ℕ → Option (List ℕ) → Option Abi
exact_type name abi_bs with_address =
    if list_beq name (codes "int")
    then some (a256 (replicate abi_bs 0) false false int)
    else if list_beq name (codes "uint")
    then some (a256 (replicate abi_bs 0) false false uint)
    else if list_beq name (codes "address")
    then some (a256 (elim with_address [ some a ↦ a | none ↦ replicate 20 0 ]) true false address)
    else if list_beq name (codes "bool")
    then some (a256 (replicate 1 0) false false bool)
    else if list_beq name (codes "bytes")
    then some (adynamic [] 32)
    else if list_beq name (codes "string")
    then some (adynamic [] 32)
    else none

-- The width in bits as a number of bytes.
abbrev pub width : List ℕ → Option ℕ
width stripped = do
  len ← parse_usize stripped
  if len % 8 == 0 && leb 8 len then some (len / 8) else none

-- Its last arm.
abbrev pub prefixed_type : List ℕ → Option (List ℕ) → Option Abi
prefixed_type name with_address = elim (strip_prefix (codes "uint") name) [
  | some stripped ↦ (do n ← width stripped; exact_type (codes "uint") n with_address)
  | none ↦ elim (strip_prefix (codes "int") name) [
    | some stripped ↦ (do n ← width stripped; exact_type (codes "int") n with_address)
    | none ↦
        if list_beq name (codes "unknown")
        then (do
          concrete ← exact_type (codes "uint") 32 with_address
          some (aunknown (boxed_default concrete) 1))
        else elim (strip_prefix (codes "bytes") name) [
          | some stripped ↦ (do
            len ← parse_usize stripped
            some (a256 (replicate len 0) false false bytes))
          | none ↦ elim name [ [] ↦ some aempty | c ∷ s ↦ none ]
        ]
  ]
]

unfoldable pub get_abi_type_basic : List ℕ → ℕ → Option (List ℕ) → Option Abi
get_abi_type_basic name abi_bs with_address = elim (exact_type name abi_bs with_address) [
  | some b ↦ some b
  | none ↦ prefixed_type name with_address
]

-- The tests of `get_abi_type` on the name, in their order.
pub data Shape : Type 0 where
  empty_tuple basic : Shape
  tuple : List (List ℕ) → Shape
  dynamic : List ℕ → Shape
  -- The length as it is written.
  fixed : List ℕ → List ℕ → Shape

abbrev pub shape_of : List ℕ → Shape
shape_of name =
    if list_beq name (codes "()")
    then empty_tuple
    else if starts_with (codes "(") name && ends_with (codes ")") name
    then tuple (split_with_parenthesis (take (length name - 2) (drop 1 name)))
    else if ends_with (codes "[]") name
    then dynamic (take (length name - 2) name)
    else if ends_with (codes "]") name && contains b'[' name
    then elim (rsplit_once b'[' name) [
      | some (before, after) ↦ fixed before (first_part b']' after)
      | none ↦ basic
    ]
    else basic

-- The items' types by `item_type`.
abbrev pub tuple_types : (List ℕ → Option Abi) → List (List ℕ) → Option BoxedAbis
tuple_types item_type [] = some nil
tuple_types item_type (name ∷ names) = do
  b ← item_type name
  bs ← tuple_types item_type names
  some (cons (boxed_default b) bs)

unfoldable pub shaped_type : (List ℕ → Option Abi) → Shape → List ℕ → Option (List ℕ) → Option Abi
unfolding get_abi_type_basic
shaped_type item_type empty_tuple name with_address = some aempty
shaped_type item_type (tuple parts) name with_address = do
  data' ← tuple_types item_type parts
  some (aarray data' false)
shaped_type item_type (dynamic item) name with_address = do
  b ← item_type item
  some (aarray (copies (boxed_default b) 1) true)
shaped_type item_type (fixed item digits) name with_address = do
  len ← parse_usize digits
  b ← item_type item
  some (aarray (copies (boxed_default b) len) false)
shaped_type item_type basic name with_address = get_abi_type_basic name 32 with_address

-- The fuel bounds the nesting of types.
unfoldable pub type_within : ℕ → List ℕ → Option (List ℕ) → Option Abi
unfolding shaped_type
type_within zero name with_address = none
type_within (suc n) name with_address =
    shaped_type (λ item. type_within n item with_address) (shape_of name) name with_address

unfoldable pub get_abi_type : List ℕ → Option (List ℕ) → Option Abi
unfolding type_within
get_abi_type name with_address = type_within (suc (length name)) name with_address

unfoldable pub get_abi_type_boxed : List ℕ → Option BoxedAbi
unfolding get_abi_type
get_abi_type_boxed abi_name = do b ← get_abi_type abi_name none; some (boxed_default b)

unfoldable pub get_abi_type_boxed_with_address : List ℕ → List ℕ → Option BoxedAbi
unfolding get_abi_type
get_abi_type_boxed_with_address abi_name address' = do
  b ← get_abi_type abi_name (some address')
  some (boxed_default b)
