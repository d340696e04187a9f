-- ===== src/Abi/TypeNames/Tests.antt =====
-- Type names like those of the repository's tests.
use ityfuzz.Prelude.{◌≡◌, refl, none, some, [], ◌∷◌, arith}
use ityfuzz.Abi.TypeNames.{split_with_parenthesis, get_abi_type, type_within}
use ityfuzz.Abi.TypeNames.Text.{codes}
use ityfuzz.Abi.TypeNames.Printing.{
  Numeral, numeral, TypeName, simple, tuple_of, fixed_of, unsigned_of, bytes_name, no_names,
  and_name, type_text, type_default, IsTypeName, height,
}
use ityfuzz.Abi.TypeNames.Fuel.{type_within-get_abi_type}
use ityfuzz.Abi.TypeNames.Roundtrip.{get_abi_type-type_text}

nested_parts :
    split_with_parenthesis (codes "a,b,(c,d),e")
    ≡ codes "a" ∷ codes "b" ∷ codes "(c,d)" ∷ codes "e" ∷ []
nested_parts = refl

-- A width that is no multiple of 8 is a panic.
odd_width : get_abi_type (codes "uint12") none ≡ none
unfolding get_abi_type
odd_width = refl

abbrev two : Numeral
two = numeral [] b'2'

abbrev sixteen : Numeral
sixteen = numeral (b'1' ∷ []) b'6'

-- The type `(uint16,bytes[2])`.
abbrev pair_name : TypeName
pair_name =
    tuple_of (
      and_name (simple (unsigned_of sixteen))
        (and_name (fixed_of (simple bytes_name) two) no_names))

pair_text : type_text pair_name ≡ codes "(uint16,bytes[2])"
unfolding type_text
pair_text = refl

get_abi_type-type_text_example :
    get_abi_type (type_text pair_name) none ≡ some (type_default none pair_name)
unfolding IsTypeName height
get_abi_type-type_text_example =
    get_abi_type-type_text none pair_name
      (
        (
          (((omega arith, omega arith), ((omega arith, omega arith), tt)), omega arith),
          refl,
          omega arith,
        ),
        ((tt, (((omega arith, omega arith), tt), omega arith)), tt),
      )
      (omega arith)

type_within-get_abi_type_example :
    type_within 20 (codes "(uint16,bytes[2])") none ≡ get_abi_type (codes "(uint16,bytes[2])") none
type_within-get_abi_type_example =
    type_within-get_abi_type 20 (codes "(uint16,bytes[2])") none (omega arith)
