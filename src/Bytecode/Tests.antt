-- ===== src/Bytecode/Tests.antt =====
-- The instructions of a short code: PUSH1 5, ADD, JUMP, and two zeros.
use ityfuzz.Prelude.{
  ℕ, ◌≡◌, ◌<◌, ◌↔◌, refl, true, false, some, List, [], ◌∷◌, get_elem?, length, wrapping_sub, arith,
  add_member,
}
use ityfuzz.Bytecode.{all_bytecode, strip_zeros, cbor_len, instructions_from}
use ityfuzz.Bytecode.Constants.{find_constants, find_constants-slices}
use ityfuzz.Bytecode.Starts.{Starts, IsTrimmed, Metadata, lists, all_bytecode-Starts}

abbrev code : List ℕ
code = 0x60 ∷ 5 ∷ 0x01 ∷ 0x56 ∷ 0 ∷ 0 ∷ []

abbrev found : List (ℕ × ℕ)
found = (0, 0x60) ∷ (2, 0x01) ∷ (3, 0x56) ∷ []

all_bytecode-Starts_example :
    (trimmed : List ℕ) × (n : ℕ) × IsTrimmed code trimmed
    × Metadata false trimmed n
    × ((lists 2 0x01 found ≡ true) ↔ (
        Starts trimmed 0 2
        × (get_elem? trimmed 2 ≡ some 0x01)
        × (2 < wrapping_sub (length trimmed) n)))
unfolding all_bytecode strip_zeros cbor_len instructions_from
all_bytecode-Starts_example =
    all_bytecode-Starts false 0x60 (5 ∷ 0x01 ∷ 0x56 ∷ 0 ∷ 0 ∷ []) found 2 0x01 refl (omega arith)

find_constants-slices_example : find_constants false 6 code ≡ some ((5 ∷ []) ∷ [])
unfolding all_bytecode strip_zeros cbor_len instructions_from add_member
find_constants-slices_example = find_constants-slices 6 code false found refl (omega arith)
