-- ===== src/Bytecode.antt =====
-- `all_bytecode` of src/evm/bytecode_iterator.rs: the instructions of a contract's code.
-- `none` is a panic. `skip` is the global flag `SKIP_CBOR`.
pub mod Starts
pub mod Constants
mod Tests
use ityfuzz.Prelude.{
  ℕ, zero, suc, ◌+◌, ◌-◌, ◌*◌, Bool, true, false, ◌&&◌, ◌||◌, not, Option, none, some, List, [],
  ◌∷◌, ◌==◌, ltb, leb, if◌then◌else◌, wrapping_sub, length, get_elem?, last?, ◌>>=◌,
}

-- `while bytes.last() == 0 { bytes.pop(); }`
unfoldable pub strip_zeros : List ℕ → List ℕ
strip_zeros [] = []
strip_zeros (b ∷ bytes) = elim (strip_zeros bytes) [
  | [] ↦ if b == 0 then [] else b ∷ []
  | c ∷ rest ↦ b ∷ c ∷ rest
]

-- JUMP, JUMPI, STOP, INVALID, REVERT, RETURN
abbrev pub ends_code : ℕ → Bool
ends_code op =
    op == 0x56 || (op == 0x57 || (op == 0x00 || (op == 0xfe || (op == 0xfd || op == 0xf3))))

-- The length of the metadata at the end, with its two length bytes.
unfoldable pub cbor_len : Bool → List ℕ → Option ℕ
cbor_len skip bytes =
    let last_op : ℕ = elim (last? bytes) [ none ↦ 0xf3 | some op ↦ op ] in
    if not (ends_code last_op) && not skip
    then (do
      last_2 ← get_elem? bytes (wrapping_sub (length bytes) 2)
      last_1 ← get_elem? bytes (wrapping_sub (length bytes) 1)
      some (last_2 * 256 + last_1 + 2))
    else some 0

-- The bytes of a PUSH that follow its opcode.
abbrev pub push_len : ℕ → ℕ
push_len op = if leb 0x60 op && leb op 0x7f then op - 0x5f else 0

-- The loop from index `i`.
unfoldable pub instructions_from : ℕ → List ℕ → ℕ → ℕ → List (ℕ × ℕ)
instructions_from zero code end i = []
instructions_from (suc fuel) code end i =
    if ltb i end
    then (elim (get_elem? code i) [
      | none ↦ []
      | some op ↦ (i, op) ∷ instructions_from fuel code end (i + 1 + push_len op)
    ])
    else []

unfoldable pub all_bytecode : Bool → List ℕ → Option (List (ℕ × ℕ))
unfolding strip_zeros cbor_len instructions_from
all_bytecode skip [] = some []
all_bytecode skip (b ∷ bytes) = do
  let code = strip_zeros (b ∷ bytes)
  n ← cbor_len skip code
  some (instructions_from (suc (length code)) code (wrapping_sub (length code) n) 0)
