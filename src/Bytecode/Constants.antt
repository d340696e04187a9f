-- ===== src/Bytecode/Constants.antt =====
-- `find_constants` of src/evm/bytecode_analyzer.rs, over the instructions that `all_bytecode` lists,
-- and the constants that `add_analysis_result_to_state` joins to the pool. `none` is a panic.
use ityfuzz.Prelude.{
  ℕ, zero, suc, ◌≡◌, refl, ap, ◌∙◌, ltb→lt, ◌+◌, ◌-◌, Bool, true, false, ◌&&◌, not, Option, none,
  some, List, [], ◌∷◌, ◌==◌, ltb, leb, if◌then◌else◌, length, get_elem?, ◌>>=◌, take, drop,
  add_member, list_eq, map, keep_if, ◌≤◌, ◌<◌, arith, get_elem?-total, Bool-cases, inl, inr,
}
use ityfuzz.Bytecode.{all_bytecode, push_len}

-- The bytes of the code that the loop copies, one by one.
abbrev pub copy_bytes : ℕ → List ℕ → ℕ → Option (List ℕ)
copy_bytes zero bytes at = some []
copy_bytes (suc n) bytes at = do
  b ← get_elem? bytes at
  rest ← copy_bytes n bytes (suc at)
  some (b ∷ rest)

-- The loop over the listed instructions. `len` is the length of the original code, `bytes` may be
-- longer by a padding; the set is a list without repetitions.
unfoldable pub constants_from : ℕ → List ℕ → List (ℕ × ℕ) → List (List ℕ) → Option (List (List ℕ))
constants_from len bytes [] constants = some constants
constants_from len bytes ((pc, op) ∷ rest) constants =
    if leb 0x60 op && leb op 0x7f
    then if ltb (pc + op - 0x5e) len
      then (do
        next_op ← get_elem? bytes (pc + op - 0x5e)
        elim (next_op == 0x57) [
          | true ↦ constants_from len bytes rest constants
          | false ↦ (do
            data' ← copy_bytes (op - 0x60 + 1) bytes (pc + 1)
            constants_from len bytes rest (add_member data' constants))
        ])
      else some constants
    else constants_from len bytes rest constants

unfoldable pub find_constants : Bool → ℕ → List ℕ → Option (List (List ℕ))
unfolding constants_from
find_constants skip len bytes = do
  avail_bytecode ← all_bytecode skip bytes
  constants_from len bytes avail_bytecode []

-- `add_analysis_result_to_state`, on the pool of constants if there is one.
unfoldable pub add_constants : List (List ℕ) → Option (List (List ℕ)) → List (List ℕ)
add_constants constants none = constants
add_constants [] (some pool) = pool
add_constants (c ∷ constants) (some pool) = add_constants constants (some (add_member c pool))

drop-get_elem? :
    (bytes : List ℕ) (i b : ℕ) → get_elem? bytes i ≡ some b → drop i bytes ≡ b ∷ drop (suc i) bytes
drop-get_elem? [] i b h = cc
drop-get_elem? (c ∷ bytes) zero b h = ground arith
drop-get_elem? (c ∷ bytes) (suc i) b h = drop-get_elem? bytes i b h

module _ (len : ℕ) (bytes : List ℕ) where
  abbrev is_push : ℕ × ℕ → Bool
  is_push (pc, op) = leb 0x60 op && leb op 0x7f

  -- The instructions before the first PUSH that no instruction of the code follows.
  abbrev before_end : List (ℕ × ℕ) → List (ℕ × ℕ)
  before_end [] = []
  before_end ((pc, op) ∷ rest) =
      if is_push (pc, op) && leb len (pc + op - 0x5e) then [] else (pc, op) ∷ before_end rest

  -- The index of the next instruction is that of the PUSH, its opcode and its data on.
  abbrev is_jumpi : Option ℕ → Bool
  is_jumpi none = false
  is_jumpi (some op) = op == 0x57

  abbrev is_constant : ℕ × ℕ → Bool
  is_constant (pc, op) = is_push (pc, op) && not (is_jumpi (get_elem? bytes (pc + 1 + push_len op)))

  abbrev data_of : ℕ × ℕ → List ℕ
  data_of (pc, op) = take (push_len op) (drop (pc + 1) bytes)

  abbrev add_all : List (List ℕ) → List (List ℕ) → List (List ℕ)
  add_all [] constants = constants
  add_all (c ∷ cs) constants = add_all cs (add_member c constants)

  copy_bytes-slice :
      (n at : ℕ) → at + n ≤ length bytes → copy_bytes n bytes at ≡ some (take n (drop at bytes))
  copy_bytes-slice zero at h = refl
  copy_bytes-slice (suc n) at h =
      let (b, e) = get_elem?-total bytes at (omega arith) in
      rw (e, drop-get_elem? bytes at b e, copy_bytes-slice n (suc at) (omega arith)) refl

  pushed_data :
      (pc op : ℕ)
      → 0x60 ≤ op
      → op ≤ 0x7f
      → pc + op - 0x5e < length bytes
      → copy_bytes (op - 0x60 + 1) bytes (pc + 1) ≡ some (data_of (pc, op))
  pushed_data pc op h k l =
      copy_bytes-slice (op - 0x60 + 1) (pc + 1) (omega arith)
      ∙ ap (λ (n : ℕ). some (take n (drop (pc + 1) bytes))) (grind arith)

  constants_from-slices :
      (insns : List (ℕ × ℕ)) (constants : List (List ℕ))
      → len ≤ length bytes
      → constants_from len bytes insns constants
        ≡ some (add_all (map data_of (keep_if is_constant (before_end insns))) constants)
  unfolding constants_from
  constants_from-slices [] constants h = refl
  constants_from-slices ((pc, op) ∷ rest) constants h =
      elim (Bool-cases (leb 0x60 op && leb op 0x7f)) [
        | inr f ↦ ground (arith, constants_from-slices rest constants h)
        | inl p ↦ elim (Bool-cases (ltb (pc + op - 0x5e) len)) [
          | inr f ↦ ground arith
          | inl l ↦
              (let (b, e) =
                  get_elem?-total bytes (pc + op - 0x5e)
                    (omega (arith, ltb→lt (pc + op - 0x5e) len l)) in
                ground (
                  arith,
                  e,
                  pushed_data pc op,
                  constants_from-slices rest constants h,
                  constants_from-slices rest (add_member (data_of (pc, op)) constants) h,
                ))
        ]
      ]

  -- Where the listing does not panic and the bytes reach the end of the code, finding the constants
  -- does not panic either, and gives the data of the PUSH instructions that no JUMPI follows,
  -- before the first PUSH at the end of the code.
  pub find_constants-slices :
      (skip : Bool) (insns : List (ℕ × ℕ))
      → all_bytecode skip bytes ≡ some insns
      → len ≤ length bytes
      → find_constants skip len bytes
        ≡ some (add_all (map data_of (keep_if is_constant (before_end insns))) [])
  unfolding find_constants
  find_constants-slices skip insns e h = rw (e) (constants_from-slices insns [] h)
