-- ===== src/Abi/Decode.antt =====
-- `set_bytes` of src/evm/abi.rs: decoding into a value that gives the shape.
use ityfuzz.Prelude.{
  ℕ, zero, suc, ◌+◌, Bool, true, false, Option, none, some, List, [], ◌∷◌, if◌then◌else◌, ltb, leb,
  wrapping_add, length, take, drop, ◌>>=◌,
}
use ityfuzz.Abi.{
  Abi, aempty, a256, adynamic, aarray, aunknown, BoxedAbi, boxed, BoxedAbis, nil, cons, is_static,
  t256, tarray, tdynamic, tempty, tunknown, get_type, count,
}
use ityfuzz.Abi.Word.{get_size}
use ityfuzz.Abi.Encode.{abi_size}

-- The answer of `set_bytes`, and the value as it is afterwards.
abbrev pub Decoded : Type 0 → Type 0
Decoded A = Option (Bool × A)

-- `bytes[from..]`
abbrev pub slice_from : ℕ → List ℕ → Option (List ℕ)
slice_from from bytes = if leb from (length bytes) then some (drop from bytes) else none

unfoldable pub set_dynamic : List ℕ → ℕ → List ℕ → Decoded Abi
set_dynamic data' multiplier [] = some (true, adynamic [] multiplier)
set_dynamic data' multiplier (b ∷ bytes) = do
  size ← get_size (b ∷ bytes)
  if leb (32 + size) (length (b ∷ bytes))
      then some (true, adynamic (take size (drop 32 (b ∷ bytes))) multiplier)
      else none

-- Where an item stands, relative to the base, and the size of its head.
unfoldable pub item_place : Abi → ℕ → ℕ → List ℕ → Option (ℕ × ℕ)
item_place item base offset bytes = elim (get_type item) [
  | t256 ↦ some (offset, 32)
  | tarray ↦ if is_static item then some (offset, abi_size item) else (do
    rest ← slice_from (wrapping_add offset base) bytes
    place ← get_size rest
    some (place, 32))
  | tdynamic ↦ (do
    rest ← slice_from (wrapping_add offset base) bytes
    place ← get_size rest
    some (place, 32))
  | tempty ↦ some (0, 0)
  | tunknown ↦ none
]

-- One round of the loop over the items: `none` is a panic, and otherwise the first part says
-- whether the loop goes on, with the next offset; the second is the item afterwards.
unfoldable pub set_item : (List ℕ → Decoded Abi) → Abi → ℕ → ℕ → List ℕ → Option (Option ℕ × Abi)
unfolding item_place
set_item decode item base offset bytes = do
  place ← item_place item base offset bytes
  let start = wrapping_add place.0 base
  if ltb (length bytes) (wrapping_add start place.1) then some (none, item) else (do
    rest ← slice_from start bytes
    decoded ← decode rest
    some (some (wrapping_add offset place.1), decoded.1))

-- `while data.len() < n { data.push(data[0].clone()) }; data.truncate(n)`, with `n` items wanted.
unfoldable pub resize : BoxedAbi → BoxedAbis → ℕ → BoxedAbis
resize first bs zero = nil
resize first nil (suc n) = cons first (resize first nil n)
resize first (cons b bs) (suc n) = cons b (resize first bs n)

-- The rounds over the clones of the first item, by which a dynamic array has been extended.
unfoldable pub set_clones :
    (List ℕ → Decoded Abi) → BoxedAbi → ℕ → ℕ → ℕ → List ℕ → Decoded BoxedAbis
unfolding set_item resize
set_clones decode (boxed item function) zero base offset bytes = some (true, nil)
set_clones decode (boxed item function) (suc k) base offset bytes = do
  done ← set_item decode item base offset bytes
  elim done.0 [
    | none ↦ some (false, cons (boxed done.1 function) (resize (boxed item function) nil k))
    | some offset' ↦ (do
      rest ← set_clones decode (boxed item function) k base offset' bytes
      some (rest.0, cons (boxed done.1 function) rest.1))
  ]

-- `assert!(bytes.is_empty())`
unfoldable pub set_empty : List ℕ → Decoded Abi
set_empty [] = some (true, aempty)
set_empty (b ∷ bytes) = none

abbrev pub default_boxed : BoxedAbi
default_boxed = boxed aempty (0 ∷ 0 ∷ 0 ∷ 0 ∷ [])

-- The array that a decoding of the items leaves.
abbrev pub as_array : Bool → Decoded BoxedAbis → Decoded Abi
as_array dynamic_size done = do result ← done; some (result.0, aarray result.1 dynamic_size)

unfoldable mutual
  unfolding set_dynamic set_item set_clones set_empty resize

  pub set_bytes : Abi → List ℕ → Decoded Abi
  set_bytes aempty bytes = set_empty bytes
  set_bytes (a256 data' is_address dont_mutate inner_type) bytes =
      if ltb (length bytes) 32
      then some (false, a256 data' is_address dont_mutate inner_type)
      else some (true, a256 (take 32 bytes) is_address dont_mutate inner_type)
  set_bytes (adynamic data' multiplier) bytes = set_dynamic data' multiplier bytes
  set_bytes (aunknown (boxed b function) size) bytes = do
    decoded ← set_bytes b bytes
    some (true, aunknown (boxed decoded.1 function) size)
  set_bytes (aarray items false) bytes =
      as_array false
        (set_items items default_boxed (λ k offset. some (true, nil)) (count items) 0 0 bytes)
  set_bytes (aarray nil true) bytes = do
    n ← get_size bytes
    as_array true (set_clones set_empty default_boxed n 32 0 bytes)
  set_bytes (aarray (cons (boxed b function) bs) true) bytes =
      let clones =
        λ (k offset : ℕ). set_clones (set_bytes b) (boxed b function) k 32 offset bytes in
      let items = set_items (cons (boxed b function) bs) (boxed b function) clones in
      get_size bytes >>= λ n. as_array true (items n 32 0 bytes)

  -- The loop over the items that are there, `n` of all items being wanted; `clones` goes on.
  pub set_items :
      BoxedAbis → BoxedAbi → (ℕ → ℕ → Decoded BoxedAbis) → ℕ → ℕ → ℕ → List ℕ → Decoded BoxedAbis
  set_items nil first clones n base offset bytes = clones n offset
  set_items (cons b bs) first clones zero base offset bytes = some (true, nil)
  set_items (cons (boxed b function) bs) first clones (suc n) base offset bytes = do
    done ← set_item (set_bytes b) b base offset bytes
    elim done.0 [
      | none ↦ some (false, cons (boxed done.1 function) (resize first bs n))
      | some offset' ↦ (do
        rest ← set_items bs first clones n base offset' bytes
        some (rest.0, cons (boxed done.1 function) rest.1))
    ]

-- `BoxedABI::set_bytes`: what follows the four bytes of the function hash.
unfoldable pub set_call : BoxedAbi → List ℕ → Decoded BoxedAbi
unfolding set_bytes
set_call (boxed b function) bytes = do
  rest ← slice_from 4 bytes
  decoded ← set_bytes b rest
  some (decoded.0, boxed decoded.1 function)
