-- ===== src/Abi/Encode.antt =====
-- `get_bytes` and `get_size` of src/evm/abi.rs. `none` is a panic, or a write outside the buffer
-- through a raw pointer.
use ityfuzz.Prelude.{
  ℕ, ◌+◌, ◌-◌, ◌^◌, ltb, leb, wrapping_add, Option, none, some, ◌>>=◌, Bool, true, false, List, [],
  ◌∷◌, ◌++◌, if◌then◌else◌, length, replicate, take, drop,
}
use ityfuzz.Abi.{
  Abi, aempty, a256, adynamic, aarray, aunknown, BoxedAbi, boxed, BoxedAbis, nil, cons, is_static,
  boxed_static,
}
use ityfuzz.Abi.Word.{roundup, set_size}

-- `vec![0; n]`: more than `isize::MAX` bytes are a panic.
abbrev pub zeroed : ℕ → Option (List ℕ)
zeroed n = if ltb n (2 ^ 63) then some (replicate n 0) else none

-- The loop of writes from index `at` on.
abbrev pub copy_at : ℕ → List ℕ → List ℕ → Option (List ℕ)
copy_at at data' bytes =
    if leb (at + length data') (length bytes)
    then some (take at bytes ++ data' ++ drop (at + length data') bytes)
    else none

unfoldable pub a256_bytes : List ℕ → Option (List ℕ)
a256_bytes data' = copy_at (32 - length data') data' (replicate 32 0)

-- The size is written before the value, so a buffer that has room for the value at 32 has room for
-- the size.
unfoldable pub dynamic_bytes : List ℕ → ℕ → Option (List ℕ)
dynamic_bytes data' multiplier = do
  new_len ← roundup (length data') multiplier
  bytes ← zeroed (wrapping_add new_len 32)
  copy_at 32 data' (set_size bytes (length data'))

-- An item of an array: whether it is static, and its encoding.
pub record Item : Type 0 where
  pub static : Bool
  pub encoded : List ℕ

abbrev pub tail_data : Item → List ℕ
tail_data item = if item.static then [] else item.encoded

abbrev pub head : Item → List ℕ
head item = if item.static then item.encoded else []

unfoldable pub head_size : List Item → ℕ
head_size [] = 0
head_size (item ∷ items) = (if item.static then length item.encoded else 32) + head_size items

abbrev pub is_empty : List ℕ → Bool
is_empty [] = true
is_empty (b ∷ bytes) = false

-- The heads one after the other. `offset` is the size of all heads and of the tails so far: where
-- the head is empty, this is what stands in its place.
unfoldable pub head_bytes : ℕ → List Item → List ℕ
head_bytes offset [] = []
head_bytes offset (item ∷ items) =
    (if is_empty (head item) then set_size (replicate 32 0) offset else head item)
    ++ head_bytes (offset + length (tail_data item)) items

unfoldable pub tail_bytes : List Item → List ℕ
tail_bytes [] = []
tail_bytes (item ∷ items) = tail_data item ++ tail_bytes items

-- The body of `AArray::get_bytes`, after the items have been encoded.
unfoldable pub array_bytes : List Item → Bool → List ℕ
unfolding head_bytes tail_bytes head_size
array_bytes items dynamic_size =
    (if dynamic_size then set_size (replicate 32 0) (length items) else [])
    ++ (head_bytes (head_size items) items ++ tail_bytes items)

unfoldable mutual
  unfolding a256_bytes dynamic_bytes array_bytes is_static

  pub get_bytes : Abi → Option (List ℕ)
  get_bytes aempty = some []
  get_bytes (a256 data' is_address dont_mutate inner_type) = a256_bytes data'
  get_bytes (adynamic data' multiplier) = dynamic_bytes data' multiplier
  get_bytes (aarray data' dynamic_size) = do
    items ← encode_items data'
    some (array_bytes items dynamic_size)
  get_bytes (aunknown concrete size) = get_bytes_vec concrete

  pub get_bytes_vec : BoxedAbi → Option (List ℕ)
  get_bytes_vec (boxed b function) = get_bytes b

  pub encode_items : BoxedAbis → Option (List Item)
  encode_items nil = some []
  encode_items (cons b bs) = do
    encoded ← get_bytes_vec b
    items ← encode_items bs
    some (record { static = boxed_static b; encoded = encoded } ∷ items)

-- `BoxedABI::get_bytes`: the function hash, then the arguments.
unfoldable pub call_bytes : BoxedAbi → Option (List ℕ)
unfolding get_bytes
call_bytes (boxed b function) = do bytes ← get_bytes b; some (function ++ bytes)

unfoldable mutual
  pub abi_size : Abi → ℕ
  abi_size aempty = 0
  abi_size (a256 data' is_address dont_mutate inner_type) = 32
  abi_size (adynamic data' multiplier) = length data' + 32
  abi_size (aarray data' dynamic_size) =
      if dynamic_size then 32 + items_size data' else items_size data'
  abi_size (aunknown concrete size) = boxed_size concrete

  pub boxed_size : BoxedAbi → ℕ
  boxed_size (boxed b function) = abi_size b

  pub items_size : BoxedAbis → ℕ
  items_size nil = 0
  items_size (cons b bs) = boxed_size b + items_size bs
