-- ===== src/Abi.antt =====
-- src/evm/abi.rs: ABI values, their encoding and the decoding back into a value of known shape.
-- The trait objects are the constructors of `Abi`; `none` is a panic. Printing and mutation
-- are not modelled.
pub mod Word
pub mod Encode
pub mod Decode
pub mod Roundtrip
pub mod TypeNames
mod Tests
use ityfuzz.Prelude.{ℕ, Bool, true, false, ◌&&◌, not, List, if◌then◌else◌, ◌+◌, suc}

pub data A256InnerType : Type 0 where
  int uint bool bytes address : A256InnerType

pub data AbiLossyType : Type 0 where
  t256 tarray tdynamic tempty tunknown : AbiLossyType

mutual
  pub data Abi : Type 0 where
    aempty : Abi
    a256 : List ℕ → Bool → Bool → A256InnerType → Abi
    adynamic : List ℕ → ℕ → Abi
    aarray : BoxedAbis → Bool → Abi
    aunknown : BoxedAbi → ℕ → Abi

  -- The value `b`, and the four bytes `function`.
  pub data BoxedAbi : Type 0 where
    boxed : Abi → List ℕ → BoxedAbi

  pub data BoxedAbis : Type 0 where
    nil : BoxedAbis
    cons : BoxedAbi → BoxedAbis → BoxedAbis

abbrev pub abi_of : BoxedAbi → Abi
abi_of (boxed b function) = b

abbrev pub get_type : Abi → AbiLossyType
get_type aempty = tempty
get_type (a256 data' is_address dont_mutate inner_type) = t256
get_type (adynamic data' multiplier) = tdynamic
get_type (aarray data' dynamic_size) = tarray
get_type (aunknown concrete size) = tunknown

unfoldable mutual
  pub is_static : Abi → Bool
  is_static aempty = true
  is_static (a256 data' is_address dont_mutate inner_type) = true
  is_static (adynamic data' multiplier) = false
  is_static (aarray data' dynamic_size) = not dynamic_size && all_static data'
  is_static (aunknown concrete size) = boxed_static concrete

  pub boxed_static : BoxedAbi → Bool
  boxed_static (boxed b function) = is_static b

  pub all_static : BoxedAbis → Bool
  all_static nil = true
  all_static (cons b bs) = boxed_static b && all_static bs

abbrev pub count : BoxedAbis → ℕ
count nil = 0
count (cons b bs) = suc (count bs)
