-- ===== src/Abi/Tests.antt =====
-- The encoding at concrete values.
use ityfuzz.Prelude.{ℕ, ◌≡◌, true, some, List, [], ◌∷◌, ◌++◌, arith, replicate}
use ityfuzz.Abi.{adynamic}
use ityfuzz.Abi.Encode.{dynamic_bytes}
use ityfuzz.Abi.Decode.{set_dynamic}
use ityfuzz.Abi.Roundtrip.{set_dynamic-dynamic_bytes}

abbrev buffer : List ℕ
buffer = replicate 34 7

set_dynamic-dynamic_bytes_example :
    (bytes : List ℕ) × (dynamic_bytes (1 ∷ 2 ∷ []) 32 ≡ some bytes)
    × (set_dynamic [] 32 (bytes ++ (9 ∷ [])) ≡ some (true, adynamic (1 ∷ 2 ∷ []) 32))
set_dynamic-dynamic_bytes_example =
    set_dynamic-dynamic_bytes [] (1 ∷ 2 ∷ []) (9 ∷ []) 32 (omega arith) (omega arith)
