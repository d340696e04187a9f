-- ===== src/Abi/Roundtrip.antt =====
-- Encoding and decoding of the values without items.
use native.Mathlib.Nat.{lt-div-mul-add, div-mul-le_self}
use ityfuzz.Prelude.{
  lt→ltb, le→leb, ◌-◌, ◌*◌, ◌/◌, ◌%◌, ◌^◌, leb, ltb, wrapping_add, ℕ, zero, suc, ◌+◌, ◌<◌, ◌≤◌, ◌≡◌,
  refl, ap, sym, ◌∙◌, true, some, List, [], ◌∷◌, ◌++◌, arith, word, length, take, drop, replicate,
  length-append, length-replicate, take-append, drop-append,
}
use ityfuzz.Abi.{adynamic}
use ityfuzz.Abi.Word.{
  roundup, set_size, get_size, big_endian, length-big_endian, big_endian-append,
  set_size-eq-big_endian, get_size-big_endian,
}
use ityfuzz.Abi.Encode.{dynamic_bytes}
use ityfuzz.Abi.Decode.{set_dynamic}

append_assoc : (xs ys zs : List ℕ) → (xs ++ ys) ++ zs ≡ xs ++ (ys ++ zs)
append_assoc [] ys zs = refl
append_assoc (x ∷ xs) ys zs = ap (◌∷◌ x) (append_assoc xs ys zs)

-- The length of the encoded value, without its size.
abbrev rounded : ℕ → ℕ → ℕ
rounded len multiplier = (len + multiplier - 1) / multiplier * multiplier

-- The zeros after the value.
abbrev pub padding : ℕ → List ℕ → List ℕ
padding multiplier data' = drop (length data') (replicate (rounded (length data') multiplier) 0)

rounded-ge : (len multiplier : ℕ) → 0 < multiplier → len ≤ rounded len multiplier
rounded-ge len multiplier h = omega (arith, lt-div-mul-add {a = len + multiplier - 1} h)

rounded-le : (len multiplier : ℕ) → rounded len multiplier ≤ len + multiplier - 1
rounded-le len multiplier = div-mul-le_self (len + multiplier - 1) multiplier

roundup-rounded :
    (len multiplier : ℕ)
    → 0 < multiplier
    → len + multiplier ≤ 2 ^ 62
    → roundup len multiplier ≡ some (rounded len multiplier)
unfolding roundup
roundup-rounded len multiplier h k =
    let e : (len + multiplier + word - 1) % word ≡ len + multiplier - 1 = omega arith in
    let f : rounded len multiplier % word ≡ rounded len multiplier =
      omega (arith, rounded-le len multiplier) in
    rw (e, f) (ground arith)

big_endian_eq : (len : ℕ) (rest : List ℕ) → big_endian 32 len rest ≡ big_endian 32 len [] ++ rest
big_endian_eq len rest = sym (big_endian-append 32 len [] rest)

length_32 : (len : ℕ) → length (big_endian 32 len []) ≡ 32
length_32 len = omega (arith, length-big_endian 32 len [])

drop_more : (n : ℕ) (xs ys : List ℕ) (m : ℕ) → length xs ≡ m → drop (m + n) (xs ++ ys) ≡ drop n ys
drop_more n [] ys m h = let e : m + n ≡ n = omega arith in rw e refl
drop_more n (x ∷ xs) ys zero h = absurd (omega arith)
drop_more n (x ∷ xs) ys (suc m) h =
    let e : suc m + n ≡ suc (m + n) = omega arith in rw e (drop_more n xs ys m (omega arith))

abbrev zeros : ℕ → List ℕ
zeros n = replicate n 0

drop-replicate : (n m : ℕ) → drop n (zeros (n + m)) ≡ zeros m
drop-replicate zero m = let e : 0 + m ≡ m = omega arith in rw e refl
drop-replicate (suc n) m =
    let e : suc n + m ≡ suc (n + m) = omega arith in rw e (drop-replicate n m)

sized :
    (len size : ℕ)
    → set_size (replicate (size + 32) 0) len ≡ big_endian 32 len [] ++ replicate size 0
sized len size =
    let flip : size + 32 ≡ 32 + size = omega arith in
    rw flip (
      set_size-eq-big_endian len (replicate (32 + size) 0)
        (omega (arith, length-replicate {A = ℕ} (32 + size) 0))
      ∙ (ap (big_endian 32 len) (drop-replicate 32 size) ∙ big_endian_eq len (replicate size 0)))

dynamic_bytes-eq :
    (data' : List ℕ) (multiplier : ℕ)
    → 0 < multiplier
    → length data' + multiplier ≤ 2 ^ 62
    → dynamic_bytes data' multiplier
      ≡ some (big_endian 32 (length data') [] ++ (data' ++ padding multiplier data'))
unfolding dynamic_bytes
dynamic_bytes-eq data' multiplier h k =
    let len = length data' in
    let fill : List ℕ = zeros (rounded len multiplier) in
    let size = rounded len multiplier in
    let e : wrapping_add size 32 ≡ size + 32 = omega (arith, rounded-le len multiplier) in
    let small : ltb (size + 32) (2 ^ 63) ≡ true =
      lt→ltb (size + 32) (2 ^ 63) (omega (arith, rounded-le len multiplier)) in
    let fits : leb (32 + len) (length (big_endian 32 len [] ++ fill)) ≡ true =
      le→leb (32 + len) (length (big_endian 32 len [] ++ fill)) (
        omega (
          arith,
          length-append (big_endian 32 len []) fill,
          length_32 len,
          length-replicate {A = ℕ} size 0,
          rounded-ge len multiplier h,
        )) in
    rw
      (
        roundup-rounded len multiplier h k,
        e,
        small,
        sized len size,
        fits,
        take-append (big_endian 32 len []) fill 32 (length_32 len),
        drop_more len (big_endian 32 len []) fill 32 (length_32 len),
      )
      (ap some (append_assoc (big_endian 32 len []) data' (drop len fill)))

set_dynamic-some :
    (old : List ℕ) (multiplier size : ℕ) (bytes : List ℕ)
    → get_size bytes ≡ some size
    → 32 + size ≤ length bytes
    → set_dynamic old multiplier bytes
      ≡ some (true, adynamic (take size (drop 32 bytes)) multiplier)
unfolding set_dynamic
set_dynamic-some old multiplier size [] h le = absurd (omega arith)
set_dynamic-some old multiplier size (b ∷ bytes) h le = ground (arith, h)

-- A value of `ADynamic` is encoded without a panic or a write outside the buffer where the
-- multiplier is not 0 and its sum with the length is at most 2^62; and what is encoded, followed by
-- any bytes, is decoded to the same value, whatever the value was before.
pub set_dynamic-dynamic_bytes :
    (old data' more : List ℕ) (multiplier : ℕ)
    → 0 < multiplier
    → length data' + multiplier ≤ 2 ^ 62
    → (bytes : List ℕ) × (dynamic_bytes data' multiplier ≡ some bytes)
      × (set_dynamic old multiplier (bytes ++ more) ≡ some (true, adynamic data' multiplier))
set_dynamic-dynamic_bytes old data' more multiplier h k =
    let len = length data' in
    let w : len < word = omega arith in
    let rest = (data' ++ padding multiplier data') ++ more in
    let size : get_size (big_endian 32 len [] ++ rest) ≡ some len =
      ap get_size (sym (big_endian_eq len rest)) ∙ get_size-big_endian len rest w in
    let dropped : drop 32 (big_endian 32 len [] ++ rest) ≡ rest =
      drop-append (big_endian 32 len []) rest 32 (length_32 len) in
    let taken : take len rest ≡ data' =
      ap (take len) (append_assoc data' (padding multiplier data') more)
      ∙ take-append data' (padding multiplier data' ++ more) len refl in
    let room : 32 + len ≤ length (big_endian 32 len [] ++ rest) = omega (
      arith,
      length-append (big_endian 32 len []) rest,
      length_32 len,
      length-append (data' ++ padding multiplier data') more,
      length-append data' (padding multiplier data'),
    ) in
    (
      big_endian 32 len [] ++ (data' ++ padding multiplier data'),
      dynamic_bytes-eq data' multiplier h k,
      ap (set_dynamic old multiplier)
            (append_assoc (big_endian 32 len []) (data' ++ padding multiplier data') more)
          ∙ (set_dynamic-some old multiplier len (big_endian 32 len [] ++ rest) size room
              ∙ ap (λ d. some (true, adynamic d multiplier)) (ap (take len) dropped ∙ taken)),
    )
