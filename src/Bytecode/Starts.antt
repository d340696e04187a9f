-- ===== src/Bytecode/Starts.antt =====
-- The instructions that the loop finds are those that start before the end of the code.
use mathlib.Core.Path.{subst}
use ityfuzz.Prelude.{
  ℕ, zero, suc, ◌+◌, ◌-◌, ◌≤◌, ◌<◌, ◌≡◌, ◌⊎◌, ◌∙◌, ap, leb, refl, Bool, true, false, ◌&&◌, Option,
  none, some, List, [], ◌∷◌, ◌==◌, ltb, if◌then◌else◌, length, get_elem?, any_of, arith, ◌↔◌, sym,
  ◌≢◌, not, last?, ◌>>=◌, ◌*◌, Option-cases, Bool-cases, inl, inr, pair_eq, ◌++◌, replicate,
  wrapping_sub, word, >>=-eq-some,
}
use ityfuzz.Bytecode.{push_len, ends_code, instructions_from, strip_zeros, cbor_len, all_bytecode}

-- Decoding the code instruction by instruction from the first index, one starts at the second. A
-- PUSH of `n` bytes has the opcode 0x5f + n.
pub data Starts (code : List ℕ) : ℕ → ℕ → Type 0 where
  here : (i : ℕ) → Starts code i i
  single :
      (j i op : ℕ)
      → get_elem? code j ≡ some op
      → (op < 0x60) ⊎ (0x7f < op)
      → Starts code (j + 1) i
      → Starts code j i
  push :
      (j i n : ℕ)
      → 1 ≤ n
      → n ≤ 32
      → get_elem? code j ≡ some (0x5f + n)
      → Starts code (j + 1 + n) i
      → Starts code j i

not_push : (op : ℕ) → (leb 0x60 op && leb op 0x7f) ≡ false → (op < 0x60) ⊎ (0x7f < op)
not_push op h = grind arith

Starts-later :
    (code : List ℕ) (j i op : ℕ)
    → get_elem? code j ≡ some op
    → Starts code (j + 1 + push_len op) i
    → Starts code j i
Starts-later code j i op e s = elim (Bool-cases (leb 0x60 op && leb op 0x7f)) [
  | inl p ↦
      let n : push_len op ≡ op - 0x5f = ground arith in
      let opcode : op ≡ 0x5f + (op - 0x5f) = ground arith in
      push j i (op - 0x5f) (ground arith) (ground arith) (e ∙ ap some opcode)
        (subst (λ n. Starts code (j + 1 + n) i) n s)
  | inr p ↦
      let n : j + 1 + push_len op ≡ j + 1 = ground arith in
      single j i op e (not_push op p) (subst (λ n. Starts code n i) n s)
]

Starts-cases :
    (code : List ℕ) (j i : ℕ)
    → Starts code j i
    → (j ≡ i) ⊎ ((op : ℕ) × (get_elem? code j ≡ some op) × Starts code (j + 1 + push_len op) i)
Starts-cases code _ _ (here i) = inl refl
Starts-cases code _ _ (single j i op e k s) =
    let n : j + 1 ≡ j + 1 + push_len op = grind arith in
    inr (op, e, subst (λ n. Starts code n i) n s)
Starts-cases code _ _ (push j i n l h e s) =
    let n' : n ≡ push_len (0x5f + n) = grind arith in
    inr (0x5f + n, e, subst (λ n. Starts code (j + 1 + n) i) n' s)

abbrev pub lists : ℕ → ℕ → List (ℕ × ℕ) → Bool
lists i op found = any_of (λ (entry : ℕ × ℕ). entry.0 == i && entry.1 == op) found

Starts-le : (code : List ℕ) (j i : ℕ) → Starts code j i → j ≤ i
Starts-le code _ _ (here i) = omega arith
Starts-le code _ _ (single j i op e k s) = omega (arith, Starts-le code (j + 1) i s)
Starts-le code _ _ (push j i n l h e s) = omega (arith, Starts-le code (j + 1 + n) i s)

get_elem?-bound : (code : List ℕ) (i op : ℕ) → get_elem? code i ≡ some op → i < length code
get_elem?-bound [] i op h = cc
get_elem?-bound (b ∷ code) zero op h = omega arith
get_elem?-bound (b ∷ code) (suc i) op h = omega (arith, get_elem?-bound code i op h)

here_at : (code : List ℕ) (j i : ℕ) → j ≡ i → Starts code j i
here_at code j i e = rw e (here i)

listed-Starts :
    (fuel : ℕ) (code : List ℕ) (end j i op : ℕ)
    → lists i op (instructions_from fuel code end j) ≡ true
    → Starts code j i × (get_elem? code i ≡ some op) × (i < end)
unfolding instructions_from
listed-Starts zero code end j i op h = cc
listed-Starts (suc fuel) code end j i op h = elim (Option-cases (get_elem? code j)) [
  | inl none_there ↦ absurd (ground arith)
  | inr (op', e) ↦ elim (Bool-cases (ltb j end)) [
    | inr past ↦ absurd (ground arith)
    | inl inside ↦ elim (Bool-cases (j == i && op' == op)) [
      | inl hit ↦
          let same : j ≡ i = ground arith in (here_at code j i same, ground arith, ground arith)
      | inr miss ↦
          let (s, e', lt) =
            listed-Starts fuel code end (j + 1 + push_len op') i op (ground arith) in
          (Starts-later code j i op' e s, e', lt)
    ]
  ]
]

Starts-listed :
    (fuel : ℕ) (code : List ℕ) (end j i op : ℕ)
    → length code < j + fuel
    → Starts code j i
    → get_elem? code i ≡ some op
    → i < end
    → lists i op (instructions_from fuel code end j) ≡ true
unfolding instructions_from
Starts-listed zero code end j i op f s e lt =
    absurd (omega (arith, get_elem?-bound code i op e, Starts-le code j i s))
Starts-listed (suc fuel) code end j i op f s e lt = elim (Starts-cases code j i s) [
  | inl same ↦ ground arith
  | inr (op', e', s') ↦ ground (
    arith,
    Starts-listed fuel code end (j + 1 + push_len op') i op,
    Starts-le code (j + 1 + push_len op') i s',
  )
]

length-strip_zeros-le : (bytes : List ℕ) → length (strip_zeros bytes) ≤ length bytes
unfolding strip_zeros
length-strip_zeros-le [] = omega arith
length-strip_zeros-le (b ∷ bytes) = ground (arith, length-strip_zeros-le bytes)

-- A code without zeros at its end, which are those that end the bytes.
abbrev pub IsTrimmed : List ℕ → List ℕ → Type 0
IsTrimmed bytes code = (k : ℕ) × (bytes ≡ code ++ replicate k 0) × (last? code ≢ some 0)

strip_one :
    (b : ℕ) (bytes code : List ℕ)
    → IsTrimmed bytes code
    → IsTrimmed
        (b ∷ bytes)
        (elim code [ [] ↦ if b == 0 then [] else b ∷ [] | c ∷ rest ↦ b ∷ c ∷ rest ])
strip_one b bytes [] (k, e, h) = elim (Bool-cases (b == 0)) [
  | inl z ↦ let zero_b : b ≡ 0 = ground arith in rw (z) (suc k, rw (zero_b, e) refl, λ q. cc)
  | inr z ↦ rw (z) (k, ap (◌∷◌ b) e, λ q. ground (arith, q))
]
strip_one b bytes (c ∷ rest) (k, e, h) = (k, ap (◌∷◌ b) e, h)

strip_zeros-IsTrimmed : (bytes : List ℕ) → IsTrimmed bytes (strip_zeros bytes)
unfolding strip_zeros
strip_zeros-IsTrimmed [] = (0, refl, λ e. cc)
strip_zeros-IsTrimmed (b ∷ bytes) =
    strip_one b bytes (strip_zeros bytes) (strip_zeros-IsTrimmed bytes)

-- STOP, JUMP, JUMPI, RETURN, REVERT, INVALID
abbrev closes : ℕ → Bool
closes op = any_of (λ (o : ℕ). o == op) (0x00 ∷ 0x56 ∷ 0x57 ∷ 0xf3 ∷ 0xfd ∷ 0xfe ∷ [])

-- The length of the metadata at the end of a code: none where it is kept as code, or the code is
-- empty or ends with STOP, JUMP, JUMPI, RETURN, REVERT or INVALID; otherwise the last two bytes
-- give its length without them.
pub data Metadata (skip : Bool) (code : List ℕ) : ℕ → Type 0 where
  kept : skip ≡ true → Metadata skip code 0
  no_code : code ≡ [] → Metadata skip code 0
  ended : (op : ℕ) → last? code ≡ some op → closes op ≡ true → Metadata skip code 0
  described :
      (k high low op : ℕ)
      → skip ≡ false
      → last? code ≡ some op
      → closes op ≡ false
      → length code ≡ k + 2
      → get_elem? code k ≡ some high
      → get_elem? code (suc k) ≡ some low
      → Metadata skip code (high * 256 + low + 2)

last?-none : (xs : List ℕ) → last? xs ≡ none → xs ≡ []
last?-none [] h = refl
last?-none (x ∷ []) h = cc
last?-none (x ∷ y ∷ ys) h = cc (last?-none (y ∷ ys) h)

cbor_described :
    (code : List ℕ) (n op : ℕ)
    → length code < word
    → last? code ≡ some op
    → ends_code op ≡ false
    → cbor_len false code ≡ some n
    → Metadata false code n
unfolding cbor_len
cbor_described code n op w e c h =
    let runs : (get_elem? code (wrapping_sub (length code) 2) >>= λ a.
    get_elem? code (wrapping_sub (length code) 1) >>= λ b. some (a * 256 + b + 2))
        ≡ some n =
      ground (arith, h, e, c) in
    let (high, e2, runs') = >>=-eq-some (get_elem? code (wrapping_sub (length code) 2)) _ runs in
    let (low, e1, done) = >>=-eq-some (get_elem? code (wrapping_sub (length code) 1)) _ runs' in
    let bound = get_elem?-bound code (wrapping_sub (length code) 2) high e2 in
    let two : wrapping_sub (length code) 2 ≡ length code - 2 = omega (arith, bound) in
    let one : wrapping_sub (length code) 1 ≡ suc (length code - 2) = omega (arith, bound) in
    let sum : high * 256 + low + 2 ≡ n = ground (arith, done) in
    subst (λ m. Metadata false code m) sum
      (described (length code - 2) high low op refl e (grind arith) (omega (arith, bound))
        (subst (λ m. get_elem? code m ≡ some high) two e2)
        (subst (λ m. get_elem? code m ≡ some low) one e1))

cbor_len-Metadata :
    (skip : Bool) (code : List ℕ) (n : ℕ)
    → length code < word
    → cbor_len skip code ≡ some n
    → Metadata skip code n
unfolding cbor_len
cbor_len-Metadata true code n w h = let e : n ≡ 0 = ground (arith, h) in rw (e) (kept refl)
cbor_len-Metadata false code n w h = elim (Option-cases (last? code)) [
  | inl none_there ↦
      let n0 : n ≡ 0 = ground (arith, h, none_there) in
      rw (n0) (no_code (last?-none code none_there))
  | inr (op, e) ↦ elim (Bool-cases (ends_code op)) [
    | inl ends ↦ let n0 : n ≡ 0 = ground (arith, h, e, ends) in rw (n0) (ended op e (grind arith))
    | inr cbor ↦ cbor_described code n op w e cbor h
  ]
]

-- When `all_bytecode` answers for fewer than 2^64 bytes, and some, it lists exactly the indices at
-- which an instruction starts, each with its opcode, in the code without the zeros at its end and
-- before the metadata that stands there.
pub all_bytecode-Starts :
    (skip : Bool) (b : ℕ) (bytes : List ℕ) (found : List (ℕ × ℕ)) (i op : ℕ)
    → all_bytecode skip (b ∷ bytes) ≡ some found
    → length (b ∷ bytes) < word
    → (code : List ℕ) × (n : ℕ) × IsTrimmed (b ∷ bytes) code
      × Metadata skip code n
      × ((lists i op found ≡ true)
          ↔ (Starts code 0 i × (get_elem? code i ≡ some op) × (i < wrapping_sub (length code) n)))
unfolding all_bytecode
all_bytecode-Starts skip b bytes found i op h w =
    let code : List ℕ = strip_zeros (b ∷ bytes) in
    let (n, e, runs) = >>=-eq-some (cbor_len skip code) _ h in
    let end : ℕ = wrapping_sub (length code) n in
    let is_found : instructions_from (suc (length code)) code end 0 ≡ found = ground (arith) in
    (
      code,
      n,
      strip_zeros-IsTrimmed (b ∷ bytes),
      cbor_len-Metadata skip code n (omega (arith, length-strip_zeros-le (b ∷ bytes))) e,
      (
        (λ l. listed-Starts (suc (length code)) code end 0 i op (rw is_found l)),
        (λ s.
            rw (sym is_found)
              (Starts-listed (suc (length code)) code end 0 i op (omega arith) s.0 s.1 s.2)),
      ),
    )

get_elem?-some : (code : List ℕ) (i : ℕ) → i < length code → (op : ℕ) × (get_elem? code i ≡ some op)
get_elem?-some [] i h = absurd (omega arith)
get_elem?-some (b ∷ code) zero h = (b, refl)
get_elem?-some (b ∷ code) (suc i) h = get_elem?-some code i (omega arith)

sized :
    (has_cbor : Bool) {last_2 last_1 : Option ℕ} {m n : ℕ}
    → last_2 ≡ some m
    → last_1 ≡ some n
    → (size : ℕ) × ((if has_cbor
          then (last_2 >>= λ a. last_1 >>= λ b. some (a * 256 + b + 2))
          else some 0)
        ≡ some size)
sized true {m = m} {n = n} h2 h1 = (m * 256 + n + 2, rw (h2, h1) refl)
sized false h2 h1 = (0, refl)

cbor_len-some :
    (skip : Bool) (code : List ℕ)
    → length code ≢ 1
    → length code < word
    → (n : ℕ) × (cbor_len skip code ≡ some n)
unfolding cbor_len
cbor_len-some skip [] one w = (0, refl)
cbor_len-some skip (x ∷ []) one w = absurd (one refl)
cbor_len-some skip (x ∷ y ∷ zs) one w =
    let code : List ℕ = x ∷ y ∷ zs in
    let (last_2, e2) = get_elem?-some code (wrapping_sub (length code) 2) (omega arith) in
    let (last_1, e1) = get_elem?-some code (wrapping_sub (length code) 1) (omega arith) in
    sized (not (ends_code (elim (last? code) [ none ↦ 0xf3 | some op ↦ op ])) && not skip) e2 e1

all_bytecode-some :
    (skip : Bool) (b : ℕ) (bytes : List ℕ) (n : ℕ)
    → cbor_len skip (strip_zeros (b ∷ bytes)) ≡ some n
    → (found : List (ℕ × ℕ)) × (all_bytecode skip (b ∷ bytes) ≡ some found)
unfolding all_bytecode
all_bytecode-some skip b bytes n e =
    let code : List ℕ = strip_zeros (b ∷ bytes) in
    (instructions_from (suc (length code)) code (wrapping_sub (length code) n) 0, rw e refl)

-- On fewer than 2^64 bytes that are not a single byte once the zeros at the end are taken off,
-- `all_bytecode` does not panic.
pub all_bytecode-total :
    (skip : Bool) (bytes : List ℕ)
    → (length (strip_zeros bytes) ≢ 1)
    → length bytes < word
    → (found : List (ℕ × ℕ)) × (all_bytecode skip bytes ≡ some found)
all_bytecode-total skip [] one w = ([], unfold all_bytecode in refl)
all_bytecode-total skip (b ∷ bytes) one w =
    let (n, e) =
      cbor_len-some skip (strip_zeros (b ∷ bytes)) one
        (omega (arith, length-strip_zeros-le (b ∷ bytes))) in
    all_bytecode-some skip b bytes n e
