-- ===== src/Concolic/Memory/Writes.antt =====
-- What a write of a word to the symbolic memory changes, byte by byte.
use ityfuzz.Prelude.{
  ℕ, zero, suc, ◌+◌, ◌-◌, ◌≤◌, ◌<◌, ◌≡◌, refl, ◌&&◌, some, List, [], ◌∷◌, if◌then◌else◌, ltb, leb,
  ◌==◌, length, set, get_elem?, word, arith,
}
use ityfuzz.Concolic.Expr.{Expr}
use ityfuzz.Concolic.Memory.{
  SymbolicMemory, limb0, store, word_byte, write_bytes, grown, insert_256, byte_at, resize,
}

module _ {ℓ} {A : Type ℓ} where
  pub get_elem?-set :
      (xs : List A) (i j : ℕ) (v : A)
      → get_elem? (set xs i v) j ≡ (if i == j && ltb j (length xs) then some v else get_elem? xs j)
  get_elem?-set [] i j v = ground arith
  get_elem?-set (x ∷ xs) zero zero v = ground arith
  get_elem?-set (x ∷ xs) zero (suc j) v = ground arith
  get_elem?-set (x ∷ xs) (suc i) zero v = ground arith
  get_elem?-set (x ∷ xs) (suc i) (suc j) v = ground (arith, get_elem?-set xs i j v)

  pub length-set : (xs : List A) (i : ℕ) (v : A) → length (set xs i v) ≡ length xs
  length-set [] i v = refl
  length-set (x ∷ xs) zero v = refl
  length-set (x ∷ xs) (suc i) v = omega (arith, length-set xs i v)

byte_at-set :
    (m : SymbolicMemory) (i j : ℕ) (e : Expr)
    → i < length m
    → byte_at (set m i (some e)) j ≡ (if i == j then e else byte_at m j)
unfolding byte_at
byte_at-set m i j e h = ground (arith, get_elem?-set m i j (some e))

byte_at-resize :
    (n : ℕ) (m : SymbolicMemory) (j : ℕ) → length m ≤ n → byte_at (resize n m) j ≡ byte_at m j
unfolding byte_at
byte_at-resize zero [] j h = refl
byte_at-resize zero (b ∷ m) j h = absurd (omega arith)
byte_at-resize (suc n) [] zero h = refl
byte_at-resize (suc n) [] (suc j) h = byte_at-resize n [] j (omega arith)
byte_at-resize (suc n) (b ∷ m) zero h = refl
byte_at-resize (suc n) (b ∷ m) (suc j) h = byte_at-resize n m j (omega arith)

length-resize : (n : ℕ) (m : SymbolicMemory) → length (resize n m) ≡ n
length-resize zero m = refl
length-resize (suc n) [] = omega (arith, length-resize n [])
length-resize (suc n) (b ∷ m) = omega (arith, length-resize n m)

pub byte_at-grown :
    (last : ℕ) (m : SymbolicMemory) (j : ℕ)
    → last + 1 < word
    → byte_at (grown last m) j ≡ byte_at m j
unfolding grown
byte_at-grown last m j h = ground (arith, byte_at-resize (last + 1) m j)

pub length-grown :
    (last : ℕ) (m : SymbolicMemory)
    → last + 1 < word
    → (last < length (grown last m)) × (length m ≤ length (grown last m))
unfolding grown
length-grown last m h = ground (arith, length-resize (last + 1) m)

-- The byte at `j` after `n` bytes of a word, from its byte `i` on, are stored at `start`.
abbrev pub stored : ℕ → ℕ → ℕ → Expr → SymbolicMemory → ℕ → Expr
stored n i start val m j =
    if leb (start + i) j && ltb j (start + i + n) then word_byte val (j - start) else byte_at m j

write_bytes_lem :
    (n i start : ℕ) (val : Expr) (m : SymbolicMemory)
    → start + i + n ≤ length m
    → (m' : SymbolicMemory) × (write_bytes n i start val m ≡ some m')
      × (length m' ≡ length m)
      × ((j : ℕ) → byte_at m' j ≡ stored n i start val m j)
unfolding write_bytes
write_bytes_lem zero i start val m h = (m, refl, refl, λ j. ground arith)
write_bytes_lem (suc n) i start val m h =
    let m1 = set m (start + i) (some (word_byte val i)) in
    let e1 : store m (start + i) (word_byte val i) ≡ some m1 = ground arith in
    let len : length m1 ≡ length m = length-set m (start + i) (some (word_byte val i)) in
    let (m', e, len', bytes) = write_bytes_lem n (i + 1) start val m1 (omega (arith, len)) in
    (
      m',
      ground arith,
      omega (arith, len, len'),
      λ j. ground (arith, bytes j, byte_at-set m (start + i) j (word_byte val i)),
    )

-- A word stored at an index takes the 32 bytes from there on and leaves the others.
pub insert_256_lem :
    (m : SymbolicMemory) (idx : ℕ) (val : Expr)
    → limb0 idx + 33 < word
    → (m' : SymbolicMemory) × (insert_256 m idx val ≡ some m')
      × (limb0 idx + 32 < length m')
      × (length m ≤ length m')
      × ((j : ℕ) → byte_at m' j ≡ stored 32 0 (limb0 idx) val m j)
unfolding insert_256
insert_256_lem m idx val h =
    let start = limb0 idx in
    let m1 = grown (start + 32) m in
    let lens = length-grown (start + 32) m (omega arith) in
    let (m', e, len', bytes) = write_bytes_lem 32 0 start val m1 (omega (arith, lens)) in
    (
      m',
      ground arith,
      omega (arith, lens, len'),
      omega (arith, lens, len'),
      λ j. ground (arith, bytes j, byte_at-grown (start + 32) m j (omega arith)),
    )
