-- ===== src/Abi/Word.antt =====
-- The 32-byte size words of src/evm/abi.rs: `roundup`, `set_size`, `get_size`.
use ityfuzz.Prelude.{
  ℕ, zero, suc, ◌+◌, ◌-◌, ◌*◌, ◌/◌, ◌%◌, ◌<◌, ◌≤◌, ◌≡◌, refl, ap, ◌∙◌, Option, none, some, List, [],
  ◌∷◌, ◌++◌, arith, word, wrapping_add, ◌==◌, if◌then◌else◌, length, set, drop, length-drop,
}

-- `none` is the panic of a division by 0.
unfoldable pub roundup : ℕ → ℕ → Option ℕ
roundup x multiplier =
    if multiplier == 0
    then none
    else some ((x + multiplier + word - 1) % word / multiplier * multiplier % word)

-- The rounds of `set_size` that are left: the next one writes at index `k`.
unfoldable pub size_loop : ℕ → ℕ → List ℕ → List ℕ
size_loop zero rem bytes = bytes
size_loop (suc k) rem bytes = size_loop k (rem / 256) (set bytes k (rem % 256))

unfoldable pub set_size : List ℕ → ℕ → List ℕ
set_size bytes len = size_loop 32 len bytes

-- `none` is an index out of bounds. The shift of a `usize` drops what leaves 64 bits.
unfoldable pub get_loop : ℕ → ℕ → List ℕ → Option ℕ
get_loop zero size bytes = some size
get_loop (suc k) size [] = none
get_loop (suc k) size (b ∷ bytes) = get_loop k (wrapping_add (size * 256 % word) b) bytes

unfoldable pub get_size : List ℕ → Option ℕ
get_size bytes = get_loop 32 0 bytes

-- The big-endian digits of a number, in `k` bytes.
pub big_endian : ℕ → ℕ → List ℕ → List ℕ
big_endian zero rem rest = rest
big_endian (suc k) rem rest = big_endian k (rem / 256) (rem % 256 ∷ rest)

drop-set :
    (k v : ℕ) (bytes : List ℕ) → k < length bytes → drop k (set bytes k v) ≡ v ∷ drop (suc k) bytes
drop-set zero v [] h = absurd (omega arith)
drop-set zero v (b ∷ bytes) h = refl
drop-set (suc k) v [] h = absurd (omega arith)
drop-set (suc k) v (b ∷ bytes) h = drop-set k v bytes (omega arith)

length-set : (k v : ℕ) (bytes : List ℕ) → length (set bytes k v) ≡ length bytes
length-set zero v [] = refl
length-set zero v (b ∷ bytes) = refl
length-set (suc k) v [] = refl
length-set (suc k) v (b ∷ bytes) = ap suc (length-set k v bytes)

size_loop-eq-big_endian :
    (k rem : ℕ) (bytes : List ℕ)
    → k ≤ length bytes
    → size_loop k rem bytes ≡ big_endian k rem (drop k bytes)
unfolding size_loop big_endian
size_loop-eq-big_endian zero rem bytes h = refl
size_loop-eq-big_endian (suc k) rem bytes h =
    size_loop-eq-big_endian k (rem / 256) (set bytes k (rem % 256))
      (omega (arith, length-set k (rem % 256) bytes))
    ∙ ap (big_endian k (rem / 256)) (drop-set k (rem % 256) bytes (omega arith))

pub length-big_endian :
    (k rem : ℕ) (rest : List ℕ) → length (big_endian k rem rest) ≡ k + length rest
unfolding big_endian
length-big_endian zero rem rest = omega arith
length-big_endian (suc k) rem rest =
    omega (arith, length-big_endian k (rem / 256) (rem % 256 ∷ rest))

pub big_endian-append :
    (k rem : ℕ) (rest more : List ℕ)
    → big_endian k rem rest ++ more ≡ big_endian k rem (rest ++ more)
unfolding big_endian
big_endian-append zero rem rest more = refl
big_endian-append (suc k) rem rest more = big_endian-append k (rem / 256) (rem % 256 ∷ rest) more

-- 256^k
capacity : ℕ → ℕ
capacity zero = 1
capacity (suc k) = 256 * capacity k

-- Reading the `k` digits of a number leaves that number as the size so far.
get_loop-big_endian :
    (k j n rem : ℕ) (rest : List ℕ)
    → n ≡ k + j
    → rem < word
    → rem < capacity k
    → get_loop n 0 (big_endian k rem rest) ≡ get_loop j rem rest
unfolding big_endian capacity
get_loop-big_endian zero j n rem rest e w c =
    let n' : n ≡ j = omega arith in let r' : rem ≡ 0 = omega arith in rw (n', r')
get_loop-big_endian (suc k) j n rem rest e w c =
    let value : (rem / 256 * 256 % word + rem % 256) % word ≡ rem = omega arith in
    get_loop-big_endian k (suc j) n (rem / 256) (rem % 256 ∷ rest) (omega arith) (omega arith)
      (omega arith)
    ∙ unfold get_loop in ap (λ (size : ℕ). get_loop j size rest) value

word-le-capacity : word ≤ capacity 32
unfolding capacity
word-le-capacity = omega arith

pub get_size-big_endian :
    (len : ℕ) (rest : List ℕ) → len < word → get_size (big_endian 32 len rest) ≡ some len
unfolding get_size
get_size-big_endian len rest w =
    get_loop-big_endian 32 0 32 len rest refl w (omega (arith, word-le-capacity))
    ∙ unfold get_loop in refl

pub set_size-eq-big_endian :
    (len : ℕ) (bytes : List ℕ)
    → 32 ≤ length bytes
    → set_size bytes len ≡ big_endian 32 len (drop 32 bytes)
unfolding set_size
set_size-eq-big_endian len bytes h = size_loop-eq-big_endian 32 len bytes h

-- A size below 2^64 that `set_size` writes over the first 32 bytes of a buffer is read back by
-- `get_size`, whatever follows the buffer; the buffer keeps its length.
pub get_size-set_size :
    (len : ℕ) (bytes more : List ℕ)
    → len < word
    → 32 ≤ length bytes
    → (get_size (set_size bytes len ++ more) ≡ some len)
      × (length (set_size bytes len) ≡ length bytes)
get_size-set_size len bytes more w h = (
  rw (set_size-eq-big_endian len bytes h, big_endian-append 32 len (drop 32 bytes) more)
      (get_size-big_endian len (drop 32 bytes ++ more) w),
  rw (set_size-eq-big_endian len bytes h)
      (omega (arith, length-big_endian 32 len (drop 32 bytes), length-drop {0} 32 bytes)),
)
