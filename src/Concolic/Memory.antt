-- ===== src/Concolic/Memory.antt =====
-- `SymbolicMemory` of src/evm/concolic/concolic_host.rs: one optional expression for each byte.
-- `usize` arithmetic wraps at 64 bits where the operands come from the program; `none` is a panic.
pub mod Writes
pub mod Reads
use ityfuzz.Prelude.{
  ℕ, zero, suc, ◌+◌, ◌-◌, ◌*◌, ◌%◌, ◌^◌, ◌≡◌, Option, none, some, List, [], ◌∷◌, ◌++◌,
  if◌then◌else◌, ltb, leb, ◌>>=◌, length, take, replicate, set, get_elem?, wrapping_add, word,
}
use ityfuzz.Concolic.Expr.{Expr, leaf, unary, binary, constbyte, select, concat}
use ityfuzz.Concolic.Simplify.{simplify}

abbrev pub SymbolicMemory : Type 0
SymbolicMemory = List (Option Expr)

-- `as_limbs()[0] as usize`
abbrev pub limb0 : ℕ → ℕ
limb0 n = n % word

-- `Vec::resize` with `None`
abbrev pub resize : ℕ → SymbolicMemory → SymbolicMemory
resize zero memory = []
resize (suc n) [] = none ∷ resize n []
resize (suc n) (b ∷ memory) = b ∷ resize n memory

-- `memory[i] = Some(e)`
abbrev pub store : SymbolicMemory → ℕ → Expr → Option SymbolicMemory
store memory i e = if ltb i (length memory) then some (set memory i (some e)) else none

-- The byte of a word that is stored at its offset `i`.
abbrev pub word_byte : Expr → ℕ → Expr
word_byte val i = unary val (select (256 - i * 8 - 1) (256 - i * 8 - 7 - 1))

-- `n` rounds of the loop of `insert_256`, from round `i` on
unfoldable pub write_bytes : ℕ → ℕ → ℕ → Expr → SymbolicMemory → Option SymbolicMemory
write_bytes zero i idx val memory = some memory
write_bytes (suc n) i idx val memory =
    store memory (idx + i) (word_byte val i) >>= write_bytes n (i + 1) idx val

-- The memory made long enough for the indices up to the one given.
unfoldable pub grown : ℕ → SymbolicMemory → SymbolicMemory
grown last memory = if leb (length memory) last then resize (wrapping_add last 1) memory else memory

unfoldable pub insert_256 : SymbolicMemory → ℕ → Expr → Option SymbolicMemory
unfolding grown write_bytes
insert_256 memory idx val =
    write_bytes 32 0 (limb0 idx) val (grown (wrapping_add (limb0 idx) 32) memory)

-- `insert_8` ends in `todo!`.
abbrev pub insert_8 : SymbolicMemory → ℕ → Expr → Option SymbolicMemory
insert_8 memory idx val = none

abbrev pub zero_byte : Expr
zero_byte = leaf (constbyte 0)

abbrev byte_or_zero : Option (Option Expr) → Expr
byte_or_zero (some (some by)) = by
byte_or_zero _ = zero_byte

-- The byte read at an index: zero past the end, and where nothing has been stored.
unfoldable pub byte_at : SymbolicMemory → ℕ → Expr
byte_at memory i = byte_or_zero (get_elem? memory i)

-- `n` rounds of the loop of `get_256`, from round `i` on
unfoldable pub concat_bytes : ℕ → ℕ → ℕ → Expr → SymbolicMemory → Expr
concat_bytes zero i idx all_bytes memory = all_bytes
concat_bytes (suc n) i idx all_bytes memory =
    concat_bytes n (i + 1) idx (binary all_bytes (byte_at memory (idx + i)) concat) memory

unfoldable pub get_256 : SymbolicMemory → ℕ → Option (Option Expr)
unfolding simplify byte_at concat_bytes
get_256 memory idx =
    if leb (length memory) (limb0 idx)
    then some none
    else (simplify (concat_bytes 31 1 (limb0 idx) (byte_at memory (limb0 idx)) memory) >>= λ e.
        some (some e))

-- The bytes at `n` indices from `i` on.
unfoldable pub bytes_from : ℕ → ℕ → SymbolicMemory → List Expr
unfolding byte_at
bytes_from zero i memory = []
bytes_from (suc n) i memory = byte_at memory i ∷ bytes_from n (i + 1) memory

unfoldable pub get_slice : SymbolicMemory → ℕ → ℕ → SymbolicMemory × List Expr
unfolding grown bytes_from
get_slice memory idx len =
    let end = wrapping_add (limb0 idx) (limb0 len) in
    let memory' = grown end memory in (memory', bytes_from (end - limb0 idx) (limb0 idx) memory')
