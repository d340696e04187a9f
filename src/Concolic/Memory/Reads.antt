-- ===== src/Concolic/Memory/Reads.antt =====
-- Words read back from the symbolic memory.
use ityfuzz.Prelude.{
  Option-cases, ℕ, zero, suc, ◌+◌, ◌-◌, ◌*◌, ◌≤◌, ◌<◌, ◌⊎◌, inl, inr, ◌≡◌, refl, some, ◌>>=◌,
  length, word, arith,
}
use ityfuzz.Concolic.Expr.{Expr, unary, binary, select, concat, expr_beq_refl}
use ityfuzz.Concolic.Simplify.{
  ConcatOptCtx, simplify, simplify_concat_select_helper, simplify_node, finish, merge,
}
use ityfuzz.Concolic.Memory.{
  SymbolicMemory, limb0, word_byte, insert_256, byte_at, concat_bytes, get_256,
}
use ityfuzz.Concolic.Memory.Writes.{insert_256_lem}

-- What the helper makes of the bytes of a word down to the bit `low`, joined.
abbrev high_bits : Expr → ℕ → ConcatOptCtx × Expr
high_bits v low = (record { low = low; high = 255; on_expr = some v }, unary v (select 255 low))

module _ (val v : Expr) (ctx : ConcatOptCtx)
    (hv : simplify_concat_select_helper val ≡ some (ctx, v)) where
  helper-word_byte :
      (i : ℕ)
      → simplify_concat_select_helper (word_byte val i)
        ≡ some (
          record { low = 256 - i * 8 - 7 - 1; high = 256 - i * 8 - 1; on_expr = some v },
          word_byte v i,
        )
  unfolding simplify_concat_select_helper simplify_node finish
  helper-word_byte i = rw hv refl

  -- The next byte joins the bits above it.
  next_byte :
      (i : ℕ) (acc : Expr)
      → 1 ≤ i
      → i < 32
      → simplify_concat_select_helper acc ≡ some (high_bits v (256 - i * 8))
      → simplify_concat_select_helper (binary acc (word_byte val i) concat)
        ≡ some (high_bits v (256 - (i + 1) * 8))
  unfolding simplify_concat_select_helper simplify_node finish merge
  next_byte i acc pos lt h = ground (arith, h, helper-word_byte i, expr_beq_refl v)

  joined_word :
      (n i idx : ℕ) (acc : Expr) (m : SymbolicMemory)
      → 1 ≤ i
      → i + n ≤ 32
      → simplify_concat_select_helper acc ≡ some (high_bits v (256 - i * 8))
      → ((k : ℕ) → k < 32 → byte_at m (idx + k) ≡ word_byte val k)
      → simplify_concat_select_helper (concat_bytes n i idx acc m)
        ≡ some (high_bits v (256 - (i + n) * 8))
  unfolding concat_bytes
  joined_word zero i idx acc m pos le h bytes = ground (arith, h)
  joined_word (suc n) i idx acc m pos le h bytes =
      let next = next_byte i acc pos (omega arith) h in
      let byte : byte_at m (idx + i) ≡ word_byte val i = bytes i (omega arith) in
      let rest =
        joined_word n (i + 1) idx (binary acc (byte_at m (idx + i)) concat) m (omega arith)
          (omega arith) (rw byte next) bytes in
      ground (arith, rest)

  pub read_word :
      (idx : ℕ) (m : SymbolicMemory)
      → limb0 idx < length m
      → ((k : ℕ) → k < 32 → byte_at m (limb0 idx + k) ≡ word_byte val k)
      → get_256 m idx ≡ some (some (unary v (select 255 0)))
  unfolding get_256 simplify
  read_word idx m lt bytes =
      let first : byte_at m (limb0 idx) ≡ word_byte val 0 = ground (arith, bytes 0 (omega arith)) in
      let h0 = helper-word_byte 0 in
      let h =
        joined_word 31 1 (limb0 idx) (byte_at m (limb0 idx)) m (omega arith) (omega arith)
          (rw first h0) bytes in
      ground (arith, h)

simplified :
    (e v : Expr)
    → simplify e ≡ some v
    → (ctx : ConcatOptCtx) × (simplify_concat_select_helper e ≡ some (ctx, v))
unfolding simplify
simplified e v h = elim (Option-cases (simplify_concat_select_helper e)) [
  | inl panic ↦ absurd (ground arith)
  | inr ((ctx, v'), run) ↦ (ctx, ground arith)
]

-- A word that is stored and read back at the same place is all the bits of the word simplified:
-- the write succeeds where the place is not within 33 bytes of the end of the address space.
pub get_256-insert_256 :
    (m : SymbolicMemory) (idx : ℕ) (val v : Expr)
    → limb0 idx + 33 < word
    → simplify val ≡ some v
    → (insert_256 m idx val >>= λ m'. get_256 m' idx) ≡ some (some (unary v (select 255 0)))
get_256-insert_256 m idx val v h hv =
    let (m', e, len, len', bytes) = insert_256_lem m idx val h in
    let (ctx, hc) = simplified val v hv in
    let read =
      read_word val v ctx hc idx m' (omega arith) (λ k lt. ground (arith, bytes (limb0 idx + k))) in
    ground (arith, read)

concat_bytes-same :
    (n i idx : ℕ) (acc : Expr) (m m' : SymbolicMemory)
    → ((k : ℕ) → k < i + n → byte_at m' (idx + k) ≡ byte_at m (idx + k))
    → concat_bytes n i idx acc m' ≡ concat_bytes n i idx acc m
unfolding concat_bytes
concat_bytes-same zero i idx acc m m' same = refl
concat_bytes-same (suc n) i idx acc m m' same = rw (same i (omega arith)) (
    concat_bytes-same n (i + 1) idx (binary acc (byte_at m (idx + i)) concat) m m'
      (λ k lt. same k (omega arith)))

-- A word that is stored leaves what is read at a place that it does not overlap, where that
-- place was in the memory before.
pub get_256-insert_256_elsewhere :
    (m : SymbolicMemory) (idx other : ℕ) (val : Expr)
    → limb0 idx + 33 < word
    → limb0 other < length m
    → (limb0 idx + 32 ≤ limb0 other) ⊎ (limb0 other + 32 ≤ limb0 idx)
    → (insert_256 m idx val >>= λ m'. get_256 m' other) ≡ get_256 m other
unfolding get_256
get_256-insert_256_elsewhere m idx other val h lt apart =
    let (m', e, len, len', bytes) = insert_256_lem m idx val h in
    let same : (k : ℕ) → k < 32 → byte_at m' (limb0 other + k) ≡ byte_at m (limb0 other + k) =
      λ k kl. ground (arith, bytes (limb0 other + k)) in
    let first : byte_at m' (limb0 other) ≡ byte_at m (limb0 other) =
      ground (arith, bytes (limb0 other)) in
    let all = concat_bytes-same 31 1 (limb0 other) (byte_at m (limb0 other)) m m' same in
    ground (arith, all, first)
