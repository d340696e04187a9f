-- ===== src/Corpus/Walk.antt =====
-- Walking through the corpus with `first`, `next`, `prev` and `last`.
use ityfuzz.Prelude.{
  ℕ, suc, ◌+◌, ◌<◌, ◌≡◌, Option, none, some, List, [], ◌∷◌, arith, word, zero, refl,
}
use ityfuzz.Corpus.{IndexedInMemoryCorpus, new, count, next, prev, first, last}

-- The indices that following `next` from a first index shows, for at most `fuel` of them.
pub walk {ℓ} : {A : Type ℓ} → ℕ → IndexedInMemoryCorpus A → Option ℕ → List ℕ
walk zero c start = []
walk (suc fuel) c none = []
walk (suc fuel) c (some i) = i ∷ walk fuel c (next c i)

-- i, i + 1, …, i + n - 1
pub range_from : ℕ → ℕ → List ℕ
range_from zero i = []
range_from (suc n) i = i ∷ range_from n (i + 1)

module _ {ℓ} {A : Type ℓ} (c : IndexedInMemoryCorpus A) (room : count c < word) where
  next_more : (i : ℕ) → i + 1 < count c → next c i ≡ some (i + 1)
  unfolding next count
  next_more i h = ground arith

  next_end : (i : ℕ) → i + 1 ≡ count c → next c i ≡ none
  unfolding next count
  next_end i h = ground arith

  walk_from :
      (n fuel i : ℕ) → i + suc n ≡ count c → n < fuel → walk fuel c (some i) ≡ range_from (suc n) i
  unfolding walk range_from
  walk_from n zero i e f = absurd (omega arith)
  walk_from zero (suc zero) i e f = ground arith
  walk_from zero (suc (suc fuel)) i e f = ground (arith, next_end i)
  walk_from (suc n) (suc fuel) i e f = ground (arith, next_more i, walk_from n fuel (i + 1))

  walk_start : (n fuel : ℕ) → n ≡ count c → n < fuel → walk fuel c (first c) ≡ range_from n 0
  unfolding walk range_from first count
  walk_start n zero e f = absurd (omega arith)
  walk_start zero (suc fuel) e f = ground arith
  walk_start (suc n) (suc fuel) e f = ground (arith, walk_from n (suc fuel) 0)

  -- Following `next` from `first`, in a corpus with less than 2^64 indices, shows the indices from
  -- 0 up to `count` - 1, each once and in order, and then ends; `count` + 1 rounds are enough.
  pub walk-first : (fuel : ℕ) → count c < fuel → walk fuel c (first c) ≡ range_from (count c) 0
  walk-first fuel f = walk_start (count c) fuel refl f

  -- `prev` undoes `next`.
  pub prev-next : (i j : ℕ) → next c i ≡ some j → 0 < count c → prev c j ≡ some i
  unfolding next prev count
  prev-next i j h pos = ground arith

-- On the empty corpus `count() - 1` wraps round to 2^64 - 1, so `next` answers with an index
-- that is not there (for every index whose successor is in 64 bits), where `first` and `last`
-- answer that there is none.
next_empty {ℓ} :
    (A : Type ℓ) (i : ℕ)
    → i + 1 < word
    → (next {A = A} new i ≡ some (i + 1)) × (first {A = A} new ≡ none) × (last {A = A} new ≡ none)
unfolding next first last count new
next_empty A i h = ground arith
