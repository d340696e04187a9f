-- ===== src/Corpus.antt =====
-- src/indexed_corpus.rs: the in-memory corpus with self-incrementing indices. A `CorpusId` is its
-- number, the interior mutability of an entry is not modelled, and a failed `unwrap` is `none`.
pub mod Laws
pub mod Walk
mod Tests
use ityfuzz.Prelude.{
  ℕ, ◌≡◌, ◌&&◌, Option, none, some, List, [], ltb, if◌then◌else◌, wrapping_add, wrapping_sub, get,
  insert, erase, ◌>>=◌, nat_eq,
}

pub record IndexedInMemoryCorpus {ℓ} (A : Type ℓ) : Type ℓ where
  pub entries : List (ℕ × A)
  pub current_idx : ℕ
  pub current : Option ℕ

-- `Error::key_not_found`, with the index that was asked for.
pub data Lookup {ℓ} (A : Type ℓ) : Type ℓ where
  ok : A → Lookup A
  key_not_found : ℕ → Lookup A

module _ {ℓ} {A : Type ℓ} where
  unfoldable pub new : IndexedInMemoryCorpus A
  new = record { entries = []; current_idx = 0; current = none }

  unfoldable pub count : IndexedInMemoryCorpus A → ℕ
  count c = c.current_idx

  unfoldable pub add : IndexedInMemoryCorpus A → A → IndexedInMemoryCorpus A × ℕ
  add c testcase =
      let next_idx = wrapping_add c.current_idx 1 in
      (
        record c { entries = insert c.current_idx testcase c.entries; current_idx = next_idx },
        wrapping_sub next_idx 1,
      )

  unfoldable pub replace : IndexedInMemoryCorpus A → ℕ → A → Option (IndexedInMemoryCorpus A × A)
  replace c idx testcase = do
    original ← get idx c.entries
    some (record c { entries = insert idx testcase c.entries }, original)

  unfoldable pub remove : IndexedInMemoryCorpus A → ℕ → Option (IndexedInMemoryCorpus A × A)
  remove c idx = do
    original ← get idx c.entries
    some (record c { entries = erase idx c.entries }, original)

  unfoldable pub get_entry : IndexedInMemoryCorpus A → ℕ → Lookup A
  get_entry c idx = elim (get idx c.entries) [ some entry ↦ ok entry | none ↦ key_not_found idx ]

  unfoldable pub set_current : IndexedInMemoryCorpus A → Option ℕ → IndexedInMemoryCorpus A
  set_current c id = record c { current = id }

  -- `idx < count() - 1`, where the subtraction wraps round.
  unfoldable pub next : IndexedInMemoryCorpus A → ℕ → Option ℕ
  unfolding count
  next c idx = if ltb idx (wrapping_sub (count c) 1) then some (wrapping_add idx 1) else none

  unfoldable pub prev : IndexedInMemoryCorpus A → ℕ → Option ℕ
  unfolding count
  prev c idx = if ltb 0 idx && ltb idx (count c) then some (wrapping_sub idx 1) else none

  unfoldable pub first : IndexedInMemoryCorpus A → Option ℕ
  unfolding count
  first c = if ltb 0 (count c) then some 0 else none

  unfoldable pub last : IndexedInMemoryCorpus A → Option ℕ
  unfolding count
  last c = if ltb 0 (count c) then some (wrapping_sub (count c) 1) else none

  unfoldable pub nth : IndexedInMemoryCorpus A → ℕ → ℕ
  nth c n = n
