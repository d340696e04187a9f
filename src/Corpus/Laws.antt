-- ===== src/Corpus/Laws.antt =====
-- The entries of the corpus: indices are handed out once, and lookups agree with the writes.
use ityfuzz.Prelude.{
  ℕ, ◌+◌, ◌<◌, ◌≡◌, refl, none, some, arith, if◌then◌else◌, word, get, get-insert, get-erase, ◌==◌,
  nat_eq, Option-cases, inl, inr, ◌⊎◌, ◌%◌, ◌-◌, insert, erase,
}
use ityfuzz.Corpus.{
  IndexedInMemoryCorpus, ok, key_not_found, new, count, add, replace, remove, get_entry,
}

module _ {ℓ} {A : Type ℓ} where
  -- Every index in use is below the next one.
  pub record IsIndexed (c : IndexedInMemoryCorpus A) : Type ℓ where
    pub below : (i : ℕ) (a : A) → get i c.entries ≡ some a → i < c.current_idx

  pub new-IsIndexed : IsIndexed new
  unfolding new get
  new-IsIndexed = record { below = λ i a h. cc }

  pub add-IsIndexed :
      (c : IndexedInMemoryCorpus A) (a : A)
      → c.current_idx + 1 < word
      → IsIndexed c
      → IsIndexed (add c a).0
  unfolding add
  add-IsIndexed c a room v = record {
    below = λ i b h. ground (arith, get-insert c.current_idx i a c.entries, v.below i b);
  }

  pub replace-IsIndexed :
      (c : IndexedInMemoryCorpus A) (i : ℕ) (a b : A) (d : IndexedInMemoryCorpus A)
      → replace c i a ≡ some (d, b)
      → IsIndexed c
      → IsIndexed d
  unfolding replace
  replace-IsIndexed c i a b d e v = record {
    below = λ j x h. ground (arith, get-insert i j a c.entries, v.below j x, v.below i b);
  }

  pub remove-IsIndexed :
      (c : IndexedInMemoryCorpus A) (i : ℕ) (b : A) (d : IndexedInMemoryCorpus A)
      → remove c i ≡ some (d, b)
      → IsIndexed c
      → IsIndexed d
  unfolding remove
  remove-IsIndexed c i b d e v = record {
    below = λ j x h. ground (arith, get-erase i j c.entries, v.below j x);
  }

  fresh_index : (c : IndexedInMemoryCorpus A) → IsIndexed c → get c.current_idx c.entries ≡ none
  fresh_index c v = elim (Option-cases (get c.current_idx c.entries)) [
    | inl e ↦ e
    | inr (b, e) ↦ absurd (omega (arith, v.below c.current_idx b e))
  ]

  -- `add` on an indexed corpus that has room for the counter returns an index that was not in use;
  -- afterwards looking that index up finds the new test case, every other lookup is as before, and
  -- the count has grown by one.
  pub get_entry-add :
      (c : IndexedInMemoryCorpus A) (a : A) (j : ℕ)
      → c.current_idx + 1 < word
      → IsIndexed c
      → (get_entry c (add c a).1 ≡ key_not_found (add c a).1)
        × (get_entry (add c a).0 j ≡ (if j == (add c a).1 then ok a else get_entry c j))
        × (count (add c a).0 ≡ count c + 1)
  unfolding add get_entry count
  get_entry-add c a j room v =
      let same : (c.current_idx + 1) % word ≡ c.current_idx + 1 = omega arith in
      let back : (c.current_idx + 1 + word - 1) % word ≡ c.current_idx = omega arith in
      ground (arith, same, back, fresh_index c v, get-insert c.current_idx j a c.entries)

  -- What `remove` does to one lookup: it panics on an index that is not in use; otherwise it
  -- returns the entry, that index is not found any more, every other lookup and the value of
  -- `count` stay as they were.
  pub get_entry-remove :
      (c : IndexedInMemoryCorpus A) (i j : ℕ)
      → ((remove c i ≡ none) × (get_entry c i ≡ key_not_found i))
        ⊎ ((a : A) × (d : IndexedInMemoryCorpus A) × (remove c i ≡ some (d, a))
            × (get_entry c i ≡ ok a)
            × (get_entry d j ≡ (if j == i then key_not_found j else get_entry c j))
            × (count d ≡ count c))
  unfolding remove get_entry count
  get_entry-remove c i j = elim (Option-cases (get i c.entries)) [
    | inl e ↦ inl (rw e, rw (e, get_entry))
    | inr (a, e) ↦ inr (
      a,
      record c { entries = erase i c.entries },
      rw (e, get_entry),
      rw (e, get_entry),
      ground (arith, get-erase i j c.entries),
      refl,
    )
  ]

  -- `replace` panics on an index that is not in use; otherwise it returns the old entry and
  -- changes the lookup of that index alone.
  pub get_entry-replace :
      (c : IndexedInMemoryCorpus A) (i j : ℕ) (a : A)
      → ((replace c i a ≡ none) × (get_entry c i ≡ key_not_found i))
        ⊎ ((b : A) × (d : IndexedInMemoryCorpus A) × (replace c i a ≡ some (d, b))
            × (get_entry c i ≡ ok b)
            × (get_entry d j ≡ (if j == i then ok a else get_entry c j))
            × (count d ≡ count c))
  unfolding replace get_entry count
  get_entry-replace c i j a = elim (Option-cases (get i c.entries)) [
    | inl e ↦ inl (rw e, rw (e, get_entry))
    | inr (b, e) ↦ inr (
      b,
      record c { entries = insert i a c.entries },
      rw (e, get_entry),
      rw (e, get_entry),
      ground (arith, get-insert i j a c.entries),
      refl,
    )
  ]
