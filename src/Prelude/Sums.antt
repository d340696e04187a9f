-- ===== src/Prelude/Sums.antt =====
-- Maps with at most one entry for a key, and sums over the entries of a map.
use Prim.Native.Nat.{ℕ, ◌+◌, ◌≤◌}
use mathlib.Core.Path.{◌≡◌, refl}
use mathlib.Core.List.{List, [], ◌∷◌}
use mathlib.Core.Option.{none, some}
use native.Mathlib.Omega.{arith}
use ityfuzz.Prelude.Classes.{Eq, get, insert, erase, get-insert, get-erase, beq_refl}

module _ {ℓ κ} {K : Type ℓ} {V : Type κ} ⦃e : Eq K⦄ where
  abbrev pub Unique : List (K × V) → Type κ
  Unique [] = Unit
  Unique ((k, v) ∷ m) = (get k m ≡ none) × Unique m

  pub Unique-insert : (k : K) (v : V) (m : List (K × V)) → Unique m → Unique (insert k v m)
  unfolding insert get
  Unique-insert k v [] u = (refl, tt)
  Unique-insert k v ((j, w) ∷ m) u =
      ground (arith, Unique-insert k v m u.1, get-insert k j v m, e.beq_iff j k, e.beq_iff k j)

  pub Unique-erase : (k : K) (m : List (K × V)) → Unique m → Unique (erase k m)
  unfolding erase
  Unique-erase k [] u = tt
  Unique-erase k ((j, w) ∷ m) u =
      ground (arith, Unique-erase k m u.1, get-erase k j m, e.beq_iff j k, e.beq_iff k j)

  pub erase_absent : (k : K) (m : List (K × V)) → get k m ≡ none → erase k m ≡ m
  unfolding erase get
  erase_absent k [] h = refl
  erase_absent k ((j, w) ∷ m) h = ground (arith, erase_absent k m)

  -- The sum of a measure of the values.
  unfoldable pub total : (V → ℕ) → List (K × V) → ℕ
  total f [] = 0
  total f ((k, v) ∷ m) = f v + total f m

  pub total-insert_new :
      (f : V → ℕ) (k : K) (v : V) (m : List (K × V))
      → get k m ≡ none
      → total f (insert k v m) ≡ total f m + f v
  unfolding total insert get
  total-insert_new f k v [] h = omega arith
  total-insert_new f k v ((j, w) ∷ m) h = ground (arith, total-insert_new f k v m)

  pub total-insert_old :
      (f : V → ℕ) (k : K) (v w : V) (m : List (K × V))
      → get k m ≡ some w
      → total f (insert k v m) + f w ≡ total f m + f v
  unfolding total insert get
  total-insert_old f k v w [] h = cc
  total-insert_old f k v w ((j, x) ∷ m) h = ground (arith, total-insert_old f k v w m)

  pub total-erase :
      (f : V → ℕ) (k : K) (w : V) (m : List (K × V))
      → Unique m
      → get k m ≡ some w
      → total f (erase k m) + f w ≡ total f m
  unfolding total erase get
  total-erase f k w [] u h = cc
  total-erase f k w ((j, x) ∷ m) u h =
      ground (arith, total-erase f k w m u.1, e.beq_iff j k, erase_absent k m, erase_absent j m)

  -- A fact about each value that can be looked up is one about each entry.
  pub total-le :
      (f g : V → ℕ) (m : List (K × V))
      → Unique m
      → ((k : K) (v : V) → get k m ≡ some v → f v ≤ g v)
      → total f m ≤ total g m
  unfolding total get
  total-le f g [] u h = omega arith
  total-le f g ((j, x) ∷ m) u h =
      let head : f x ≤ g x = h j x (ground (arith, beq_refl j)) in
      omega (arith, head, total-le f g m u.1 (λ k v q. h k v (ground (arith, e.beq_iff j k))))
