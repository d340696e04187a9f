-- ===== src/Reentrancy/Depths.antt =====
-- The ascending lists of depths: the merge, and the read depths with one more.
use ityfuzz.Prelude.{
  ℕ, suc, ◌≤◌, ◌<◌, ◌≡◌, refl, false, ◌&&◌, ◌||◌, List, [], ◌∷◌, ◌==◌, leb, ltb, arith, keep_if,
  contains,
}
use Prim.Native.Nat.{compare, Ordering}
use ityfuzz.Reentrancy.{merge_head, merge_sorted_vec_dedup, scan_reads, push_last}

-- Strictly ascending, and from the bound on
abbrev pub From : ℕ → List ℕ → Type 0
From b [] = Unit
From b (x ∷ xs) = (b ≤ x) × From (suc x) xs

pub From-le : (a b : ℕ) (xs : List ℕ) → a ≤ b → From b xs → From a xs
From-le a b [] h f = tt
From-le a b (x ∷ xs) h f = (omega (arith, f.0), f.1)

merge_head-contains :
    (d x : ℕ) (xs : List ℕ) (rest : List ℕ → List ℕ) (ys : List ℕ)
    → ((zs : List ℕ) → contains d (rest zs) ≡ (contains d xs || contains d zs))
    → contains d (merge_head x rest ys) ≡ (d == x || contains d xs || contains d ys)
unfolding merge_head
merge_head-contains d x xs rest [] h = ground (arith, h [])
merge_head-contains d x xs rest (y ∷ ys) h =
    ground (arith, h (y ∷ ys), h ys, merge_head-contains d x xs rest ys h)

-- The merge holds the depths of both lists.
pub contains-merge_sorted_vec_dedup :
    (d : ℕ) (xs ys : List ℕ)
    → contains d (merge_sorted_vec_dedup xs ys) ≡ (contains d xs || contains d ys)
unfolding merge_sorted_vec_dedup
contains-merge_sorted_vec_dedup d [] ys = refl
contains-merge_sorted_vec_dedup d (x ∷ xs) ys = ground (
  arith,
  merge_head-contains d x xs (merge_sorted_vec_dedup xs) ys (contains-merge_sorted_vec_dedup d xs),
)

merge_head-From :
    (b x : ℕ) (rest : List ℕ → List ℕ) (ys : List ℕ)
    → b ≤ x
    → ((zs : List ℕ) → From (suc x) zs → From (suc x) (rest zs))
    → From b ys
    → From b (merge_head x rest ys)
unfolding merge_head
merge_head-From b x rest [] l h f = (l, h [] tt)
merge_head-From b x rest (y ∷ ys) l h f =
    ground (arith, merge_head-From (suc y) x rest ys, h (y ∷ ys), h ys, From-le (suc x) (suc y) ys)

pub merge_sorted_vec_dedup-From :
    (b : ℕ) (xs ys : List ℕ) → From b xs → From b ys → From b (merge_sorted_vec_dedup xs ys)
unfolding merge_sorted_vec_dedup
merge_sorted_vec_dedup-From b [] ys f g = g
merge_sorted_vec_dedup-From b (x ∷ xs) ys f g =
    merge_head-From b x (merge_sorted_vec_dedup xs) ys f.0
      (λ zs h. merge_sorted_vec_dedup-From (suc x) xs zs f.1 h) g

-- The sorted insertion that the loop and the push amount to
abbrev pub put : ℕ → List ℕ → List ℕ
put d [] = d ∷ []
put d (x ∷ xs) = elim (compare x d) [
  | Ordering.lt ↦ x ∷ put d xs
  | Ordering.eq ↦ x ∷ xs
  | Ordering.gt ↦ d ∷ x ∷ xs
]

push_last-cons : (d x : ℕ) (zs : List ℕ) → x < d → push_last d (x ∷ zs) ≡ x ∷ push_last d zs
unfolding push_last
push_last-cons d x [] h = ground arith
push_last-cons d x (z ∷ zs) h = ground arith

push_last_kept : (d x : ℕ) (xs : List ℕ) → d ≤ x → From (suc x) xs → push_last d (x ∷ xs) ≡ x ∷ xs
unfolding push_last
push_last_kept d x [] h f = ground arith
push_last_kept d x (y ∷ ys) h f = ground (arith, push_last_kept d y ys (omega arith) f.1)

pub push_last-scan_reads :
    (b d : ℕ) (xs : List ℕ) → From b xs → push_last d (scan_reads d xs).0 ≡ put d xs
unfolding scan_reads
push_last-scan_reads b d [] f = unfold push_last in refl
push_last-scan_reads b d (x ∷ xs) f = ground (
  arith,
  push_last-scan_reads (suc x) d xs f.1,
  push_last-cons d x (scan_reads d xs).0,
  push_last_kept d x xs,
  push_last_kept d d (x ∷ xs),
)

pub put-From : (b d : ℕ) (xs : List ℕ) → b ≤ d → From b xs → From b (put d xs)
put-From b d [] h f = (h, tt)
put-From b d (x ∷ xs) h f = ground (arith, put-From (suc x) d xs, f.1)

pub contains-put : (k d : ℕ) (xs : List ℕ) → contains k (put d xs) ≡ (k == d || contains k xs)
contains-put k d [] = refl
contains-put k d (x ∷ xs) = ground (arith, contains-put k d xs)

From-absent : (b k : ℕ) (xs : List ℕ) → From b xs → k < b → contains k xs ≡ false
From-absent b k [] f h = refl
From-absent b k (x ∷ xs) f h = ground (arith, From-absent (suc x) k xs f.1)

pub contains-found_smaller :
    (b k d : ℕ) (xs : List ℕ)
    → From b xs
    → contains k (scan_reads d xs).1 ≡ (ltb k d && contains k xs)
unfolding scan_reads
contains-found_smaller b k d [] f = ground arith
contains-found_smaller b k d (x ∷ xs) f =
    ground (arith, contains-found_smaller (suc x) k d xs f.1, From-absent (suc x) k xs f.1)

pub found_smaller-From : (b d : ℕ) (xs : List ℕ) → From b xs → From b (scan_reads d xs).1
unfolding scan_reads
found_smaller-From b d [] f = tt
found_smaller-From b d (x ∷ xs) f = ground (arith, found_smaller-From (suc x) d xs f.1)

pub keep_if-From : (b d : ℕ) (xs : List ℕ) → From b xs → From b (keep_if (λ x. leb x d) xs)
keep_if-From b d [] f = tt
keep_if-From b d (x ∷ xs) f =
    ground
      (arith, keep_if-From (suc x) d xs f.1, From-le b (suc x) (keep_if (λ (y : ℕ). leb y d) xs))

pub contains-keep_if :
    (k d : ℕ) (xs : List ℕ) → contains k (keep_if (λ x. leb x d) xs) ≡ (leb k d && contains k xs)
contains-keep_if k d [] = ground arith
contains-keep_if k d (x ∷ xs) = ground (arith, contains-keep_if k d xs)
