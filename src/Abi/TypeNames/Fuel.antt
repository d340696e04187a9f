-- ===== src/Abi/TypeNames/Fuel.antt =====
-- src/evm/abi.rs: the length of the name is fuel enough for `get_abi_type`.
use ityfuzz.Prelude.{
  ℕ, zero, suc, ◌≡◌, refl, ap, Bool, true, false, Option, none, some, List, [], ◌∷◌, ◌-◌, ◌≤◌, ◌<◌,
  arith, length, length-take, All, take, Option-cases, inl, inr, ◌>>=◌, if◌then◌else◌,
}
use ityfuzz.Abi.{Abi, aarray, BoxedAbis}
use ityfuzz.Abi.TypeNames.{
  Shape, empty_tuple, tuple, dynamic, fixed, basic, shape_of, type_within, shaped_type, tuple_types,
  get_abi_type, split_with_parenthesis,
}
use ityfuzz.Abi.TypeNames.Text.{rsplit_once, first_part}
use ityfuzz.Abi.TypeNames.Split.{split_from-length}

-- The names inside a name.
Shrinks : Shape → ℕ → Type 0
Shrinks empty_tuple n = Unit
Shrinks basic n = Unit
Shrinks (tuple parts) n = All (λ (p : List ℕ). length p < n) parts
Shrinks (dynamic item) n = length item < n
Shrinks (fixed item digits) n = length item < n

rsplit_once-length :
    (c : ℕ) (s before after : List ℕ)
    → rsplit_once c s ≡ some (before, after)
    → length before < length s
rsplit_once-length c [] before after h = cc
rsplit_once-length c (x ∷ s) before after h = elim (Option-cases (rsplit_once c s)) [
  | inl e ↦ ground (arith, e)
  | inr ((before', after'), e) ↦ ground (arith, rsplit_once-length c s before' after' e)
]

if-Shrinks :
    (b : Bool) (x y : Shape) (n : ℕ) → Shrinks x n → Shrinks y n → Shrinks (if b then x else y) n
if-Shrinks true x y n h k = h
if-Shrinks false x y n h k = k

split-Shrinks :
    (o : Option (List ℕ × List ℕ)) (n : ℕ)
    → ((before after : List ℕ) → o ≡ some (before, after) → length before < n)
    → Shrinks
        (elim o [ some (before, after) ↦ fixed before (first_part b']' after) | none ↦ basic ])
        n
unfolding Shrinks
split-Shrinks none n h = tt
split-Shrinks (some (before, after)) n h = h before after refl

All-lt :
    (parts : List (List ℕ)) (a b : ℕ)
    → a < b
    → All (λ (p : List ℕ). length p ≤ a) parts
    → All (λ (p : List ℕ). length p < b) parts
All-lt [] a b h k = tt
All-lt (p ∷ parts) a b h k = (omega arith, All-lt parts a b h k.1)

basic-Shrinks : (n : ℕ) → Shrinks basic n
unfolding Shrinks
basic-Shrinks n = tt

empty_tuple-Shrinks : (n : ℕ) → Shrinks empty_tuple n
unfolding Shrinks
empty_tuple-Shrinks n = tt

tuple-Shrinks :
    (c : ℕ) (s : List ℕ)
    → Shrinks (tuple (split_with_parenthesis (take (length (c ∷ s) - 2) s))) (length (c ∷ s))
unfolding Shrinks
tuple-Shrinks c s =
    All-lt (split_with_parenthesis (take (length (c ∷ s) - 2) s)) _ (length (c ∷ s))
      (omega (arith, length-take (length (c ∷ s) - 2) s))
      (split_from-length (take (length (c ∷ s) - 2) s) [] 0)

dynamic-Shrinks :
    (c : ℕ) (s : List ℕ) → Shrinks (dynamic (take (length (c ∷ s) - 2) (c ∷ s))) (length (c ∷ s))
unfolding Shrinks
dynamic-Shrinks c s = omega (arith, length-take (length (c ∷ s) - 2) (c ∷ s))

shape_of-Shrinks : (name : List ℕ) → Shrinks (shape_of name) (length name)
shape_of-Shrinks [] = basic-Shrinks 0
shape_of-Shrinks (c ∷ s) = if-Shrinks _ _ _ _ (empty_tuple-Shrinks _) (
    if-Shrinks _ _ _ _ (tuple-Shrinks c s) (
      if-Shrinks _ _ _ _ (dynamic-Shrinks c s) (
        if-Shrinks _ _ _ _
          (split-Shrinks (rsplit_once b'[' (c ∷ s)) (length (c ∷ s))
            (rsplit_once-length b'[' (c ∷ s)))
          (basic-Shrinks _))))

All-map :
    {f g : List ℕ → Option Abi} {n : ℕ} (k : (s : List ℕ) → length s < n → f s ≡ g s)
    (parts : List (List ℕ))
    → All (λ (p : List ℕ). length p < n) parts
    → All (λ (p : List ℕ). f p ≡ g p) parts
All-map k [] h = tt
All-map k (p ∷ parts) h = (k p h.0, All-map k parts h.1)

tuple_types-agree :
    (f g : List ℕ → Option Abi) (parts : List (List ℕ))
    → All (λ (p : List ℕ). f p ≡ g p) parts
    → tuple_types f parts ≡ tuple_types g parts
tuple_types-agree f g [] h = refl
tuple_types-agree f g (p ∷ parts) h = simp (h.0, tuple_types-agree f g parts h.1)

shaped_type-agree :
    (f g : List ℕ → Option Abi) (sh : Shape) (name : List ℕ) (with_address : Option (List ℕ))
    (n : ℕ)
    → Shrinks sh n
    → ((s : List ℕ) → length s < n → f s ≡ g s)
    → shaped_type f sh name with_address ≡ shaped_type g sh name with_address
unfolding Shrinks shaped_type
shaped_type-agree f g empty_tuple name a n h k = refl
shaped_type-agree f g basic name a n h k = refl
shaped_type-agree f g (tuple parts) name a n h k =
    ap (λ (o : Option BoxedAbis). o >>= (λ (d : BoxedAbis). some (aarray d false)))
      (tuple_types-agree f g parts (All-map k parts h))
shaped_type-agree f g (dynamic item) name a n h k = rw (k item h) refl
shaped_type-agree f g (fixed item digits) name a n h k = rw (k item h) refl

type_within-agree :
    (m n : ℕ) (name : List ℕ) (with_address : Option (List ℕ))
    → length name < m
    → length name < n
    → type_within m name with_address ≡ type_within n name with_address
unfolding type_within
type_within-agree zero n name a h k = absurd (omega arith)
type_within-agree (suc m) zero name a h k = absurd (omega arith)
type_within-agree (suc m) (suc n) name a h k =
    shaped_type-agree (λ s. type_within m s a) (λ s. type_within n s a) (shape_of name) name a
      (length name) (shape_of-Shrinks name)
      (λ s l. type_within-agree m n s a (omega arith) (omega arith))

-- Any nesting bound above the name's length reads the name as `get_abi_type` does, into the same
-- value or the same panic.
pub type_within-get_abi_type :
    (n : ℕ) (name : List ℕ) (with_address : Option (List ℕ))
    → length name < n
    → type_within n name with_address ≡ get_abi_type name with_address
unfolding get_abi_type
type_within-get_abi_type n name a h = type_within-agree n (suc (length name)) name a h (omega arith)
