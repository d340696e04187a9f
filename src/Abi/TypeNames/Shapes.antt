-- ===== src/Abi/TypeNames/Shapes.antt =====
-- src/evm/abi.rs: which test of `get_abi_type` a printed name meets.
use mathlib.Core.List.{append_assoc, reverse, reverse-append, head-eq_of_cons-eq}
use ityfuzz.Prelude.{
  ℕ, ◌≡◌, ◌≢◌, refl, sym, ap, ◌∙◌, true, false, none, some, List, [], ◌∷◌, ◌++◌, ◌-◌, arith, length,
  length-append, take, take-append, list_beq, list_beq_iff, Bool-cases, inl, inr, contains,
  contains-append,
}
use ityfuzz.Abi.TypeNames.{basic, tuple, dynamic, fixed, shape_of, split_with_parenthesis}
use ityfuzz.Abi.TypeNames.Text.{codes, starts_with, ends_with, rsplit_once, first_part}

reverse-last : (s : List ℕ) (c : ℕ) → reverse (s ++ (c ∷ [])) ≡ c ∷ reverse s
reverse-last s c = reverse-append s (c ∷ [])

ends_with-last :
    (p name r : List ℕ) (c : ℕ)
    → reverse name ≡ c ∷ r
    → ends_with p name ≡ starts_with (reverse p) (c ∷ r)
ends_with-last p name r c e = ap (starts_with (reverse p)) e

not_unit :
    (name r : List ℕ) (c : ℕ) → reverse name ≡ c ∷ r → c ≢ b')' → list_beq name (codes "()") ≡ false
not_unit name r c e h = elim (Bool-cases (list_beq name (codes "()"))) [
  | inl t ↦
      absurd (h (head-eq_of_cons-eq (sym e ∙ ap reverse ((list_beq_iff name (codes "()")).0 t))))
  | inr f ↦ f
]

shape_of-other :
    (name r : List ℕ) (c : ℕ) → reverse name ≡ c ∷ r → c ≢ b')' → c ≢ b']' → shape_of name ≡ basic
shape_of-other name r c e h k = ground (
  arith,
  not_unit name r c e h,
  ends_with-last (codes ")") name r c e,
  ends_with-last (codes "[]") name r c e,
  ends_with-last (codes "]") name r c e,
)

shape_of-dynamic_end :
    (name r : List ℕ)
    → reverse name ≡ b']' ∷ b'[' ∷ r
    → shape_of name ≡ dynamic (take (length name - 2) name)
shape_of-dynamic_end name r e = ground (
  arith,
  not_unit name (b'[' ∷ r) b']' e,
  ends_with-last (codes ")") name (b'[' ∷ r) b']' e,
  ends_with-last (codes "[]") name (b'[' ∷ r) b']' e,
)

shape_of-fixed_end :
    (name r before after : List ℕ) (c : ℕ)
    → reverse name ≡ b']' ∷ c ∷ r
    → c ≢ b'['
    → contains b'[' name ≡ true
    → rsplit_once b'[' name ≡ some (before, after)
    → shape_of name ≡ fixed before (first_part b']' after)
shape_of-fixed_end name r before after c e h k l = ground (
  arith,
  not_unit name (c ∷ r) b']' e,
  ends_with-last (codes ")") name (c ∷ r) b']' e,
  ends_with-last (codes "[]") name (c ∷ r) b']' e,
  ends_with-last (codes "]") name (c ∷ r) b']' e,
)

shape_of-tuple_end :
    (t r : List ℕ)
    → reverse (b'(' ∷ t) ≡ b')' ∷ r
    → list_beq (b'(' ∷ t) (codes "()") ≡ false
    → shape_of (b'(' ∷ t) ≡ tuple (split_with_parenthesis (take (length (b'(' ∷ t) - 2) t))
shape_of-tuple_end t r e n = rw (n, ends_with-last (codes ")") (b'(' ∷ t) r b')' e) refl

not_unit_cons : (x : ℕ) (s : List ℕ) → list_beq (b'(' ∷ ((x ∷ s) ++ codes ")")) (codes "()") ≡ false
not_unit_cons x [] = ground arith
not_unit_cons x (y ∷ s) = ground arith

rsplit_once-absent : (c : ℕ) (s : List ℕ) → contains c s ≡ false → rsplit_once c s ≡ none
rsplit_once-absent c [] h = refl
rsplit_once-absent c (x ∷ s) h = ground (arith, rsplit_once-absent c s)

rsplit_once-append :
    (c : ℕ) (s t : List ℕ) → contains c t ≡ false → rsplit_once c (s ++ (c ∷ t)) ≡ some (s, t)
rsplit_once-append c [] t h = ground (arith, rsplit_once-absent c t h)
rsplit_once-append c (x ∷ s) t h = rw (rsplit_once-append c s t h) refl

first_part-append : (c : ℕ) (s t : List ℕ) → contains c s ≡ false → first_part c (s ++ (c ∷ t)) ≡ s
first_part-append c [] t h = ground arith
first_part-append c (x ∷ s) t h = ground (arith, first_part-append c s t)

-- A name that ends neither a tuple nor an array.
pub shape_of-basic : (s : List ℕ) (c : ℕ) → c ≢ b')' → c ≢ b']' → shape_of (s ++ (c ∷ [])) ≡ basic
shape_of-basic s c = shape_of-other (s ++ (c ∷ [])) (reverse s) c (reverse-last s c)

pub shape_of-tuple :
    (x : ℕ) (s : List ℕ)
    → shape_of (b'(' ∷ ((x ∷ s) ++ codes ")")) ≡ tuple (split_with_parenthesis (x ∷ s))
shape_of-tuple x s =
    shape_of-tuple_end ((x ∷ s) ++ codes ")") (reverse (b'(' ∷ x ∷ s))
      (reverse-last (b'(' ∷ x ∷ s) b')') (not_unit_cons x s)
    ∙ ap (λ (t : List ℕ). tuple (split_with_parenthesis t))
        (take-append (x ∷ s) (codes ")") (length (b'(' ∷ ((x ∷ s) ++ codes ")")) - 2)
          (omega (arith, length-append (x ∷ s) (codes ")"))))

pub shape_of-dynamic : (x : ℕ) (s : List ℕ) → shape_of ((x ∷ s) ++ codes "[]") ≡ dynamic (x ∷ s)
shape_of-dynamic x s =
    shape_of-dynamic_end ((x ∷ s) ++ codes "[]") (reverse (x ∷ s))
      (reverse-append (x ∷ s) (codes "[]"))
    ∙ ap dynamic (
        take-append (x ∷ s) (codes "[]") (length ((x ∷ s) ++ codes "[]") - 2)
          (omega (arith, length-append (x ∷ s) (codes "[]"))))

reverse-fixed :
    (s front : List ℕ) (final : ℕ)
    → reverse (s ++ (b'[' ∷ ((front ++ (final ∷ [])) ++ codes "]")))
      ≡ b']' ∷ final ∷ reverse (s ++ (b'[' ∷ front))
reverse-fixed s front final =
    ap (λ (t : List ℕ). reverse (s ++ (b'[' ∷ t))) (append_assoc front (final ∷ []) (codes "]"))
    ∙ ap reverse (sym (append_assoc s (b'[' ∷ front) (final ∷ codes "]")))
    ∙ reverse-append (s ++ (b'[' ∷ front)) (final ∷ codes "]")

pub shape_of-fixed :
    (s : List ℕ) (front : List ℕ) (final : ℕ)
    → final ≢ b'['
    → contains b'[' (front ++ (final ∷ [])) ≡ false
    → contains b']' (front ++ (final ∷ [])) ≡ false
    → shape_of (s ++ (b'[' ∷ ((front ++ (final ∷ [])) ++ codes "]")))
      ≡ fixed s (front ++ (final ∷ []))
shape_of-fixed s front final n h k =
    shape_of-fixed_end (s ++ (b'[' ∷ ((front ++ (final ∷ [])) ++ codes "]")))
      (reverse (s ++ (b'[' ∷ front))) s ((front ++ (final ∷ [])) ++ codes "]") final
      (reverse-fixed s front final) n
      (ground (arith, contains-append b'[' s (b'[' ∷ ((front ++ (final ∷ [])) ++ codes "]"))))
      (rsplit_once-append b'[' s ((front ++ (final ∷ [])) ++ codes "]")
        (ground (arith, contains-append b'[' (front ++ (final ∷ [])) (codes "]"))))
    ∙ ap (fixed s) (first_part-append b']' (front ++ (final ∷ [])) [] k)
