-- ===== src/Abi/TypeNames/Joined.antt =====
-- src/evm/abi.rs: `split_with_parenthesis` on the text of a tuple's items.
use mathlib.Core.List.{append_assoc, append-nil}
use ityfuzz.Prelude.{
  ℕ, suc, ◌≡◌, refl, sym, ap, ◌∙◌, Bool, true, not, ◌||◌, List, [], ◌∷◌, ◌++◌, ◌+◌, ◌<◌, ◌==◌,
  arith, All, all_of,
}
use ityfuzz.Abi.TypeNames.{split_from, split_with_parenthesis, new_depth, i32_size}
use ityfuzz.Abi.TypeNames.Text.{codes}
use ityfuzz.Abi.TypeNames.Printing.{
  numeral_text, IsDigit, Simple, signed, unsigned, address_name, bool_name, bytes_name, string_name,
  unknown, signed_of, unsigned_of, bytes_of, simple_text, IsSimple, TypeName, TypeNames, simple,
  tuple_of, dynamic_of, fixed_of, no_names, and_name, type_text, joined_text, further_text,
  type_texts, height, heights, IsTypeName, AreTypeNames,
}

-- Neither a parenthesis nor a comma.
abbrev is_plain : ℕ → Bool
is_plain c = not (c == b'(' || c == b')' || c == b',')

new_depth-plain : (c depth : ℕ) → is_plain c ≡ true → new_depth c depth ≡ depth
new_depth-plain c depth h = ground arith

split_from-plain_cons :
    (c : ℕ) (s current : List ℕ) (depth : ℕ)
    → is_plain c ≡ true
    → split_from current depth (c ∷ s) ≡ split_from (current ++ (c ∷ [])) depth s
split_from-plain_cons c s current depth h = ground arith

new_depth-open : (depth : ℕ) → suc depth < i32_size → new_depth b'(' depth ≡ suc depth
new_depth-open depth h = omega arith

new_depth-close : (depth : ℕ) → suc depth < i32_size → new_depth b')' (suc depth) ≡ depth
new_depth-close depth h = omega arith

split_from-open :
    (s current : List ℕ) (depth : ℕ)
    → suc depth < i32_size
    → split_from current depth (b'(' ∷ s) ≡ split_from (current ++ codes "(") (suc depth) s
split_from-open s current depth h = rw (new_depth-open depth h) refl

split_from-close :
    (s current : List ℕ) (depth : ℕ)
    → suc depth < i32_size
    → split_from current (suc depth) (b')' ∷ s) ≡ split_from (current ++ codes ")") depth s
split_from-close s current depth h = rw (new_depth-close depth h) refl

split_from-comma :
    (s current : List ℕ) (depth : ℕ)
    → split_from current (suc depth) (b',' ∷ s) ≡ split_from (current ++ codes ",") (suc depth) s
split_from-comma s current depth = ground arith

-- At this depth the text joins the current part.
Pushes : List ℕ → ℕ → Type 0
Pushes s depth =
    (rest current : List ℕ)
    → split_from current depth (s ++ rest) ≡ split_from (current ++ s) depth rest

append-Pushes : (s t : List ℕ) (depth : ℕ) → Pushes s depth → Pushes t depth → Pushes (s ++ t) depth
unfolding Pushes
append-Pushes s t depth p q rest current =
    ap (split_from current depth) (append_assoc s t rest)
    ∙ p (t ++ rest) current
    ∙ q rest (current ++ s)
    ∙ ap (λ (x : List ℕ). split_from x depth rest) (append_assoc current s t)

nil-Pushes : (depth : ℕ) → Pushes [] depth
unfolding Pushes
nil-Pushes depth rest current =
    ap (λ (x : List ℕ). split_from x depth rest) (sym (append-nil current))

comma-Pushes : (depth : ℕ) → Pushes (codes ",") (suc depth)
unfolding Pushes
comma-Pushes depth rest current = split_from-comma rest current depth

tuple-Pushes :
    (s : List ℕ) (depth : ℕ)
    → suc depth < i32_size
    → Pushes s (suc depth)
    → Pushes (b'(' ∷ (s ++ codes ")")) depth
unfolding Pushes
tuple-Pushes s depth h p rest current =
    split_from-open ((s ++ codes ")") ++ rest) current depth h
    ∙ ap (split_from (current ++ codes "(") (suc depth)) (append_assoc s (codes ")") rest)
    ∙ p (b')' ∷ rest) (current ++ codes "(")
    ∙ split_from-close rest ((current ++ codes "(") ++ s) depth h
    ∙ ap (λ (x : List ℕ). split_from x depth rest)
        (ap (λ (x : List ℕ). x ++ codes ")") (append_assoc current (codes "(") s)
          ∙ append_assoc current (b'(' ∷ s) (codes ")"))

plain_cons-Pushes : (c depth : ℕ) → is_plain c ≡ true → Pushes (c ∷ []) depth
unfolding Pushes
plain_cons-Pushes c depth h rest current = split_from-plain_cons c rest current depth h

plain-Pushes : (s : List ℕ) (depth : ℕ) → all_of is_plain s ≡ true → Pushes s depth
plain-Pushes [] depth h = nil-Pushes depth
plain-Pushes (c ∷ s) depth h =
    append-Pushes (c ∷ []) s depth (plain_cons-Pushes c depth (ground arith))
      (plain-Pushes s depth (ground arith))

plain-append :
    (s t : List ℕ)
    → all_of is_plain s ≡ true
    → all_of is_plain t ≡ true
    → all_of is_plain (s ++ t) ≡ true
plain-append [] t h k = k
plain-append (c ∷ s) t h k = ground (arith, plain-append s t)

digits-plain : (s : List ℕ) → All IsDigit s → all_of is_plain s ≡ true
digits-plain [] h = refl
digits-plain (c ∷ s) (d, h) = ground (arith, d.0, d.1, digits-plain s h)

simple_text-plain : (t : Simple) → IsSimple t → all_of is_plain (simple_text t) ≡ true
simple_text-plain signed h = refl
simple_text-plain unsigned h = refl
simple_text-plain address_name h = refl
simple_text-plain bool_name h = refl
simple_text-plain bytes_name h = refl
simple_text-plain string_name h = refl
simple_text-plain unknown h = refl
simple_text-plain (signed_of m) h =
    plain-append (codes "int") (numeral_text m) refl (digits-plain (numeral_text m) h.0.0)
simple_text-plain (unsigned_of m) h =
    plain-append (codes "uint") (numeral_text m) refl (digits-plain (numeral_text m) h.0.0)
simple_text-plain (bytes_of m) h =
    plain-append (codes "bytes") (numeral_text m) refl (digits-plain (numeral_text m) h.0)

mutual
  unfolding type_text height IsTypeName

  type_text-Pushes :
      (t : TypeName) (depth : ℕ)
      → IsTypeName t
      → height t + depth < i32_size
      → Pushes (type_text t) depth
  type_text-Pushes (simple t) depth w h = plain-Pushes (simple_text t) depth (simple_text-plain t w)
  type_text-Pushes (dynamic_of t) depth w h =
      append-Pushes (type_text t) (codes "[]") depth (type_text-Pushes t depth w h)
        (plain-Pushes (codes "[]") depth refl)
  type_text-Pushes (fixed_of t m) depth w h =
      append-Pushes (type_text t) (b'[' ∷ (numeral_text m ++ codes "]")) depth
        (type_text-Pushes t depth w.0 h)
        (plain-Pushes (b'[' ∷ (numeral_text m ++ codes "]")) depth
          (plain-append (numeral_text m) (codes "]") (digits-plain (numeral_text m) w.1.0) refl))
  type_text-Pushes (tuple_of ts) depth w h =
      tuple-Pushes (joined_text ts) depth (omega arith)
        (joined_text-Pushes ts depth w (omega arith))

  joined_text-Pushes :
      (ts : TypeNames) (depth : ℕ)
      → AreTypeNames ts
      → heights ts + suc depth < i32_size
      → Pushes (joined_text ts) (suc depth)
  joined_text-Pushes no_names depth w h = nil-Pushes (suc depth)
  joined_text-Pushes (and_name t ts) depth w h =
      append-Pushes (type_text t) (further_text ts) (suc depth)
        (type_text-Pushes t (suc depth) w.0 (omega arith))
        (further_text-Pushes ts depth w.1 (omega arith))

  further_text-Pushes :
      (ts : TypeNames) (depth : ℕ)
      → AreTypeNames ts
      → heights ts + suc depth < i32_size
      → Pushes (further_text ts) (suc depth)
  further_text-Pushes no_names depth w h = nil-Pushes (suc depth)
  further_text-Pushes (and_name t ts) depth w h =
      append-Pushes (codes ",") (type_text t ++ further_text ts) (suc depth) (comma-Pushes depth) (
        append-Pushes (type_text t) (further_text ts) (suc depth)
          (type_text-Pushes t (suc depth) w.0 (omega arith))
          (further_text-Pushes ts depth w.1 (omega arith)))

split_from-further_text :
    (ts : TypeNames) (current : List ℕ)
    → AreTypeNames ts
    → heights ts < i32_size
    → split_from current 0 (further_text ts) ≡ current ∷ type_texts ts
unfolding type_text height IsTypeName Pushes
split_from-further_text no_names current w h = refl
split_from-further_text (and_name t ts) current w h = ap (◌∷◌ current) (
    type_text-Pushes t 0 w.0 (omega arith) (further_text ts) []
    ∙ split_from-further_text ts (type_text t) w.1 (omega arith))

pub split_with_parenthesis-joined_text :
    (t : TypeName) (ts : TypeNames)
    → AreTypeNames (and_name t ts)
    → heights (and_name t ts) < i32_size
    → split_with_parenthesis (joined_text (and_name t ts)) ≡ type_texts (and_name t ts)
unfolding type_text height IsTypeName Pushes
split_with_parenthesis-joined_text t ts w h =
    type_text-Pushes t 0 w.0 (omega arith) (further_text ts) []
    ∙ split_from-further_text ts (type_text t) w.1 (omega arith)
