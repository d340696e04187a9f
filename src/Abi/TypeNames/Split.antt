-- ===== src/Abi/TypeNames/Split.antt =====
-- src/evm/abi.rs: the parts of `split_with_parenthesis` are no longer than the text.
use ityfuzz.Prelude.{
  ℕ, suc, Bool, true, false, ◌&&◌, List, [], ◌∷◌, ◌++◌, ◌+◌, ◌≤◌, ◌==◌, arith, length,
  length-append, All,
}
use ityfuzz.Abi.TypeNames.{split_from, new_depth}

All-mono_le :
    (parts : List (List ℕ)) (a b : ℕ)
    → a ≤ b
    → All (λ (p : List ℕ). length p ≤ a) parts
    → All (λ (p : List ℕ). length p ≤ b) parts
All-mono_le [] a b h k = tt
All-mono_le (p ∷ parts) a b h k = (omega arith, All-mono_le parts a b h k.1)

pub split_from-length :
    (s current : List ℕ) (depth : ℕ)
    → All (λ (p : List ℕ). length p ≤ length current + length s) (split_from current depth s)
split_from-length [] current depth = (omega arith, tt)
split_from-length (c ∷ s) current depth =
    elim (c == b',' && new_depth c depth == 0)
      as (λ (x : Bool).
        All (λ (p : List ℕ). length p ≤ length current + suc (length s))
          (elim x [
            | true ↦ current ∷ split_from [] (new_depth c depth) s
            | false ↦ split_from (current ++ (c ∷ [])) (new_depth c depth) s
          ])) [
            | true ↦ (
              omega arith,
              All-mono_le (split_from [] (new_depth c depth) s) (length {A = ℕ} [] + length s)
                  (length current + suc (length s)) (omega arith)
                  (split_from-length s [] (new_depth c depth)),
            )
            | false ↦
                All-mono_le (split_from (current ++ (c ∷ [])) (new_depth c depth) s)
                  (length (current ++ (c ∷ [])) + length s) (length current + suc (length s))
                  (omega (arith, length-append current (c ∷ [])))
                  (split_from-length s (current ++ (c ∷ [])) (new_depth c depth))
          ]
