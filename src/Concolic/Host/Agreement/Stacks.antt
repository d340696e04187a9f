-- ===== src/Concolic/Host/Agreement/Stacks.antt =====
-- Symbolic stacks that agree with stacks of words.
use ityfuzz.Prelude.{
  ℕ, zero, suc, ◌<◌, ◌^◌, ◌≡◌, refl, ap, ◌∙◌, Option, none, some, List, [], ◌∷◌, ◌++◌, arith,
  length, drop, set, get_elem?, All, >>=-eq-some, replicate, Option-cases, Bool-cases, ◌⊎◌, inl,
  inr,
}
use std.Path.{subst}
use ityfuzz.Concolic.Expr.{evmu256, Expr, leaf, is_concrete}
use ityfuzz.Concolic.Solving.{Z3, Solving}
use ityfuzz.Concolic.Host.{push_all, kept}
use ityfuzz.Concolic.Host.State.{Stack, Interp, ConcolicHost, stack_bv}
use ityfuzz.Concolic.Host.Agreement.Words.{IsWord, IsModel}
use ityfuzz.Concolic.Host.Agreement.Model.{Denotes, constant-Denotes}

module _ {Bv Bo : Type 0} (z : Z3 Bv Bo) (self : Solving Bv) (model : IsModel z) where
  abbrev pub Agrees : Stack → List ℕ → Type 0
  Agrees [] [] = Unit
  Agrees (none ∷ stack) (v ∷ words) = Agrees stack words
  Agrees (some e ∷ stack) (v ∷ words) = Denotes z self model e v × Agrees stack words
  Agrees _ _ = ⊥

  Agrees-elem :
      (stack : Stack) (words : List ℕ) (n v : ℕ) (e : Expr)
      → Agrees stack words
      → get_elem? stack n ≡ some (some e)
      → get_elem? words n ≡ some v
      → Denotes z self model e v
  Agrees-elem (none ∷ stack) (w ∷ words) zero v e a h h' = cc
  Agrees-elem (none ∷ stack) (w ∷ words) (suc n) v e a h h' = Agrees-elem stack words n v e a h h'
  Agrees-elem (some e' ∷ stack) (w ∷ words) zero v e a h h' =
      λ t q. let (wide, is) = a.0 t (ground (arith, h, q)) in (wide, is ∙ ground (arith, h'))
  Agrees-elem (some e' ∷ stack) (w ∷ words) (suc n) v e a h h' =
      Agrees-elem stack words n v e a.1 h h'
  Agrees-elem [] words n v e a h h' = cc
  Agrees-elem (none ∷ stack) [] n v e a h h' = absurd a
  Agrees-elem (some e' ∷ stack) [] n v e a h h' = absurd a

  word_at : (words : List ℕ) (n v : ℕ) → All IsWord words → get_elem? words n ≡ some v → v < 2 ^ 256
  word_at [] n v a h = cc
  word_at (w ∷ words) zero v a h = ground (arith, a, h)
  word_at (w ∷ words) (suc n) v a h = word_at words n v a.1 h

  pub stack_bv-Denotes :
      (interp : Interp) (host : ConcolicHost) (n v : ℕ) (e : Expr)
      → Agrees host.symbolic_stack interp.stack
      → All IsWord interp.stack
      → stack_bv interp host n ≡ some e
      → get_elem? interp.stack n ≡ some v
      → Denotes z self model e v
  unfolding stack_bv
  stack_bv-Denotes interp host n v e a small h at =
      elim (Option-cases (get_elem? host.symbolic_stack n)) [
        | inl q ↦ absurd (ground (arith, h, q))
        | inr (some e', q) ↦
            Agrees-elem host.symbolic_stack interp.stack n v e a (ground (arith, h, q)) at
        | inr (none, q) ↦
            let same : leaf (evmu256 v) ≡ e = ground (arith, h, q, at) in
            subst (λ e. Denotes z self model e v) same
              (constant-Denotes z self model v (word_at interp.stack n v small at))
      ]

  pub Agrees-drop :
      (stack : Stack) (words : List ℕ) (n : ℕ)
      → Agrees stack words
      → Agrees (drop n stack) (drop n words)
  Agrees-drop stack words zero a = a
  Agrees-drop [] [] (suc n) a = tt
  Agrees-drop (none ∷ stack) (v ∷ words) (suc n) a = Agrees-drop stack words n a
  Agrees-drop (some e ∷ stack) (v ∷ words) (suc n) a = Agrees-drop stack words n a.1
  Agrees-drop [] (v ∷ words) (suc n) a = absurd a
  Agrees-drop (none ∷ stack) [] (suc n) a = absurd a
  Agrees-drop (some e ∷ stack) [] (suc n) a = absurd a

  pub Agrees-set :
      (stack : Stack) (words : List ℕ) (n v : ℕ) (e : Expr)
      → Agrees stack words
      → Denotes z self model e v
      → Agrees (set stack n (some e)) (set words n v)
  Agrees-set [] [] n v e a d = tt
  Agrees-set (none ∷ stack) (w ∷ words) zero v e a d = (d, a)
  Agrees-set (none ∷ stack) (w ∷ words) (suc n) v e a d = Agrees-set stack words n v e a d
  Agrees-set (some e' ∷ stack) (w ∷ words) zero v e a d = (d, a.1)
  Agrees-set (some e' ∷ stack) (w ∷ words) (suc n) v e a d =
      (a.0, Agrees-set stack words n v e a.1 d)
  Agrees-set [] (w ∷ words) n v e a d = absurd a
  Agrees-set (none ∷ stack) [] n v e a d = absurd a
  Agrees-set (some e' ∷ stack) [] n v e a d = absurd a

  pub Agrees-concrete :
      (m : ℕ) (vs : List ℕ) (stack : Stack) (words : List ℕ)
      → length vs ≡ m
      → Agrees stack words
      → Agrees (replicate m none ++ stack) (vs ++ words)
  Agrees-concrete zero [] stack words h a = a
  Agrees-concrete (suc m) (v ∷ vs) stack words h a =
      Agrees-concrete m vs stack words (omega arith) a
  Agrees-concrete zero (v ∷ vs) stack words h a = absurd (omega arith)
  Agrees-concrete (suc m) [] stack words h a = absurd (omega arith)

  kept-cases : (e : Expr) (k : Option Expr) → kept (some e) ≡ some k → (k ≡ none) ⊎ (k ≡ some e)
  kept-cases e k h =
      let (c, q, h1) = >>=-eq-some (is_concrete e) _ h in
      elim (Bool-cases c) [ inl folded ↦ inl (ground arith) | inr unfolded ↦ inr (ground arith) ]

  replicate_shift :
      (m : ℕ) (stack : Stack)
      → replicate m none ++ (none ∷ stack) ≡ none ∷ (replicate m none ++ stack)
  replicate_shift zero stack = refl
  replicate_shift (suc m) stack = ap (◌∷◌ none) (replicate_shift m stack)

  pub push_one :
      (e : Expr) (v : ℕ) (host host' : ConcolicHost) (words : List ℕ)
      → push_all (some e ∷ []) host ≡ some host'
      → Denotes z self model e v
      → Agrees host.symbolic_stack words
      → Agrees host'.symbolic_stack (v ∷ words)
  unfolding push_all
  push_one e v host host' words h d a =
      let (k, q, h1) = >>=-eq-some (kept (some e)) _ h in
      let pushed : k ∷ host.symbolic_stack ≡ host'.symbolic_stack = ground (arith, h1) in
      elim (kept-cases e k q) [
        | inl gone ↦
            let same : none ∷ host.symbolic_stack ≡ host'.symbolic_stack =
              ground (arith, pushed, gone) in
            subst (λ (st : Stack). Agrees st (v ∷ words)) same a
        | inr there ↦
            let same : some e ∷ host.symbolic_stack ≡ host'.symbolic_stack =
              ground (arith, pushed, there) in
            subst (λ (st : Stack). Agrees st (v ∷ words)) same (d, a)
      ]

  pub push_nones :
      (m : ℕ) (host host' : ConcolicHost)
      → push_all (replicate m none) host ≡ some host'
      → host'.symbolic_stack ≡ replicate m none ++ host.symbolic_stack
  unfolding push_all
  push_nones zero host host' h = ground (arith, h)
  push_nones (suc m) host host' h =
      push_nones m (record host { symbolic_stack = none ∷ host.symbolic_stack }) host' h
      ∙ replicate_shift m host.symbolic_stack
