-- ===== src/Concolic/Solving/Solutions.antt =====
-- What the solutions of `Solving::solve` satisfy.
use ityfuzz.Prelude.{
  ◌≡◌, refl, Bool, true, false, Option, none, some, List, [], ◌∷◌, ◌++◌, leb, >>=-eq-some, ◌>>=◌,
  length, ◌&&◌, arith, All, Bool-cases, Option-cases, inl, inr, ap, ◌∙◌,
}
use std.Path.{subst}
use ityfuzz.Concolic.Expr.{Expr}
use ityfuzz.Concolic.Solving.{Z3, Solving, Field}
use ityfuzz.Concolic.Solving.Solve.{
  Asserted, Round, asserted, with_assertion, assert_all, round, solve_optimistic, solve, Solution,
  Reader, read_model, answer, address_of,
}

All-last : {A : Type 0} (P : A → Type 0) (front : List A) (b : A) → All P (front ++ (b ∷ [])) → P b
All-last P [] b h = h.0
All-last P (x ∷ front) b h = All-last P front b h.1

module _ {Bv Bo : Type 0} (z : Z3 Bv Bo) (self : Solving Bv) where
  with_assertion-later :
      (a : Asserted z self) (r : Round z self) (bs : List Bo)
      → (with_assertion z self a r).1 ≡ some bs
      → (front : List Bo) × (later : List Bo) × (r.1 ≡ some later) × (bs ≡ front ++ later)
  with_assertion-later (f, none) r bs h = cc
  with_assertion-later (f, some none) (g, none) bs h = cc
  with_assertion-later (f, some (some b)) (g, none) bs h = cc
  with_assertion-later (f, some none) (g, some cs) bs h = ([], cs, refl, ground (arith, h))
  with_assertion-later (f, some (some b)) (g, some cs) bs h = (b ∷ [], cs, refl, ground (arith, h))

  only_asserted :
      (a : Asserted z self) (b : Bo) (bs : List Bo)
      → a.1 ≡ some (some b)
      → (with_assertion z self a ([], some [])).1 ≡ some bs
      → bs ≡ b ∷ []
  only_asserted (f, none) b bs e h = cc
  only_asserted (f, some none) b bs e h = cc
  only_asserted (f, some (some b')) b bs e h = ground (arith, e, h)

  append_front :
      (front pre later bs : List Bo) (b : Bo)
      → bs ≡ front ++ later
      → later ≡ pre ++ (b ∷ [])
      → bs ≡ (front ++ pre) ++ (b ∷ [])
  append_front [] pre later bs b e e' = e ∙ e'
  append_front (x ∷ front) pre later bs b e e' =
      e ∙ ap (◌∷◌ x) (append_front front pre later (front ++ later) b refl e')

  -- A round asserts the last constraint, at the end.
  last_asserted :
      (optimistic : Bool) (cs : List Expr) (c : Expr) (b : Bo) (bs : List Bo)
      → (asserted z self c).1 ≡ some (some b)
      → (assert_all z self optimistic (cs ++ (c ∷ []))).1 ≡ some bs
      → (front : List Bo) × (bs ≡ front ++ (b ∷ []))
  unfolding assert_all
  last_asserted optimistic [] c b bs hc h =
      ([], only_asserted (asserted z self c) b bs hc (ground (arith, h)))
  last_asserted optimistic (x ∷ cs) c b bs hc h =
      elim (Bool-cases (optimistic && leb 1 (length (cs ++ (c ∷ []))))) [
        | inl skip ↦ last_asserted optimistic cs c b bs hc (ground (arith, h))
        | inr take ↦
            let (front, later, e, q) =
              with_assertion-later (asserted z self x)
                (assert_all z self optimistic (cs ++ (c ∷ []))) bs (ground (arith, h)) in
            let (pre, q') = last_asserted optimistic cs c b later hc e in
            (front ++ pre, append_front front pre later bs b q q')
      ]

  module _ {Model : Type 0} (check : List Bo → Option Model) (reader : Reader Model Bv)
      (holds : Model → Bo → Type 0)
      (sound : (bs : List Bo) (m : Model) → check bs ≡ some m → All (holds m) bs)
      (prints : (m : Model) (x y : Bv)
        → holds m (z.bv_eq x y)
        → reader.eval m x ≡ reader.eval m y) where
    -- A solution is read from a model of the constraint, and its caller is its origin.
    abbrev pub Solves : Bo → Solution → Type 0
    Solves b s =
        (m : Model) × (fields : List Field) × (read_model z self check reader m fields ≡ some s)
        × holds m b
        × (s.caller ≡ s.origin)

    read_model-caller :
        (m : Model) (fields : List Field) (s : Solution)
        → reader.eval m self.caller_bv ≡ reader.eval m self.origin_bv
        → read_model z self check reader m fields ≡ some s
        → s.caller ≡ s.origin
    unfolding read_model
    read_model-caller m fields s same h =
        let (input, e1, h1) = >>=-eq-some (reader.decode _) _ h in
        let (value, e2, h2) = >>=-eq-some (reader.from_hex _) _ h1 in
        let (caller, e3, h3) =
          >>=-eq-some (address_of reader (reader.eval m self.caller_bv)) _ h2 in
        let (origin, e4, h4) =
          >>=-eq-some (address_of reader (reader.eval m self.origin_bv)) _ h3 in
        let alike : caller ≡ origin = ground (arith, e3, e4, ap (address_of reader) same) in
        ground (arith, h4, alike)

    abbrev no_solutions : List Solution
    no_solutions = []

    round-Solves :
        (optimistic : Bool) (fields : List Field) (otherwise : List Field → Option (List Solution))
        (cs : List Expr) (c : Expr) (b : Bo) (sols : List Solution)
        → self.constraints ≡ cs ++ (c ∷ [])
        → (asserted z self c).1 ≡ some (some b)
        → ((fields : List Field) → otherwise fields ≡ some sols → All (Solves b) sols)
        → round z self check reader optimistic fields otherwise ≡ some sols
        → All (Solves b) sols
    unfolding round answer
    round-Solves optimistic fields otherwise cs c b sols e hc later h =
        let pushed = (assert_all z self optimistic self.constraints).0 in
        let (bs, q, h1) = >>=-eq-some (assert_all z self optimistic self.constraints).1 _ h in
        let (front, q') = last_asserted optimistic cs c b bs hc (ground (arith, e, q)) in
        let same = z.bv_eq self.caller_bv self.origin_bv in
        elim (Option-cases (check (same ∷ bs))) [
          | inl unsat ↦ later (fields ++ pushed) (ground (arith, h1, unsat))
          | inr (m, sat) ↦
              let all = sound (same ∷ bs) m sat in
              let rest : All (holds m) (front ++ (b ∷ [])) =
                subst (λ bs. All (holds m) bs) q' all.1 in
              let found : (read_model z self check reader m (fields ++ pushed) >>= λ s.
              some (s ∷ []))
                  ≡ some sols =
                ground (arith, h1, sat) in
              let (s, read, done) =
                >>=-eq-some (read_model z self check reader m (fields ++ pushed)) _ found in
              let only : s ∷ [] ≡ sols = ground (arith, done) in
              let alike = read_model-caller m (fields ++ pushed) s (prints m _ _ all.0) read in
              subst (λ sols. All (Solves b) sols) only
                ((m, fields ++ pushed, read, All-last (holds m) front b rest, alike), tt)
        ]

    pub solve-Solves :
        (cs : List Expr) (c : Expr) (b : Bo) (sols : List Solution)
        → self.constraints ≡ cs ++ (c ∷ [])
        → (asserted z self c).1 ≡ some (some b)
        → solve z self check reader ≡ some sols
        → All (Solves b) sols
    unfolding solve solve_optimistic
    solve-Solves cs c b sols e hc h =
        let nothing : (fields : List Field) → some [] ≡ some sols → All (Solves b) sols =
          λ fields q.
            let empty : no_solutions ≡ sols = ground (arith, q) in
            subst (λ sols. All (Solves b) sols) empty tt in
        round-Solves false [] _ cs c b sols e hc
          (λ fields q. elim (Bool-cases (leb (length self.constraints) 1)) [
            | inl short ↦ nothing fields (ground (arith, q, short))
            | inr long ↦
                round-Solves true fields _ cs c b sols e hc nothing (ground (arith, q, long))
          ])
          h
