-- ===== src/Concolic/Tests/Bits.antt =====
-- A bit-vector theory to run the translation on: a vector is the list of its bits, low bits first.
use ityfuzz.Prelude.{
  ℕ, zero, suc, ◌+◌, ◌-◌, ◌*◌, ◌/◌, ◌%◌, ◌^◌, ◌≡◌, refl, ap, sym, ◌∙◌, Bool, not, List, [], ◌∷◌,
  ◌++◌, ltb, ◌==◌, if◌then◌else◌, length, take, drop, map, arith,
}
use ityfuzz.Concolic.Solving.{Z3}
use ityfuzz.Concolic.Solving.Adjoin.{Adjoins}

abbrev pub BitList : Type 0
BitList = List ℕ

abbrev pub of_bits : BitList → ℕ
of_bits [] = 0
of_bits (b ∷ bits) = b + 2 * of_bits bits

abbrev pub to_bits : ℕ → ℕ → BitList
to_bits zero v = []
to_bits (suc w) v = v % 2 ∷ to_bits w (v / 2)

abbrev by_value : (ℕ → ℕ → ℕ) → BitList → BitList → BitList
by_value f a b = to_bits (length a) (f (of_bits a) (of_bits b))

abbrev flip : ℕ → ℕ
flip b = 1 - b

abbrev flipped : BitList → BitList
flipped bits = map flip bits

abbrev below : BitList → BitList → Bool
below a b = ltb (of_bits a) (of_bits b)

abbrev same : BitList → BitList → Bool
same a b = of_bits a == of_bits b

abbrev pub extract : ℕ → ℕ → BitList → BitList
extract high low bits = take (high + 1 - low) (drop low bits)

abbrev same_bool : Bool → Bool → Bool
same_bool a b = if a then b else not b

-- The signed operations are those of small positive numbers.
abbrev pub bits_z3 : Z3 BitList Bool
bits_z3 = record {
  bvadd = by_value (λ a b. a + b);
  bvudiv = by_value (λ a b. a / b);
  bvmul = by_value (λ a b. a * b);
  bvsub = by_value (λ a b. a - b);
  bvsdiv = by_value (λ a b. a / b);
  bvsmod = by_value (λ a b. a % b);
  bvurem = by_value (λ a b. a % b);
  bvsrem = by_value (λ a b. a % b);
  bvand = by_value (λ a b. a * b);
  bvor = by_value (λ a b. a + b);
  bvxor = by_value (λ a b. a + b);
  bvshl = by_value (λ a b. a * 2 ^ b);
  bvlshr = by_value (λ a b. a / 2 ^ b);
  bvashr = by_value (λ a b. a / 2 ^ b);
  bvnot = flipped;
  bv_not = flipped;
  bool_not = not;
  bv_eq = same;
  bool_eq = same_bool;
  bvult = below;
  bvslt = below;
  bvugt = λ a b. below b a;
  bvsgt = λ a b. below b a;
  bv_extract = extract;
  bv_concat = λ a b. b ++ a;
  from_u64 = λ v w. to_bits w v;
  new_const = λ s w. to_bits w 0;
}

take-add : (a b n : ℕ) (xs : BitList) → n ≡ a + b → take a xs ++ take b (drop a xs) ≡ take n xs
take-add zero b n xs h = ap (λ k. take k xs) (omega arith)
take-add (suc a) zero zero [] h = refl
take-add (suc a) (suc b) zero [] h = refl
take-add (suc a) zero (suc n) [] h = refl
take-add (suc a) (suc b) (suc n) [] h = refl
take-add (suc a) b zero (x ∷ xs) h = absurd (omega arith)
take-add (suc a) b (suc n) (x ∷ xs) h = ap (◌∷◌ x) (take-add a b n xs (omega arith))

drop-add : (a b n : ℕ) (xs : BitList) → n ≡ a + b → drop b (drop a xs) ≡ drop n xs
drop-add zero b n xs h = ap (λ k. drop k xs) (omega arith)
drop-add (suc a) zero zero [] h = refl
drop-add (suc a) (suc b) zero [] h = refl
drop-add (suc a) zero (suc n) [] h = refl
drop-add (suc a) (suc b) (suc n) [] h = refl
drop-add (suc a) b zero (x ∷ xs) h = absurd (omega arith)
drop-add (suc a) b (suc n) (x ∷ xs) h = drop-add a b n xs (omega arith)

pub bits-Adjoins : Adjoins bits_z3
bits-Adjoins high mid low x le lt =
    let above : drop (mid + 1 - low) (drop low x) ≡ drop (mid + 1) x =
      drop-add low (mid + 1 - low) (mid + 1) x (omega arith) in
    let joined =
      take-add (mid + 1 - low) (high + 1 - (mid + 1)) (high + 1 - low) (drop low x) (omega arith) in
    ap (λ ys. take (mid + 1 - low) (drop low x) ++ take (high + 1 - (mid + 1)) ys) (sym above)
    ∙ joined
