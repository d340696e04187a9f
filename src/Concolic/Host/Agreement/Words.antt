-- ===== src/Concolic/Host/Agreement/Words.antt =====
-- The EVM's words with the results of its operations, and the laws of Z3's terms on 256 bits.
use ityfuzz.Prelude.{
  ℕ, ◌+◌, ◌-◌, ◌*◌, ◌/◌, ◌%◌, ◌^◌, ◌<◌, ◌≡◌, Bool, true, false, not as negb, ltb, ◌==◌,
  if◌then◌else◌,
}
use Prim.Native.Nat.{bit_and, bit_or, bit_xor}
use ityfuzz.Concolic.Expr.{
  ConcolicOp, add, mul, sub, and, or, xor, shl, shr, sar, eq, lt, gt, slt, sgt,
}
use ityfuzz.Concolic.Solving.{Z3}

abbrev pub IsWord : ℕ → Type 0
IsWord v = v < 2 ^ 256

-- The operations whose Z3 counterpart is total and unsigned or agrees on the sign with the EVM's:
-- not the divisions and remainders, which differ for a zero divisor.
abbrev pub exact : ConcolicOp → Bool
exact add = true
exact mul = true
exact sub = true
exact and = true
exact or = true
exact xor = true
exact shl = true
exact shr = true
exact sar = true
exact eq = true
exact lt = true
exact gt = true
exact slt = true
exact sgt = true
exact _ = false

abbrev modulus : ℕ
modulus = 2 ^ 256

abbrev pub truth : Bool → ℕ
truth b = if b then 1 else 0

-- The order of the numbers in two's complement
abbrev pub signed_below : ℕ → ℕ → Bool
signed_below a b = ltb ((a + 2 ^ 255) % modulus) ((b + 2 ^ 255) % modulus)

-- The shift to the right that repeats the sign
abbrev pub signed_shift : ℕ → ℕ → ℕ
signed_shift a b = if ltb a (2 ^ 255) then a / 2 ^ b else modulus - 1 - (modulus - 1 - a) / 2 ^ b

-- The EVM's result from the left operand and the right one, on words; the value of a shift is on
-- the left.
abbrev pub evm_result : ConcolicOp → ℕ → ℕ → ℕ
evm_result add a b = (a + b) % modulus
evm_result mul a b = a * b % modulus
evm_result sub a b = (a + modulus - b) % modulus
evm_result and a b = bit_and a b
evm_result or a b = bit_or a b
evm_result xor a b = bit_xor a b
evm_result shl a b = a * 2 ^ b % modulus
evm_result shr a b = a / 2 ^ b
evm_result sar a b = signed_shift a b
evm_result eq a b = truth (a == b)
evm_result lt a b = truth (ltb a b)
evm_result gt a b = truth (ltb b a)
evm_result slt a b = truth (signed_below a b)
evm_result sgt a b = truth (signed_below b a)
evm_result _ a b = 0

-- A function of Z3 on terms of 256 bits that computes one on words, and a test that decides one
abbrev pub Computes : {Bv : Type 0} → (Bv → ℕ) → (Bv → ℕ) → (Bv → Bv → Bv) → (ℕ → ℕ → ℕ) → Type 0
Computes {Bv} width unsigned f g =
    (a b : Bv)
    → width a ≡ 256
    → width b ≡ 256
    → (width (f a b) ≡ 256) × (unsigned (f a b) ≡ g (unsigned a) (unsigned b))

abbrev pub Decides :
    {Bv Bo : Type 0} → (Bv → ℕ) → (Bv → ℕ) → (Bo → Bool) → (Bv → Bv → Bo) → (ℕ → ℕ → Bool) → Type 0
Decides {Bv} width unsigned holds f g =
    (a b : Bv) → width a ≡ 256 → width b ≡ 256 → holds (f a b) ≡ g (unsigned a) (unsigned b)

-- What Z3's terms are at the input of the run: its width and number for a bit vector, and a
-- truth value, with the functions of the theory of bit vectors.
pub record IsModel {Bv Bo : Type 0} (z : Z3 Bv Bo) : Type 0 where
  pub width : Bv → ℕ
  pub unsigned : Bv → ℕ
  pub holds : Bo → Bool
  pub limbs :
      (a b c d : ℕ)
      → a < 2 ^ 64
      → b < 2 ^ 64
      → c < 2 ^ 64
      → d < 2 ^ 64
      → let v =
          z.bv_concat
            (z.bv_concat (z.bv_concat (z.from_u64 a 64) (z.from_u64 b 64)) (z.from_u64 c 64))
            (z.from_u64 d 64) in
        (width v ≡ 256) × (unsigned v ≡ ((a * 2 ^ 64 + b) * 2 ^ 64 + c) * 2 ^ 64 + d)
  pub bvadd : Computes width unsigned z.bvadd (λ a b. (a + b) % 2 ^ 256)
  pub bvmul : Computes width unsigned z.bvmul (λ a b. a * b % 2 ^ 256)
  pub bvsub : Computes width unsigned z.bvsub (λ a b. (a + 2 ^ 256 - b) % 2 ^ 256)
  pub bvand : Computes width unsigned z.bvand bit_and
  pub bvor : Computes width unsigned z.bvor bit_or
  pub bvxor : Computes width unsigned z.bvxor bit_xor
  pub bvshl : Computes width unsigned z.bvshl (λ a b. a * 2 ^ b % 2 ^ 256)
  pub bvlshr : Computes width unsigned z.bvlshr (λ a b. a / 2 ^ b)
  pub bvashr : Computes width unsigned z.bvashr signed_shift
  pub bv_eq : Decides width unsigned holds z.bv_eq (λ a b. a == b)
  pub bvult : Decides width unsigned holds z.bvult (λ a b. ltb a b)
  pub bvugt : Decides width unsigned holds z.bvugt (λ a b. ltb b a)
  pub bvslt : Decides width unsigned holds z.bvslt signed_below
  pub bvsgt : Decides width unsigned holds z.bvsgt (λ a b. signed_below b a)
  pub bool_eq : (a b : Bo) → holds (z.bool_eq a b) ≡ (if holds a then holds b else negb (holds b))
