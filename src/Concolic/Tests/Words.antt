-- ===== src/Concolic/Tests/Words.antt =====
-- A theory of 256-bit words as numbers, and a step that keeps the stacks in agreement in it.
use ityfuzz.Prelude.{
  ℕ, ◌+◌, ◌-◌, ◌*◌, ◌/◌, ◌%◌, ◌^◌, ◌≡◌, refl, Bool, true, not as negb, [], ◌∷◌, none, some, ltb,
  ◌==◌, if◌then◌else◌, arith, word,
}
use Prim.Native.Nat.{bit_and, bit_or, bit_xor}
use ityfuzz.Concolic.Expr.{add, callvalue, fields, leaf, binary, evmu256, is_concrete}
use ityfuzz.Concolic.Solving.{Z3, Solving, bv, arm_value, generate_z3_bv}
use ityfuzz.Concolic.Host.{on_step, run_arm, push_all}
use ityfuzz.Concolic.Host.State.{Interp, Stack, stack_bv}
use ityfuzz.Concolic.Host.Opcodes.{arm_of, find_arm}
use ityfuzz.Concolic.Tests.Steps.{host_of}
use ityfuzz.Concolic.Host.Agreement.{on_step-Agrees}
use ityfuzz.Concolic.Host.Agreement.Instructions.{evm_add}
use ityfuzz.Concolic.Host.Agreement.Words.{IsModel, signed_below, signed_shift}
use ityfuzz.Concolic.Host.Agreement.Model.{Denotes, Stands}
use std.Path.{subst}
use ityfuzz.Concolic.Host.Agreement.Stacks.{Agrees}

abbrev modulus : ℕ
modulus = 2 ^ 256

abbrev same_bool : Bool → Bool → Bool
same_bool a b = if a then b else negb b

abbrev flipped : ℕ → ℕ
flipped a = modulus - 1 - a

abbrev shifted : ℕ → ℕ → ℕ
shifted a b = a * 2 ^ b % modulus

-- The divisions are not those of Z3 at zero; nothing rests on them here.
abbrev word_z3 : Z3 ℕ Bool
word_z3 = record {
  bvadd = λ a b. (a + b) % modulus;
  bvudiv = λ a b. a / b;
  bvmul = λ a b. a * b % modulus;
  bvsub = λ a b. (a + modulus - b) % modulus;
  bvsdiv = λ a b. a / b;
  bvsmod = λ a b. a % b;
  bvurem = λ a b. a % b;
  bvsrem = λ a b. a % b;
  bvand = bit_and;
  bvor = bit_or;
  bvxor = bit_xor;
  bvshl = shifted;
  bvlshr = λ a b. a / 2 ^ b;
  bvashr = signed_shift;
  bvnot = flipped;
  bv_not = flipped;
  bool_not = negb;
  bv_eq = λ a b. a == b;
  bool_eq = same_bool;
  bvult = λ a b. ltb a b;
  bvslt = signed_below;
  bvugt = λ a b. ltb b a;
  bvsgt = λ a b. signed_below b a;
  bv_extract = λ high low a. a / 2 ^ low % 2 ^ (high + 1 - low);
  bv_concat = λ a b. a * word + b;
  from_u64 = λ v w. v;
  new_const = λ s w. 0;
}

abbrev tx : Solving ℕ
tx = record {
  input = [];
  balance_bv = 0;
  calldatavalue = 7;
  caller_bv = 5;
  origin_bv = 5;
  constraints = [];
}

limbs :
    (a b c d : ℕ)
    → ((a * word + b) * word + c) * word + d ≡ ((a * 2 ^ 64 + b) * 2 ^ 64 + c) * 2 ^ 64 + d
limbs a b c d = refl

abbrev model : IsModel word_z3
model = record {
  width = λ a. 256;
  unsigned = λ a. a;
  holds = λ b. b;
  limbs = λ a b c d ha hb hc hd. (refl, limbs a b c d);
  bvadd = λ a b wa wb. (refl, refl);
  bvmul = λ a b wa wb. (refl, refl);
  bvsub = λ a b wa wb. (refl, refl);
  bvand = λ a b wa wb. (refl, refl);
  bvor = λ a b wa wb. (refl, refl);
  bvxor = λ a b wa wb. (refl, refl);
  bvshl = λ a b wa wb. (refl, refl);
  bvlshr = λ a b wa wb. (refl, refl);
  bvashr = λ a b wa wb. (refl, refl);
  bv_eq = λ a b wa wb. refl;
  bvult = λ a b wa wb. refl;
  bvugt = λ a b wa wb. refl;
  bvslt = λ a b wa wb. refl;
  bvsgt = λ a b wa wb. refl;
  bool_eq = λ a b. refl;
}

abbrev adding : Interp
adding = record { opcode = 0x01; stack = 1 ∷ 7 ∷ []; has_source = true }

abbrev added : Stack
added = some (binary (leaf (evmu256 1)) (leaf callvalue) add) ∷ []

callvalue_is : Denotes word_z3 tx model (leaf callvalue) 7
unfolding generate_z3_bv arm_value
callvalue_is t h =
    let same : bv 7 ≡ t = ground (arith, h) in subst (Stands word_z3 tx model 7) same (refl, refl)

on_step-Agrees_example : Agrees word_z3 tx model added (8 ∷ [])
unfolding on_step run_arm push_all arm_of find_arm stack_bv is_concrete
on_step-Agrees_example =
    on_step-Agrees word_z3 tx model fields adding (host_of (none ∷ some (leaf callvalue) ∷ []))
      (host_of added) (8 ∷ []) (callvalue_is, tt) (omega arith, (omega arith, tt)) (evm_add 1 7 [])
      refl
