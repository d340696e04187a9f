-- ===== src/Concolic/Tests.antt =====
-- The concolic executor at concrete values.
mod Bits
mod Steps
mod Words
use ityfuzz.Prelude.{
  ℕ, ◌+◌, ◌≤◌, ◌<◌, ◌≡◌, refl, Bool, true, false, Option, none, some, List, [], ◌∷◌, arith, ◌>>=◌,
  length, drop, take, replicate, All, any_of, all_of, if◌then◌else◌, Bool-cases, inl, inr,
}
use ityfuzz.Concolic.Expr.{
  expr_beq, ConcolicOp, add, lt, eq, lnot, select, concat, evmu256, constbyte, caller, callvalue,
  slicedinput, Expr, leaf, unary, binary, is_concrete, depth, fields,
}
use ityfuzz.Concolic.Simplify.{simplify, simplify_concat_select_helper, merge}
use ityfuzz.Concolic.Simplify.Joins.{well_formed}
use ityfuzz.Concolic.Simplify.Order.{in_order}
use ityfuzz.Concolic.Simplify.Laws.{simplify_lem}
use ityfuzz.Concolic.Memory.{SymbolicMemory, insert_256, get_256, word_byte}
use ityfuzz.Concolic.Memory.Reads.{get_256-insert_256, get_256-insert_256_elsewhere}
use ityfuzz.Concolic.Solving.{
  Solving, caller_field, origin_field, value, generate_z3_bv, arm_value, bool,
}
use ityfuzz.Concolic.Solving.Meaning.{simplify-value}
use ityfuzz.Concolic.Solving.Limits.{simplify-ascending, asserted-iszero, low_bits, upper_bits}
use ityfuzz.Concolic.Solving.Solve.{
  asserted, assertion_arm, assert_all, round, solve, answer, read_model, address_of, Solution,
  Reader,
}
use ityfuzz.Concolic.Solving.Solutions.{solve-Solves, Solves}
use ityfuzz.Concolic.Tests.Bits.{BitList, bits_z3, bits-Adjoins, to_bits}

abbrev two_bytes : Expr
two_bytes =
    binary (unary (leaf callvalue) (select 255 248)) (unary (leaf callvalue) (select 247 240))
      concat

abbrev tx : Solving BitList
tx = record {
  input = [];
  balance_bv = to_bits 8 0;
  calldatavalue = to_bits 256 7;
  caller_bv = to_bits 8 5;
  origin_bv = to_bits 8 5;
  constraints = binary (leaf caller) (leaf (constbyte 9)) lt ∷ [];
}

simplify_lem_example :
    (v : Expr) × (simplify two_bytes ≡ some v)
    × (depth v ≤ depth two_bytes)
    × (is_concrete v ≡ is_concrete two_bytes)
    × (simplify v ≡ some v)
unfolding well_formed
simplify_lem_example = simplify_lem two_bytes refl

simplify-value_example :
    (v : Expr) × (simplify two_bytes ≡ some v) × (value bits_z3 tx v ≡ value bits_z3 tx two_bytes)
unfolding well_formed in_order simplify_concat_select_helper expr_beq
simplify-value_example = simplify-value bits_z3 tx bits-Adjoins two_bytes refl refl

get_256-insert_256_example :
    (insert_256 [] 4 two_bytes >>= λ m. get_256 m 4)
    ≡ some (some (unary (unary (leaf callvalue) (select 255 240)) (select 255 0)))
unfolding simplify simplify_concat_select_helper merge expr_beq
get_256-insert_256_example =
    get_256-insert_256 [] 4 two_bytes (unary (leaf callvalue) (select 255 240)) (omega arith) refl

abbrev memory : SymbolicMemory
memory = some (word_byte (leaf caller) 0) ∷ none ∷ none ∷ []

abbrev less : Expr
less = binary (leaf caller) (leaf (constbyte 9)) lt

-- A solver that answers with the number 0 where all assertions are true
abbrev check : List Bool → Option ℕ
check bs = if all_of (λ b. b) bs then some 0 else none

-- A reader for which every term is printed as 64 fives
abbrev reader : Reader ℕ BitList
reader = record {
  eval = λ m bits. b'#' ∷ b'x' ∷ replicate 64 b'5';
  decode = λ text. some (take 20 text);
  from_hex = λ text. some 5;
}

abbrev found : Solution
found = record {
  input = [];
  caller = replicate 20 b'5';
  origin = replicate 20 b'5';
  value = 5;
  fields = caller_field ∷ origin_field ∷ [];
}

abbrev IsTrue : ℕ → Bool → Type 0
IsTrue m b = b ≡ true

check-All : (bs : List Bool) (m : ℕ) → check bs ≡ some m → All (IsTrue m) bs
check-All [] m h = tt
check-All (true ∷ bs) m h = (refl, check-All bs m h)
check-All (false ∷ bs) m h = cc

solve-Solves_example :
    All (Solves bits_z3 tx check reader IsTrue check-All (λ m x y h. refl) true) (found ∷ [])
unfolding solve round answer read_model address_of assert_all asserted assertion_arm generate_z3_bv
    arm_value
solve-Solves_example =
    solve-Solves bits_z3 tx check reader IsTrue check-All (λ m x y h. refl) [] less true
      (found ∷ []) refl refl refl
