-- ===== src/Concolic/Solving/Solve.antt =====
-- `Solving::solve`: what is asserted of the path constraints, and what comes of it. The solver
-- is a parameter: `check` is `Solver::check` with `get_model`, and a `Reader` has the text that Z3
-- prints for a term in a model, with the reading of hexadecimal digits by the crates.
use ityfuzz.Prelude.{
  Bool, true, false, Option, none, some, List, [], ◌∷◌, ◌++◌, if◌then◌else◌, leb, ◌>>=◌, length,
  ◌&&◌, ℕ, ◌==◌, take, drop,
}
use ityfuzz.Concolic.Expr.{
  symbyte, constbyte, ConcolicOp, eq, lt, slt, gt, sgt, lnot, Expr, leaf, unary, only_rhs, binary,
}
use ityfuzz.Concolic.Solving.{
  Z3, Solving, Field, bv, bool, Value, Translated, generate_z3_bv, absent, bv_from_u256,
}

abbrev pub op_of : Expr → ConcolicOp
op_of (leaf op) = op
op_of (unary l op) = op
op_of (only_rhs r op) = op
op_of (binary l r op) = op

pub record Solution : Type 0 where
  pub input : List ℕ
  pub caller : List ℕ
  pub origin : List ℕ
  pub value : ℕ
  pub fields : List Field

-- `model.eval(x, true).unwrap()` as a text of code points, `hex::decode`, and
-- `EVMU256::from_str_radix` to the base 16; `none` is an error.
pub record Reader (Model Bv : Type 0) : Type 0 where
  pub eval : Model → Bv → List ℕ
  pub decode : List ℕ → Option (List ℕ)
  pub from_hex : List ℕ → Option ℕ

-- `trim_start_matches("#x")`
abbrev pub trimmed : List ℕ → List ℕ
trimmed [] = []
trimmed (c ∷ []) = c ∷ []
trimmed (c ∷ d ∷ text) = if c == b'#' && d == b'x' then trimmed text else c ∷ d ∷ text

-- `EVMAddress::from_slice` of the digits from 26 to 65, which are the last 20 of 32 bytes.
unfoldable pub address_of : {Model Bv : Type 0} → Reader Model Bv → List ℕ → Option (List ℕ)
address_of reader text =
    if leb 66 (length text)
    then (do
      bytes ← reader.decode (take 40 (drop 26 text))
      if length bytes == 20 then some bytes else none)
    else none

module _ {Bv Bo : Type 0} (z : Z3 Bv Bo) where
  -- A byte of the input is symbolic or constant; anything else is `unreachable!`.
  abbrev byte_bv : ConcolicOp → Option Bv
  byte_bv (symbyte name) = some (z.new_const name 8)
  byte_bv (constbyte val) = some (z.from_u64 val 8)
  byte_bv _ = none

  unfoldable pub input_bvs : List Expr → Option (List Bv)
  input_bvs [] = some []
  input_bvs (x ∷ input) = byte_bv (op_of x) >>= λ by. input_bvs input >>= λ rest. some (by ∷ rest)

  -- `ConcolicHost::solve` and the thread of `threaded_solve` make the `Solving` so: the names are
  -- "balance", "callvalue", "caller" and "origin".
  unfoldable pub new_solving : List Expr → List Expr → Option (Solving Bv)
  unfolding input_bvs
  new_solving input_bytes constraints = input_bvs input_bytes >>= λ input. some (record {
    input = input;
    balance_bv = z.new_const (98 ∷ 97 ∷ 108 ∷ 97 ∷ 110 ∷ 99 ∷ 101 ∷ []) 256;
    calldatavalue = z.new_const (99 ∷ 97 ∷ 108 ∷ 108 ∷ 118 ∷ 97 ∷ 108 ∷ 117 ∷ 101 ∷ []) 256;
    caller_bv = z.new_const (99 ∷ 97 ∷ 108 ∷ 108 ∷ 101 ∷ 114 ∷ []) 256;
    origin_bv = z.new_const (111 ∷ 114 ∷ 105 ∷ 103 ∷ 105 ∷ 110 ∷ []) 256;
    constraints = constraints;
  })

module _ {Bv Bo : Type 0} (z : Z3 Bv Bo) (self : Solving Bv) where
  -- What a constraint comes to: a panic, nothing where it is passed over, or an assertion.
  abbrev pub Assertion : Type 0
  Assertion = Option (Option Bo)

  -- A comparison with `expect_bv_or_continue!` on the left and on the right
  abbrev pub compared : (Bv → Bv → Bo) → Value z self → Value z self → Assertion
  compared op none r = none
  compared op (some (some (bv l))) none = none
  compared op (some (some (bv l))) (some (some (bv r))) = some (some (op l r))
  compared op (some (some (bv l))) (some r) = some none
  compared op (some l) r = some none

  abbrev pub refuted : Value z self → Assertion
  refuted none = none
  refuted (some none) = some none
  refuted (some (some (bv l))) = some (some (z.bv_eq l (bv_from_u256 z self 0)))
  refuted (some (some (bool l))) = some (some (z.bool_not l))

  abbrev pub passed_over : Value z self → Assertion
  passed_over none = none
  passed_over (some l) = some none

  -- The `match cons.op`
  unfoldable pub assertion_arm : ConcolicOp → Value z self → Value z self → Assertion
  assertion_arm gt l r = compared z.bvugt l r
  assertion_arm sgt l r = compared z.bvsgt l r
  assertion_arm eq l r = compared z.bv_eq l r
  assertion_arm lt l r = compared z.bvult l r
  assertion_arm slt l r = compared z.bvslt l r
  assertion_arm lnot l r = refuted l
  assertion_arm _ l r = passed_over l

  -- The right operand is translated where the left one is a bit vector that is compared.
  abbrev pub right_fields : Value z self → List Field → List Field
  right_fields (some (some (bv l))) r = r
  right_fields _ r = []

  abbrev pub assertion_fields : ConcolicOp → Translated z self → List Field → List Field
  assertion_fields gt (fl, l) r = fl ++ right_fields l r
  assertion_fields sgt (fl, l) r = fl ++ right_fields l r
  assertion_fields eq (fl, l) r = fl ++ right_fields l r
  assertion_fields lt (fl, l) r = fl ++ right_fields l r
  assertion_fields slt (fl, l) r = fl ++ right_fields l r
  assertion_fields _ (fl, l) r = fl

  -- The pushes to `constrained_field` and the assertion of one constraint
  abbrev pub Asserted : Type 0
  Asserted = List Field × Assertion

  abbrev asserted_arm : ConcolicOp → Translated z self → Translated z self → Asserted
  asserted_arm op (fl, l) (fr, r) = (assertion_fields op (fl, l) fr, assertion_arm op l r)

  unfoldable pub asserted : Expr → Asserted
  unfolding assertion_arm
  asserted (leaf op) = asserted_arm op (absent z self) (absent z self)
  asserted (unary l op) = asserted_arm op (generate_z3_bv z self l) (absent z self)
  asserted (only_rhs r op) = asserted_arm op (absent z self) (generate_z3_bv z self r)
  asserted (binary l r op) = asserted_arm op (generate_z3_bv z self l) (generate_z3_bv z self r)

  -- The fields and the assertions of a round; `none` is a panic.
  abbrev pub Round : Type 0
  Round = List Field × Option (List Bo)

  abbrev pub with_assertion : Asserted → Round → Round
  with_assertion (f, none) rest = (f, none)
  with_assertion (f, some a) (g, none) = (f ++ g, none)
  with_assertion (f, some none) (g, some bs) = (f ++ g, some bs)
  with_assertion (f, some (some b)) (g, some bs) = (f ++ g, some (b ∷ bs))

  -- The loop: an optimistic round takes the last constraint alone.
  unfoldable pub assert_all : Bool → List Expr → Round
  unfolding asserted
  assert_all optimistic [] = ([], some [])
  assert_all optimistic (cons ∷ rest) =
      let later = assert_all optimistic rest in
      if optimistic && leb 1 (length rest) then later else with_assertion (asserted cons) later

  module _ {Model : Type 0} (check : List Bo → Option Model) (reader : Reader Model Bv) where
    abbrev joined_digits : Model → List Bv → List ℕ
    joined_digits model [] = []
    joined_digits model (x ∷ xs) = trimmed (reader.eval model x) ++ joined_digits model xs

    -- The `Solution` of a model; `none` is a failed `unwrap`, or a text that is too short.
    unfoldable pub read_model : Model → List Field → Option Solution
    unfolding address_of
    read_model model fields = do
      input ← reader.decode (joined_digits model self.input)
      value ← reader.from_hex (trimmed (reader.eval model self.calldatavalue))
      caller ← address_of reader (reader.eval model self.caller_bv)
      origin ← address_of reader (reader.eval model self.origin_bv)
      some (record {
        input = input;
        caller = caller;
        origin = origin;
        value = value;
        fields = fields;
      })

    -- `none` is a panic, `some []` no solution.
    unfoldable pub answer :
        List Field → Option Model → (List Field → Option (List Solution)) → Option (List Solution)
    unfolding read_model
    answer fields (some model) otherwise = do s ← read_model model fields; some (s ∷ [])
    answer fields none otherwise = otherwise fields

    -- One round from the fields that are there already
    unfoldable pub round :
        Bool → List Field → (List Field → Option (List Solution)) → Option (List Solution)
    unfolding assert_all answer
    round optimistic fields otherwise =
        let (pushed, assertions) = assert_all optimistic self.constraints in
        assertions >>= λ bs.
        answer (fields ++ pushed) (check (z.bv_eq self.caller_bv self.origin_bv ∷ bs)) otherwise

    unfoldable pub solve_optimistic : List Field → Option (List Solution)
    unfolding round
    solve_optimistic fields = round true fields (λ _. some [])

    unfoldable pub solve : Option (List Solution)
    unfolding round solve_optimistic
    solve =
        round false []
          (λ fields. if leb (length self.constraints) 1 then some [] else solve_optimistic fields)
