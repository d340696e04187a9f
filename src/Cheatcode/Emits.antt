-- ===== src/Cheatcode/Emits.antt =====
-- Expected logs: `expect_emit0` to `expect_emit3` of expect.rs and `handle_expect_emit` of mod.rs.
use ityfuzz.Prelude.{
  ℕ, Bool, true, false, ◌&&◌, Option, none, some, List, [], ◌∷◌, ◌++◌, ◌==◌, if◌then◌else◌, length,
  list_beq, all_of, any_of,
}
use ityfuzz.Cheatcode.{Address, RawLog, ExpectedEmit, FuzzHost}

abbrev pub expected_emit : ℕ → Bool × Bool × Bool × Bool → Option Address → ExpectedEmit
expected_emit depth (topic1, topic2, topic3, check_data) address = record {
  depth = depth;
  log = none;
  check_topic1 = topic1;
  check_topic2 = topic2;
  check_topic3 = topic3;
  check_data = check_data;
  address = address;
  found = false;
}

-- `expect_emit0` and `expect_emit1` (with an address); `expect_emit2` and `expect_emit3` check all.
unfoldable pub expect_emit : Bool × Bool × Bool × Bool → Option Address → FuzzHost → FuzzHost
expect_emit checks address host = record host {
  expected_emits = host.expected_emits ++ (expected_emit host.call_depth checks address ∷ []);
}

unfoldable pub expect_emit_all : Option Address → FuzzHost → FuzzHost
unfolding expect_emit
expect_emit_all address host = expect_emit (true, true, true, true) address host

-- The topics after the first, each compared if its check is set; the lists have one length.
unfoldable pub topics_match : List Bool → List ℕ → List ℕ → Bool
topics_match checks [] ys = true
topics_match [] (x ∷ xs) ys = true
topics_match (c ∷ checks) (x ∷ xs) [] = true
topics_match (c ∷ checks) (x ∷ xs) (y ∷ ys) =
    (if c then x == y else true) && topics_match checks xs ys

-- The value of `found` after the comparison of an expected log with a log of at most four topics.
unfoldable pub found_after : ExpectedEmit → RawLog → RawLog → Bool
unfolding topics_match
found_after e expected log = elim log.topics [
  | [] ↦ e.found
  | t ∷ ts ↦ elim expected.topics [
    | [] ↦ e.found
    | u ∷ us ↦
        if u == t && length us == length ts
        then topics_match (e.check_topic1 ∷ e.check_topic2 ∷ e.check_topic3 ∷ []) ts us
          && (elim e.address [ none ↦ true | some a ↦ a == log.address ])
          && (if e.check_data then list_beq expected.bytes log.bytes else true)
        else e.found
  ]
]

abbrev pub is_unfilled : ExpectedEmit → Bool
is_unfilled e = elim e.log [ none ↦ true | some log ↦ false ]

-- `pop_back`
unfoldable pub pop_back : List ExpectedEmit → Option (List ExpectedEmit × ExpectedEmit)
pop_back [] = none
pop_back (e ∷ []) = some ([], e)
pop_back (e ∷ f ∷ es) = elim (pop_back (f ∷ es)) [
  | none ↦ none
  | some (rest, last) ↦ some (e ∷ rest, last)
]

abbrev pub pop_front : List ExpectedEmit → Option (List ExpectedEmit × ExpectedEmit)
pop_front [] = none
pop_front (e ∷ es) = some (es, e)

-- What becomes of the popped event: filled and put at the back, or compared, and put at the back
-- if found and at the front otherwise.
unfoldable pub fill_or_check : List ExpectedEmit → ExpectedEmit → RawLog → List ExpectedEmit
unfolding found_after
fill_or_check rest e log = elim e.log [
  | none ↦ rest ++ (record e { log = some log } ∷ [])
  | some expected ↦
      if found_after e expected log
      then rest ++ (record e { found = true } ∷ [])
      else record e { found = false } ∷ rest
]

-- `handle_expect_emit`
unfoldable pub handle_expect_emit : RawLog → List ExpectedEmit → List ExpectedEmit
unfolding pop_back fill_or_check
handle_expect_emit log emits =
    if all_of (λ e. e.found) emits
    then emits
    else elim (if any_of is_unfilled emits then pop_back emits else pop_front emits) [
      | none ↦ emits
      | some (rest, e) ↦ fill_or_check rest e log
    ]
