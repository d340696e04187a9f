-- ===== src/Cheatcode/Queue.antt =====
-- The queue of the expected logs against a sequence of logs.
use mathlib.Core.Path.{subst}
use ityfuzz.Prelude.{
  ℕ, zero, suc, ◌<◌, get_elem?, length, arith, ◌&&◌, ◌==◌, list_beq, list_beq_iff, none, ◌≡◌, refl,
  Bool, true, false, some, List, [], ◌∷◌, ◌++◌, if◌then◌else◌, all_of, any_of, map, ◌⊎◌, Bool-cases,
  Option-cases, inl, inr, ap, sym, ◌∙◌, ◌↔◌,
}
use ityfuzz.Cheatcode.{RawLog, ExpectedEmit}
use ityfuzz.Cheatcode.Emits.{
  topics_match, found_after, is_unfilled, fill_or_check, handle_expect_emit,
}

-- An expectation that is filled with a log and not found yet.
pub record Pending : Type 0 where
  pub emit : ExpectedEmit
  pub expected : RawLog

abbrev pub waiting : Pending → ExpectedEmit
waiting p = record p.emit { log = some p.expected; found = false }

abbrev pub done : Pending → ExpectedEmit
done p = record p.emit { log = some p.expected; found = true }

-- Whether a log is the one that a pending expectation describes.
abbrev pub meets : Pending → RawLog → Bool
meets p log = found_after (waiting p) p.expected log

unfoldable pub handle_logs : List RawLog → List ExpectedEmit → List ExpectedEmit
handle_logs [] emits = emits
handle_logs (log ∷ logs) emits = handle_logs logs (handle_expect_emit log emits)

-- Where a check is set, the two lists have the same element.
abbrev pub AgreeWhere : List Bool → List ℕ → List ℕ → Type 0
AgreeWhere checks xs ys = (i : ℕ) → get_elem? checks i ≡ some true → get_elem? xs i ≡ get_elem? ys i

-- The log is the expected one: it has topics, as many as expected, the first of them and those
-- whose check is set are the expected ones, the address is the expected one if one was given, and
-- so are the data if their check is set.
pub record Meets (p : Pending) (log : RawLog) : Type 0 where
  pub has_topics : 0 < length log.topics
  pub same_count : length p.expected.topics ≡ length log.topics
  pub same_topics :
      AgreeWhere
        (true ∷ p.emit.check_topic1 ∷ p.emit.check_topic2 ∷ p.emit.check_topic3 ∷ [])
        p.expected.topics
        log.topics
  pub same_address : (a : ℕ) → p.emit.address ≡ some a → a ≡ log.address
  pub same_data : p.emit.check_data ≡ true → p.expected.bytes ≡ log.bytes

AgreeWhere-cons :
    (c : Bool) (checks : List Bool) (x y : ℕ) (xs ys : List ℕ)
    → (c ≡ true → x ≡ y)
    → AgreeWhere checks xs ys
    → AgreeWhere (c ∷ checks) (x ∷ xs) (y ∷ ys)
AgreeWhere-cons c checks x y xs ys h k zero e = ground (arith, h)
AgreeWhere-cons c checks x y xs ys h k (suc i) e = k i e

some-eq : (x y : ℕ) → some x ≡ some y → x ≡ y
some-eq x y h = ground arith

topics_match-AgreeWhere :
    (checks : List Bool) (xs ys : List ℕ)
    → length ys ≡ length xs
    → (topics_match checks xs ys ≡ true) ↔ AgreeWhere checks ys xs
unfolding topics_match
topics_match-AgreeWhere checks [] [] l = ((λ h i k. refl), (λ h. refl))
topics_match-AgreeWhere checks [] (y ∷ ys) l = absurd (omega arith)
topics_match-AgreeWhere checks (x ∷ xs) [] l = absurd (omega arith)
topics_match-AgreeWhere [] (x ∷ xs) (y ∷ ys) l = ((λ h i k. cc), (λ h. refl))
topics_match-AgreeWhere (true ∷ checks) (x ∷ xs) (y ∷ ys) l =
    let (to, from) = topics_match-AgreeWhere checks xs ys (omega arith) in
    (
      (λ h.
          AgreeWhere-cons true checks y x ys xs (λ e. ground (arith, h)) (to (ground (arith, h)))),
      (λ h. ground (arith, some-eq y x (h 0 refl), from (λ i k. h (suc i) k))),
    )
topics_match-AgreeWhere (false ∷ checks) (x ∷ xs) (y ∷ ys) l =
    let (to, from) = topics_match-AgreeWhere checks xs ys (omega arith) in
    (
      (λ h. AgreeWhere-cons false checks y x ys xs (λ e. cc) (to h)),
      (λ h. from (λ i k. h (suc i) k)),
    )

abbrev data_match : Pending → RawLog → Bool
data_match p log = if p.emit.check_data then list_beq p.expected.bytes log.bytes else true

abbrev address_match : Pending → RawLog → Bool
address_match p log = elim p.emit.address [ none ↦ true | some a ↦ a == log.address ]

abbrev checks_of : Pending → List Bool
checks_of p = p.emit.check_topic1 ∷ p.emit.check_topic2 ∷ p.emit.check_topic3 ∷ []

list-cases : (xs : List ℕ) → (xs ≡ []) ⊎ ((x : ℕ) × (ys : List ℕ) × (xs ≡ x ∷ ys))
list-cases [] = inl refl
list-cases (x ∷ xs) = inr (x, xs, refl)

module _ (p : Pending) (log : RawLog) where
  address_match-eq :
      address_match p log ≡ true → (a : ℕ) → p.emit.address ≡ some a → a ≡ log.address
  address_match-eq h a e = ground arith

  eq-address_match :
      ((a : ℕ) → p.emit.address ≡ some a → a ≡ log.address) → address_match p log ≡ true
  eq-address_match h = elim (Option-cases p.emit.address) [
    | inl e ↦ ground (arith, e)
    | inr (a, e) ↦ ground (arith, e, h a e)
  ]

  meets_cons :
      (t u : ℕ) (ts us : List ℕ)
      → log.topics ≡ t ∷ ts
      → p.expected.topics ≡ u ∷ us
      → meets p log ≡ (
          (u == t && length us == length ts)
          && (topics_match (checks_of p) ts us && (address_match p log && data_match p log)))
  unfolding found_after
  meets_cons t u ts us e f = ground (arith, e, f)

  meets_nil : log.topics ≡ [] → meets p log ≡ false
  unfolding found_after
  meets_nil e = ground (arith, e)

  meets_unexpected : p.expected.topics ≡ [] → meets p log ≡ false
  unfolding found_after
  meets_unexpected e = ground (arith, e)

  meets-Meets : (meets p log ≡ true) → Meets p log
  meets-Meets h = elim (list-cases log.topics) [
    | inl e ↦ absurd (ground (arith, meets_nil e))
    | inr (t, ts, e) ↦ elim (list-cases p.expected.topics) [
      | inl f ↦ absurd (ground (arith, meets_unexpected f))
      | inr (u, us, f) ↦
          let holds = sym (meets_cons t u ts us e f) ∙ h in
          let first : u ≡ t = ground (arith, holds) in
          let count : length us ≡ length ts = ground (arith, holds) in
          let (to, from) = topics_match-AgreeWhere (checks_of p) ts us count in
          record {
            has_topics = rw (e) (omega arith);
            same_count = rw (e, f) (omega (arith, count));
            same_topics =
                rw (e, f)
                  (AgreeWhere-cons true (checks_of p) u t us ts (λ _. first)
                    (to (ground (arith, holds))));
            same_address = address_match-eq (ground (arith, holds));
            same_data = λ d. (list_beq_iff p.expected.bytes log.bytes).0 (ground (arith, holds));
          }
    ]
  ]

  Meets-meets : Meets p log → meets p log ≡ true
  Meets-meets h = elim (list-cases log.topics) [
    | inl e ↦ absurd (omega (arith, h.has_topics, ap length e))
    | inr (t, ts, e) ↦ elim (list-cases p.expected.topics) [
      | inl f ↦ absurd (omega (arith, h.has_topics, h.same_count, ap length f))
      | inr (u, us, f) ↦
          let count : length us ≡ length ts =
            omega (arith, h.same_count, ap length e, ap length f) in
          let same = subst (λ xs. AgreeWhere (true ∷ checks_of p) xs log.topics) f h.same_topics in
          let same' = subst (λ ys. AgreeWhere (true ∷ checks_of p) (u ∷ us) ys) e same in
          let (to, from) = topics_match-AgreeWhere (checks_of p) ts us count in
          meets_cons t u ts us e f
          ∙ ground (
            arith,
            some-eq u t (same' 0 refl),
            count,
            from (λ i k. same' (suc i) k),
            eq-address_match h.same_address,
            list_beq_iff p.expected.bytes log.bytes,
            h.same_data,
          )
    ]
  ]

-- The expectations are met by some of the logs, in their order.
pub data Embeds : List Pending → List RawLog → Type 0 where
  met_all : (logs : List RawLog) → Embeds [] logs
  met :
      (p : Pending) (ps : List Pending) (log : RawLog) (logs : List RawLog)
      → Meets p log
      → Embeds ps logs
      → Embeds (p ∷ ps) (log ∷ logs)
  passed :
      (ps : List Pending) (log : RawLog) (logs : List RawLog)
      → Embeds ps logs
      → Embeds ps (log ∷ logs)

abbrev pub all_found : List ExpectedEmit → Bool
all_found emits = all_of (λ e. e.found) emits

-- The pending expectations, then those found.
abbrev pub queue : List Pending → List Pending → List ExpectedEmit
queue ps fs = map waiting ps ++ map done fs

queue_filled : (ps fs : List Pending) → any_of is_unfilled (queue ps fs) ≡ false
queue_filled [] [] = refl
queue_filled [] (f ∷ fs) = queue_filled [] fs
queue_filled (p ∷ ps) fs = queue_filled ps fs

queue_found : (fs : List Pending) → all_of (λ e. e.found) (queue [] fs) ≡ true
queue_found [] = refl
queue_found (f ∷ fs) = queue_found fs

queue_snoc :
    (ps fs : List Pending) (p : Pending) → queue ps fs ++ (done p ∷ []) ≡ queue ps (fs ++ (p ∷ []))
queue_snoc [] [] p = refl
queue_snoc [] (f ∷ fs) p = ap (◌∷◌ (done f)) (queue_snoc [] fs p)
queue_snoc (q ∷ ps) fs p = ap (◌∷◌ (waiting q)) (queue_snoc ps fs p)

handle_expect_emit_done :
    (log : RawLog) (fs : List Pending) → handle_expect_emit log (queue [] fs) ≡ queue [] fs
unfolding handle_expect_emit
handle_expect_emit_done log fs = rw (queue_found fs)

handle_expect_emit-queue :
    (log : RawLog) (p : Pending) (ps fs : List Pending)
    → handle_expect_emit log (queue (p ∷ ps) fs)
      ≡ (if meets p log then queue ps (fs ++ (p ∷ [])) else queue (p ∷ ps) fs)
unfolding handle_expect_emit fill_or_check
handle_expect_emit-queue log p ps fs = rw (queue_filled (p ∷ ps) fs, queue_snoc ps fs p)

drop_first :
    (p : Pending) (ps : List Pending) (logs : List RawLog) → Embeds (p ∷ ps) logs → Embeds ps logs
drop_first _ _ _ (met p ps log logs m e) = passed ps log logs e
drop_first p ps _ (passed _ log logs e) = passed ps log logs (drop_first p ps logs e)

met_first :
    (p : Pending) (ps : List Pending) (log : RawLog) (logs : List RawLog)
    → Embeds (p ∷ ps) (log ∷ logs)
    → Embeds ps logs
met_first _ _ _ _ (met p ps log logs m e) = e
met_first p ps log logs (passed _ _ _ e) = drop_first p ps logs e

missed_first :
    (p : Pending) (ps : List Pending) (log : RawLog) (logs : List RawLog)
    → meets p log ≡ false
    → Embeds (p ∷ ps) (log ∷ logs)
    → Embeds (p ∷ ps) logs
missed_first _ _ _ _ h (met p ps log logs m e) = absurd (ground (arith, Meets-meets p log m))
missed_first _ _ _ _ h (passed _ _ _ e) = e

-- For expectations that are filled and not found yet, after a sequence of logs all are found
-- exactly when they are met by some of the logs, in their order.
pub handle_logs_lem :
    (logs : List RawLog) (ps fs : List Pending)
    → (all_found (handle_logs logs (queue ps fs)) ≡ true) ↔ Embeds ps logs
unfolding handle_logs
handle_logs_lem [] [] fs = ((λ h. met_all []), (λ e. queue_found fs))
handle_logs_lem [] (p ∷ ps) fs = ((λ h. cc), (λ e. elim e [ ]))
handle_logs_lem (log ∷ logs) [] fs = (
  (λ h. met_all (log ∷ logs)),
  (λ e.
      ap (λ es. all_found (handle_logs logs es)) (handle_expect_emit_done log fs)
      ∙ (handle_logs_lem logs [] fs).1 (met_all logs)),
)
handle_logs_lem (log ∷ logs) (p ∷ ps) fs = elim (Bool-cases (meets p log)) [
  | inl m ↦
      let q =
        ap
          (λ b.
            all_found
              (handle_logs logs (if b then queue ps (fs ++ (p ∷ [])) else queue (p ∷ ps) fs)))
          m in
      let step =
        ap (λ es. all_found (handle_logs logs es)) (handle_expect_emit-queue log p ps fs) ∙ q in
      let (to, from) = handle_logs_lem logs ps (fs ++ (p ∷ [])) in
      (
        (λ h. met p ps log logs (meets-Meets p log m) (to (sym step ∙ h))),
        (λ e. step ∙ from (met_first p ps log logs e)),
      )
  | inr m ↦
      let q =
        ap
          (λ b.
            all_found
              (handle_logs logs (if b then queue ps (fs ++ (p ∷ [])) else queue (p ∷ ps) fs)))
          m in
      let step =
        ap (λ es. all_found (handle_logs logs es)) (handle_expect_emit-queue log p ps fs) ∙ q in
      let (to, from) = handle_logs_lem logs (p ∷ ps) fs in
      (
        (λ h. passed (p ∷ ps) log logs (to (sym step ∙ h))),
        (λ e. step ∙ from (missed_first p ps log logs m e)),
      )
]
