-- ===== src/Feedback/Oracles/Bugs.antt =====
-- The bugs that are noted, against those that the oracles see.
use ityfuzz.Prelude.{
  ℕ, suc, ◌≡◌, refl, Bool, true, false, not, ◌||◌, ◌&&◌, Option, none, some, List, [], ◌∷◌, ◌++◌,
  ◌↔◌, ==_iff, arith, contains, contains-append, keep_if, Bool-cases, inl, inr,
}
use mathlib.Core.List.{append-nil, append_assoc}
use ityfuzz.Feedback.Oracles.{
  BugMetadata, Oracle, original_stage, note_bug, note_bugs, run_oracles, cleared, is_interesting,
  left_to_hit, reproduces,
}

abbrev pub known_of : Option BugMetadata → List ℕ
known_of metadata = (cleared metadata).known_bugs

-- All that the oracles see, from an index on
abbrev pub seen : List ℕ → ℕ → List Oracle → List ℕ
seen stage idx [] = []
seen stage idx (oracle ∷ oracles) =
    oracle (original_stage idx stage) ++ seen stage (suc idx) oracles

-- No bug twice
abbrev pub Distinct : List ℕ → Type 0
Distinct [] = Unit
Distinct (x ∷ xs) = (contains x xs ≡ false) × Distinct xs

abbrev pub is_empty : List ℕ → Bool
is_empty [] = true
is_empty (x ∷ xs) = false

Distinct-snoc :
    (xs : List ℕ) (x : ℕ) → Distinct xs → contains x xs ≡ false → Distinct (xs ++ (x ∷ []))
Distinct-snoc [] x d h = (refl, tt)
Distinct-snoc (y ∷ ys) x d h =
    (ground (arith, d.0, contains-append y ys (x ∷ [])), Distinct-snoc ys x d.1 (ground arith))

-- The current bugs are distinct, known, and no part of those that were known before; the hit says
-- whether there is one.
record IsNoted (before bugs : List ℕ) (s : BugMetadata × Bool) : Type 0 where
  known : (b : ℕ) → contains b s.0.known_bugs ≡ (contains b before || contains b bugs)
  current : (b : ℕ) → contains b s.0.current_bugs ≡ (contains b bugs && not (contains b before))
  distinct : Distinct s.0.current_bugs
  hit : s.1 ≡ not (is_empty s.0.current_bugs)

known_of-cleared : (m : Option BugMetadata) → known_of (some (cleared m)) ≡ known_of m
known_of-cleared none = refl
known_of-cleared (some m) = refl

cleared-IsNoted : (m : Option BugMetadata) → IsNoted (known_of m) [] (cleared m, false)
cleared-IsNoted none = record { known = λ b. refl; current = λ b. refl; distinct = tt; hit = refl }
cleared-IsNoted (some m) = record {
  known = λ b. ground arith;
  current = λ b. refl;
  distinct = tt;
  hit = refl;
}

is_empty-snoc : (xs : List ℕ) (x : ℕ) → is_empty (xs ++ (x ∷ [])) ≡ false
is_empty-snoc [] x = refl
is_empty-snoc (y ∷ ys) x = refl

note_bug-IsNoted :
    (before bugs : List ℕ) (bug : ℕ) (s : BugMetadata × Bool)
    → IsNoted before bugs s
    → IsNoted before (bugs ++ (bug ∷ [])) (note_bug false bug s)
unfolding note_bug
note_bug-IsNoted before bugs bug (m, hit) n = elim (Bool-cases (contains bug m.known_bugs)) [
  | inl old ↦ rw old (record {
    known = λ b. ground (arith, n.known b, n.known bug, contains-append b bugs (bug ∷ []));
    current = λ b. ground (arith, n.current b, n.known bug, contains-append b bugs (bug ∷ []));
    distinct = n.distinct;
    hit = n.hit;
  })
  | inr new ↦ rw new (record {
    known = λ b. ground (
      arith,
      n.known b,
      contains-append b bugs (bug ∷ []),
      contains-append b m.known_bugs (bug ∷ []),
    );
    current = λ b. ground (
      arith,
      n.current b,
      n.known bug,
      contains-append b bugs (bug ∷ []),
      contains-append b m.current_bugs (bug ∷ []),
    );
    distinct =
        Distinct-snoc m.current_bugs bug n.distinct (ground (arith, n.current bug, n.known bug));
    hit = ground (arith, is_empty-snoc m.current_bugs bug);
  })
]

note_bugs-IsNoted :
    (before bugs more : List ℕ) (s : BugMetadata × Bool)
    → IsNoted before bugs s
    → IsNoted before (bugs ++ more) (note_bugs false more s)
unfolding note_bugs
note_bugs-IsNoted before bugs [] s n = rw (append-nil bugs) n
note_bugs-IsNoted before bugs (bug ∷ more) s n = rw (← append_assoc bugs (bug ∷ []) more) (
    note_bugs-IsNoted before (bugs ++ (bug ∷ [])) more (note_bug false bug s)
      (note_bug-IsNoted before bugs bug s n))

run_oracles-IsNoted :
    (before bugs stage : List ℕ) (idx : ℕ) (oracles : List Oracle) (s : BugMetadata × Bool)
    → IsNoted before bugs s
    → IsNoted before (bugs ++ seen stage idx oracles) (run_oracles false stage idx oracles s)
unfolding run_oracles
run_oracles-IsNoted before bugs stage idx [] s n = rw (append-nil bugs) n
run_oracles-IsNoted before bugs stage idx (oracle ∷ oracles) s n =
    let reported = oracle (original_stage idx stage) in
    rw (← append_assoc bugs reported (seen stage (suc idx) oracles)) (
      run_oracles-IsNoted before (bugs ++ reported) stage (suc idx) oracles
        (note_bugs false reported s) (note_bugs-IsNoted before bugs reported s n))

note_bugs_finished : (more : List ℕ) (s : BugMetadata × Bool) → note_bugs true more s ≡ s
unfolding note_bugs
note_bugs_finished [] s = refl
note_bugs_finished (bug ∷ more) (m, hit) = ground (arith, note_bugs_finished more (m, hit))

run_oracles_finished :
    (stage : List ℕ) (idx : ℕ) (oracles : List Oracle) (s : BugMetadata × Bool)
    → run_oracles true stage idx oracles s ≡ s
unfolding run_oracles
run_oracles_finished stage idx [] s = refl
run_oracles_finished stage idx (oracle ∷ oracles) s =
    rw (note_bugs_finished (oracle (original_stage idx stage)) s)
      (run_oracles_finished stage (suc idx) oracles s)

-- An execution that neither reverted nor is unfinished is interesting exactly when there is a
-- current bug; the current bugs are those that an oracle sees and that were not known, each once,
-- and all that an oracle sees is known afterwards.
pub is_interesting-known_bugs :
    (stage : List ℕ) (oracles : List Oracle) (metadata : Option BugMetadata)
    → (m : BugMetadata) × (hit : Bool) × (is_interesting false false stage oracles metadata
        ≡ (hit, some m))
      × (hit ≡ not (is_empty m.current_bugs))
      × ((b : ℕ)
          → contains b m.current_bugs
            ≡ (contains b (seen stage 0 oracles) && not (contains b (known_of metadata))))
      × ((b : ℕ)
          → contains b m.known_bugs
            ≡ (contains b (known_of metadata) || contains b (seen stage 0 oracles)))
      × Distinct m.current_bugs
unfolding is_interesting
is_interesting-known_bugs stage oracles metadata =
    let n =
      run_oracles-IsNoted (known_of metadata) [] stage 0 oracles (cleared metadata, false)
        (cleared-IsNoted metadata) in
    let r = run_oracles false stage 0 oracles (cleared metadata, false) in
    (r.0, r.1, refl, n.hit, n.current, n.known, n.distinct)

-- Where the execution reverted or is unfinished, no bug is noted.
pub is_interesting_unfinished :
    (reverted : Bool) (stage : List ℕ) (oracles : List Oracle) (metadata : Option BugMetadata)
    → (m : Option BugMetadata) × (is_interesting reverted true stage oracles metadata ≡ (false, m))
      × (known_of m ≡ known_of metadata)
unfolding is_interesting
is_interesting_unfinished true stage oracles metadata = (metadata, refl, refl)
is_interesting_unfinished false stage oracles metadata = (
  some (cleared metadata),
  rw (run_oracles_finished stage 0 oracles (cleared metadata, false)),
  known_of-cleared metadata,
)

contains-unseen :
    (b : ℕ) (reported bugs : List ℕ)
    → contains b (keep_if (λ c. not (contains c reported)) bugs)
      ≡ (contains b bugs && not (contains b reported))
contains-unseen b reported [] = refl
contains-unseen b reported (x ∷ xs) = ground (arith, contains-unseen b reported xs, ==_iff b x)

left_to_hit_lem :
    (stage : List ℕ) (idx : ℕ) (oracles : List Oracle) (bugs : List ℕ) (b : ℕ)
    → contains b (left_to_hit stage idx oracles bugs)
      ≡ (contains b bugs && not (contains b (seen stage idx oracles)))
unfolding left_to_hit
left_to_hit_lem stage idx [] bugs b = ground arith
left_to_hit_lem stage idx (oracle ∷ oracles) bugs b =
    let reported = oracle (original_stage idx stage) in
    ground (
      arith,
      contains-append b reported (seen stage (suc idx) oracles),
      contains-unseen b reported bugs,
      left_to_hit_lem stage (suc idx) oracles (keep_if (λ c. not (contains c reported)) bugs) b,
    )

empty_of_none : (xs : List ℕ) → ((b : ℕ) → contains b xs ≡ false) → xs ≡ []
empty_of_none [] h = refl
empty_of_none (x ∷ xs) h = ground (arith, h x)

-- Bugs are reproduced exactly when the execution neither reverted nor is unfinished and each of
-- them is seen by an oracle.
pub reproduces_iff :
    (reverted has_post_exec : Bool) (stage : List ℕ) (oracles : List Oracle) (bugs : List ℕ)
    → (reproduces reverted has_post_exec stage oracles bugs ≡ true) ↔ (
        (reverted ≡ false)
        × (has_post_exec ≡ false)
        × ((b : ℕ) → contains b bugs ≡ true → contains b (seen stage 0 oracles) ≡ true))
unfolding reproduces
reproduces_iff true p stage oracles bugs = (λ h. cc, λ h. cc (h.0))
reproduces_iff false true stage oracles bugs = (λ h. cc, λ h. cc (h.1))
reproduces_iff false false stage oracles bugs = (
  λ h. (refl, refl, λ b there. ground (arith, h, there, left_to_hit_lem stage 0 oracles bugs b)),
  λ (_, _, all).
      rw
        (empty_of_none (left_to_hit stage 0 oracles bugs)
          (λ b. ground (arith, left_to_hit_lem stage 0 oracles bugs b, all b)))
        refl,
)

-- The bugs that a run newly finds are reproduced by the same run.
pub reproduces-is_interesting :
    (stage : List ℕ) (oracles : List Oracle) (metadata : Option BugMetadata) (m : BugMetadata)
    (hit : Bool)
    → is_interesting false false stage oracles metadata ≡ (hit, some m)
    → reproduces false false stage oracles m.current_bugs ≡ true
reproduces-is_interesting stage oracles metadata m hit h =
    let (m', hit', e, _, current, _, _) = is_interesting-known_bugs stage oracles metadata in
    (reproduces_iff false false stage oracles m.current_bugs).1
      (refl, refl, λ b found. ground (arith, e, h, current b, found))
