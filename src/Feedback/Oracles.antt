-- ===== src/Feedback/Oracles.antt =====
-- `OracleFeedback` of src/feedback.rs and `BugMetadata` of src/oracle.rs. An oracle gives the
-- bugs that it sees for the stage of the input; what it asks of the executor, and the producers,
-- which only feed the oracles, are not modelled.
pub mod Bugs
use ityfuzz.Prelude.{
  ℕ, zero, suc, ◌+◌, Bool, true, false, not, ◌||◌, ◌&&◌, Option, none, some, List, [], ◌∷◌, ◌++◌,
  ◌==◌, leb, if◌then◌else◌, contains, length, get_elem?, keep_if, or_default, insert, nat_eq,
}

pub record BugMetadata : Type 0 where
  pub known_bugs : List ℕ
  pub current_bugs : List ℕ
  pub corpus_idx_to_bug : List (ℕ × List ℕ)

abbrev pub no_bugs : BugMetadata
no_bugs = record { known_bugs = []; current_bugs = []; corpus_idx_to_bug = [] }

unfoldable pub register_corpus_idx : ℕ → BugMetadata → BugMetadata
register_corpus_idx corpus_idx m = record m {
  corpus_idx_to_bug = insert corpus_idx m.current_bugs m.corpus_idx_to_bug;
}

abbrev pub Oracle : Type 0
Oracle = ℕ → List ℕ

abbrev pub original_stage : ℕ → List ℕ → ℕ
original_stage idx stage = or_default 0 (get_elem? stage idx)

-- The body of the inner loop, on the metadata and `is_any_bug_hit`
unfoldable pub note_bug : Bool → ℕ → BugMetadata × Bool → BugMetadata × Bool
note_bug has_post_exec bug (metadata, hit) =
    if contains bug metadata.known_bugs || has_post_exec then (metadata, hit) else (
      record metadata {
        known_bugs = metadata.known_bugs ++ (bug ∷ []);
        current_bugs = metadata.current_bugs ++ (bug ∷ []);
      },
      true,
    )

unfoldable pub note_bugs : Bool → List ℕ → BugMetadata × Bool → BugMetadata × Bool
unfolding note_bug
note_bugs has_post_exec [] s = s
note_bugs has_post_exec (bug ∷ bugs) s = note_bugs has_post_exec bugs (note_bug has_post_exec bug s)

-- The loop over the oracles from an index on
unfoldable pub run_oracles :
    Bool → List ℕ → ℕ → List Oracle → BugMetadata × Bool → BugMetadata × Bool
unfolding note_bugs
run_oracles has_post_exec stage idx [] s = s
run_oracles has_post_exec stage idx (oracle ∷ oracles) s =
    run_oracles has_post_exec stage (suc idx) oracles
      (note_bugs has_post_exec (oracle (original_stage idx stage)) s)

-- The metadata, which is there or is made, with `current_bugs` cleared
abbrev pub cleared : Option BugMetadata → BugMetadata
cleared none = no_bugs
cleared (some metadata) = record metadata { current_bugs = [] }

unfoldable pub is_interesting :
    Bool → Bool → List ℕ → List Oracle → Option BugMetadata → Bool × Option BugMetadata
unfolding run_oracles
is_interesting reverted has_post_exec stage oracles metadata =
    if reverted
    then (false, metadata)
    else let (metadata', hit) =
        run_oracles has_post_exec stage 0 oracles (cleared metadata, false) in
      if has_post_exec then (false, some metadata') else (hit, some metadata')

-- The bugs that are left to hit after the oracles from an index on
unfoldable pub left_to_hit : List ℕ → ℕ → List Oracle → List ℕ → List ℕ
left_to_hit stage idx [] bugs = bugs
left_to_hit stage idx (oracle ∷ oracles) bugs =
    left_to_hit stage (suc idx) oracles
      (keep_if (λ b. not (contains b (oracle (original_stage idx stage)))) bugs)

unfoldable pub reproduces : Bool → Bool → List ℕ → List Oracle → List ℕ → Bool
unfolding left_to_hit
reproduces reverted has_post_exec stage oracles bug_idx =
    if reverted
    then false
    else if has_post_exec
    then false
    else elim (left_to_hit stage 0 oracles bug_idx) [ [] ↦ true | bug ∷ bugs ↦ false ]
