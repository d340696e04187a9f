-- ===== src/Reentrancy/Tests.antt =====
-- A reentrant run at concrete values.
use ityfuzz.Prelude.{ℕ, ◌≡◌, refl, true, some, List, [], ◌∷◌, arith, pair_eq}
use ityfuzz.Reentrancy.{ReentrancyData, merge_sorted_vec_dedup}
use ityfuzz.Reentrancy.Findings.{Event, stepped, executing, run, reentered, Tracks, run-Tracks}

abbrev at : ℕ → ℕ → Event
at op depth =
    stepped (record { instruction = op; address = 7; stack = 3 ∷ []; post_execution = depth })

-- Loads outside and in a suspended call, and the store after the call has been resumed
abbrev reentrant : List Event
reentrant = at 0x55 0 ∷ executing true 1 ∷ at 0x54 1 ∷ at 0x54 0 ∷ []

run-Tracks_example : (d : ReentrancyData) × (run reentrant ≡ some d) × Tracks reentrant d
run-Tracks_example =
    run-Tracks reentrant (λ h. omega arith, (tt, (λ h. omega arith, (λ h. omega arith, tt))))

reentrant_found : reentered (7, 3) reentrant ≡ true
reentrant_found = refl

-- The test of the source
merged :
    merge_sorted_vec_dedup (2 ∷ 3 ∷ 4 ∷ 6 ∷ 8 ∷ 10 ∷ []) (1 ∷ 4 ∷ 5 ∷ 6 ∷ 7 ∷ [])
    ≡ 1 ∷ 2 ∷ 3 ∷ 4 ∷ 5 ∷ 6 ∷ 7 ∷ 8 ∷ 10 ∷ []
unfolding merge_sorted_vec_dedup
merged = refl
