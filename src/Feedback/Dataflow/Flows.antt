-- ===== src/Feedback/Dataflow/Flows.antt =====
-- A load and a store of one slot, from the steps of the host to the dataflow feedback.
use ityfuzz.Prelude.{
  Option, [], ◌>>=◌, >>=-eq-some, Bool-cases, inl, inr, ℕ, zero, suc, ◌<◌, ◌≡◌, ◌∙◌, Bool, true,
  false, not, ◌&&◌, some, List, ◌∷◌, ◌==◌, arith, update, member, pair_eq,
}
use ityfuzz.Host.Maps.{
  map_size, Interp, Host, process_rw_key, record_store, step_sload, step_sstore, step, Middlewares,
  Arm, run_arm, arm_of, jumpi, store, load, less, greater, equal, call_with_value,
  call_without_value, noted, other, step_jumpi, record_jump, add_branch, step_compare, lower_cmp,
  step_call, note_access, decode_instruction,
}
use ityfuzz.Feedback.Dataflow.{
  DataflowFeedback, bucket, hits, some_below, is_interesting, is_interesting-bucket,
}

some_below-true : (n i : ℕ) (p : ℕ → Bool) → i < n → p i ≡ true → some_below n p ≡ true
unfolding some_below
some_below-true zero i p lt h = absurd (omega arith)
some_below-true (suc n) i p lt h = ground (arith, some_below-true n i p)

process_rw_key-lt : (key : ℕ) → process_rw_key key < map_size
process_rw_key-lt key = ground arith

-- The registered middlewares leave the interpreter alone, and of the host the reads, the program
-- counters of mappings and the flag.
pub record LeavesReads (on_step : Middlewares) : Type 0 where
  pub called :
      (interp : Interp) (host : Host)
      → (host' : Host) × (on_step interp host ≡ some (interp, host'))
        × (host'.read_map ≡ host.read_map)
        × (host'.mapping_sstore_pcs ≡ host.mapping_sstore_pcs)
        × (host'.is_fast_call_static ≡ host.is_fast_call_static)

-- The steps of the interpreters, one after the other
unfoldable pub steps : Middlewares → List Interp → Host → Option Host
steps on_step [] host = some host
steps on_step (interp ∷ interps) host = do
  after ← step on_step interp host
  steps on_step interps after.1

abbrev StillRead : ℕ → Host → Host → Type 0
StillRead i host host' =
    (host.read_map i ≡ true → host'.read_map i ≡ true)
    × (host'.is_fast_call_static ≡ host.is_fast_call_static)

run_arm-StillRead :
    (a : Arm) (interp : Interp) (host host' : Host) (i : ℕ)
    → run_arm a interp host ≡ some host'
    → StillRead i host host'
unfolding run_arm step_jumpi record_jump add_branch step_sstore record_store step_sload step_compare
    lower_cmp step_call
run_arm-StillRead jumpi interp host host' i h = (ground (arith, h), ground (arith, h))
run_arm-StillRead store interp host host' i h = (ground (arith, h), ground (arith, h))
run_arm-StillRead load interp host host' i h = (ground (arith, h), ground (arith, h))
run_arm-StillRead less interp host host' i h = (ground (arith, h), ground (arith, h))
run_arm-StillRead greater interp host host' i h = (ground (arith, h), ground (arith, h))
run_arm-StillRead equal interp host host' i h = (ground (arith, h), ground (arith, h))
run_arm-StillRead call_with_value interp host host' i h = (ground (arith, h), ground (arith, h))
run_arm-StillRead call_without_value interp host host' i h = (ground (arith, h), ground (arith, h))
run_arm-StillRead noted interp host host' i h = (ground (arith, h), ground (arith, h))
run_arm-StillRead other interp host host' i h = (ground (arith, h), ground (arith, h))

note_access-StillRead :
    (interp : Interp) (host host' : Host) (i : ℕ)
    → note_access interp host ≡ some host'
    → StillRead i host host'
unfolding note_access
note_access-StillRead interp host host' i h =
    let (a, e, h1) = >>=-eq-some (decode_instruction interp host.access_pattern) _ h in
    (ground (arith, h1), ground (arith, h1))

module _ (on_step : Middlewares) (laws : LeavesReads on_step) where
  step-StillRead :
      (interp interp' : Interp) (host host' : Host) (i : ℕ)
      → step on_step interp host ≡ some (interp', host')
      → StillRead i host host'
  unfolding step
  step-StillRead interp interp' host host' i h =
      let (called, e, reads, _, flag) = laws.called interp host in
      elim (Bool-cases called.is_fast_call_static) [
        | inl fast ↦
            let same : called ≡ host' = ground (arith, h, e, fast) in
            ((λ r. ground (arith, same, reads, r)), ground (arith, same, flag))
        | inr slow ↦
            let answers : Host → Option (Interp × Host) = λ last. some (interp, last) in
            let runs : (run_arm (arm_of interp.instruction) interp called >>= λ recorded.
            note_access interp recorded >>= answers)
                ≡ some (interp', host') =
              ground (arith, h, e, slow) in
            let (recorded, f, runs') =
              >>=-eq-some (run_arm (arm_of interp.instruction) interp called) _ runs in
            let (last, g, done) = >>=-eq-some (note_access interp recorded) _ runs' in
            let first = run_arm-StillRead (arm_of interp.instruction) interp called recorded i f in
            let second = note_access-StillRead interp recorded last i g in
            let same : last ≡ host' = ground (arith, done) in
            (
              (λ r. ground (arith, same, second.0 (first.0 (ground (arith, reads, r))))),
              ground (arith, same, flag, first.1, second.1),
            )
      ]

  steps-StillRead :
      (interps : List Interp) (host host' : Host) (i : ℕ)
      → steps on_step interps host ≡ some host'
      → StillRead i host host'
  unfolding steps
  steps-StillRead [] host host' i h = (ground (arith, h), ground (arith, h))
  steps-StillRead (interp ∷ interps) host host' i h =
      let ((interp', next), e, rest) = >>=-eq-some (step on_step interp host) _ h in
      let first = step-StillRead interp interp' host next i e in
      let later = steps-StillRead interps next host' i rest in
      ((λ r. later.0 (first.0 r)), later.1 ∙ first.1)

  step-load :
      (interp : Interp) (host : Host) (key : ℕ) (rest : List ℕ)
      → interp.instruction ≡ 0x54
      → interp.stack ≡ key ∷ rest
      → host.is_fast_call_static ≡ false
      → (host' : Host) × (step on_step interp host ≡ some (interp, host'))
        × (host'.read_map (process_rw_key key) ≡ true)
        × (host'.is_fast_call_static ≡ false)
  unfolding step run_arm step_sload note_access decode_instruction
  step-load interp host key rest op st slow =
      let (called, e, reads, _, flag) = laws.called interp host in
      (
        record called { read_map = update (process_rw_key key) true called.read_map },
        ground (arith, e, flag, op, st, slow),
        ground arith,
        flag ∙ slow,
      )

  step-store :
      (interp : Interp) (host : Host) (key value : ℕ) (rest : List ℕ)
      → interp.instruction ≡ 0x55
      → interp.stack ≡ key ∷ value ∷ rest
      → host.is_fast_call_static ≡ false
      → member (interp.address, interp.program_counter) host.mapping_sstore_pcs ≡ false
      → host.read_map (process_rw_key key) ≡ true
      → (host' : Host) × (step on_step interp host ≡ some (interp, host'))
        × (host'.read_map (process_rw_key key) ≡ true)
        × ((host'.write_map (process_rw_key key) == 0) ≡ false)
  unfolding step run_arm step_sstore record_store note_access decode_instruction
  step-store interp host key value rest op st slow new read =
      let (called, e, reads, pcs, flag) = laws.called interp host in
      (
        record_store interp key value called,
        ground (arith, e, flag, op, st, slow, pcs, new),
        ground (arith, reads, read),
        ground arith,
      )

  pub sload-sstore-is_interesting :
      (loads stores : Interp) (between : List Interp) (host later : Host) (global : ℕ → ℕ → Bool)
      (key value : ℕ) (below rest : List ℕ)
      → loads.instruction ≡ 0x54
      → loads.stack ≡ key ∷ below
      → host.is_fast_call_static ≡ false
      → steps on_step (loads ∷ between) host ≡ some later
      → stores.instruction ≡ 0x55
      → stores.stack ≡ key ∷ value ∷ rest
      → member (stores.address, stores.program_counter) later.mapping_sstore_pcs ≡ false
      → ((c : ℕ) → global (process_rw_key key) c ≡ false)
      → (written : Host) × (step on_step stores later ≡ some (stores, written))
        × ((is_interesting (record {
          global_write_map = global;
          read_map = written.read_map;
          write_map = written.write_map;
        })).0
            ≡ true)
  unfolding steps
  sload-sstore-is_interesting loads stores between host later global key value below rest op st slow
        runs op' st' new clear =
      let idx = process_rw_key key in
      let (read, e, bit, slow') = step-load loads host key below op st slow in
      let tail : steps on_step between read ≡ some later = ground (arith, runs, e) in
      let (still, flag) = steps-StillRead between read later idx tail in
      let (written, e', bit', stored) =
        step-store stores later key value rest op' st' (flag ∙ slow') new (still bit) in
      let f : DataflowFeedback = record {
        global_write_map = global;
        read_map = written.read_map;
        write_map = written.write_map;
      } in
      let (found, _, _) = is_interesting-bucket f in
      let fresh : ℕ → Bool = λ i. hits f i && not (global i (bucket (f.write_map i))) in
      (
        written,
        e',
        found
            ∙ some_below-true map_size idx fresh (process_rw_key-lt key)
                (ground (arith, bit', stored, clear (bucket (f.write_map idx)))),
      )
