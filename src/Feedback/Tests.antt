-- ===== src/Feedback/Tests.antt =====
-- The feedbacks and the steps of the host at concrete values.
use ityfuzz.Prelude.{
  ℕ, ◌≤◌, ◌<◌, ◌≡◌, refl, Bool, true, false, not, ◌||◌, ◌&&◌, none, some, List, [], ◌∷◌, ◌==◌, ltb,
  if◌then◌else◌, arith, get, member, pair_eq, contains, length, update,
}
use ityfuzz.Scheduler.Votes.{VoteData, vote}
use ityfuzz.Host.Maps.{
  map_size, Interp, Host, Middlewares, AccessPattern, step, run_arm, step_sload, note_access,
  decode_instruction,
}
use ityfuzz.Host.Maps.Bounds.{IsBounded, Keeps, MiddlewaresLaws, step-IsBounded}
use ityfuzz.Host.Storage.{value_at, sload, sload_lem}
use ityfuzz.Feedback.Dataflow.{
  DataflowFeedback, bucket, hits, some_below, is_interesting, is_interesting-bucket,
}
use ityfuzz.Feedback.Dataflow.Flows.{LeavesReads, steps, sload-sstore-is_interesting}
use ityfuzz.Feedback.Cmp
use ityfuzz.Feedback.Cmp.{
  CmpFeedback, Execution, Judged, known_state_max_size, infant_state_initial_votes,
}
use ityfuzz.Feedback.Cmp.Closer
use ityfuzz.Feedback.Oracles
use ityfuzz.Feedback.Oracles.{BugMetadata, Oracle, reproduces}
use ityfuzz.Feedback.Oracles.Bugs
use ityfuzz.Feedback.Oracles.Bugs.{reproduces-is_interesting}

abbrev no_access : AccessPattern
no_access = record {
  balance = [];
  caller = false;
  gas_price = false;
  number = false;
  coinbase = false;
  timestamp = false;
  prevrandao = false;
  gas_limit = false;
  chain_id = false;
  basefee = false;
}

abbrev start : Host
start = record {
  is_fast_call_static = false;
  access_pattern = no_access;
  evmstate = [];
  next_slot = 0;
  jmp_map = λ i. 0;
  read_map = λ i. false;
  write_map = λ i. 0;
  cmp_map = λ i. 100;
  state_change = false;
  coverage_changed = false;
  jumpi_trace = 37;
  last_pc = 0;
  mapping_sstore_pcs = [];
  mapping_sstore_pcs_to_slot = [];
  branch_status = λ i. none;
  branch_status_idx = 0;
  ret_offset = 0;
  ret_size = 0;
}

start-IsBounded : IsBounded start
unfolding member get
start-IsBounded = record {
  jumps = λ i. omega arith;
  written = λ i. omega arith;
  branches = omega arith;
  no_branch = λ i le. refl;
  mappings = λ p. refl;
}

abbrev loads : Interp
loads = record { instruction = 0x54; address = 9; program_counter = 12; stack = 5 ∷ [] }

abbrev stores : Interp
stores = record { instruction = 0x55; address = 9; program_counter = 20; stack = 5 ∷ 700 ∷ [] }

abbrev idle : Middlewares
idle interp host = some (interp, host)

within_itself : (host : Host) → Keeps host host
within_itself host = record {
  jumps_within = λ i le. refl;
  reads_within = λ i le. refl;
  writes_within = λ i le. refl;
  compares_within = λ i le. refl;
  next = refl;
  values = λ a i. refl;
}

idle-Laws : MiddlewaresLaws idle
idle-Laws = record { called = λ interp host b. (host, refl, (b, within_itself host)) }

idle-LeavesReads : LeavesReads idle
idle-LeavesReads = record { called = λ interp host. (host, refl, refl, refl, refl) }

step-IsBounded_example :
    (host' : Host) × (step idle stores start ≡ some (stores, host'))
    × IsBounded host'
    × Keeps start host'
step-IsBounded_example = step-IsBounded idle idle-Laws stores start (omega arith) start-IsBounded

sload_lem_example :
    ((sload 7 9 5 start.evmstate).0 ≡ value_at 7 start.evmstate 9 5)
    × ((b j : ℕ) → value_at 7 (sload 7 9 5 start.evmstate).1 b j ≡ value_at 7 start.evmstate b j)
sload_lem_example = sload_lem 7 9 5 start.evmstate

abbrev no_bucket : ℕ → ℕ → Bool
no_bucket i c = false

abbrev adds : Interp
adds = record { instruction = 0x01; address = 9; program_counter = 13; stack = 1 ∷ 2 ∷ [] }

abbrev loaded : Host
loaded = record start { read_map = update 5 true start.read_map }

sload-sstore-is_interesting_example :
    (written : Host) × (step idle stores loaded ≡ some (stores, written))
    × ((is_interesting (record {
      global_write_map = no_bucket;
      read_map = written.read_map;
      write_map = written.write_map;
    })).0
        ≡ true)
unfolding member steps step run_arm step_sload note_access decode_instruction
sload-sstore-is_interesting_example =
    sload-sstore-is_interesting idle idle-LeavesReads loads stores (adds ∷ []) start loaded
      no_bucket 5 700 [] [] refl refl refl refl refl refl refl (λ c. refl)

abbrev flow : DataflowFeedback
flow = record { global_write_map = no_bucket; read_map = λ i. i == 5; write_map = λ i. 44 }

is_interesting-bucket_example :
    ((is_interesting flow).0
      ≡ some_below map_size
          (λ i. hits flow i && not (flow.global_write_map i (bucket (flow.write_map i)))))
    × ((i c : ℕ)
        → (is_interesting flow).1.global_write_map i c ≡ (
            flow.global_write_map i c
            || (ltb i map_size && (hits flow i && bucket (flow.write_map i) == c))))
    × ((i : ℕ) → i < map_size → (is_interesting flow).1.write_map i ≡ 0)
is_interesting-bucket_example = is_interesting-bucket flow

abbrev no_votes : VoteData
no_votes = record {
  votes_and_visits = [];
  sorted_votes = [];
  visits_total = 1;
  votes_total = 1;
  deps = [];
  to_remove = [];
}

abbrev closer : Execution
closer = record {
  current_map = λ i. 4;
  state_idx = 2;
  state_changed = true;
  has_post_execution = false;
  hash = 99;
}

abbrev far : CmpFeedback
far = record { min_map = λ i. 50; known_states = 98 ∷ [] }

abbrev as_listed : List ℕ → List ℕ
as_listed xs = xs

is_interesting-min_map_example :
    (j : Judged) × (Cmp.is_interesting as_listed closer far no_votes ≡ some j)
    × (j.votes ≡ record no_votes { votes_total = 4 })
    × (j.cmp_interesting ≡ some_below map_size (λ i. ltb (closer.current_map i) (far.min_map i)))
    × (j.interesting ≡ (
        (closer.state_changed || closer.has_post_execution)
        && not (contains closer.hash far.known_states)))
    × ((i : ℕ)
        → j.feedback.min_map i ≡ (
            if ltb i map_size && ltb (closer.current_map i) (far.min_map i)
            then closer.current_map i
            else far.min_map i))
    × (length j.feedback.known_states ≤ known_state_max_size)
unfolding some_below vote get
is_interesting-min_map_example =
    Closer.is_interesting-min_map as_listed (λ xs. refl) closer far no_votes
      (record no_votes { votes_total = 4 }) (omega arith) refl

abbrev sees : List Oracle
sees = (λ stage. 3 ∷ 3 ∷ []) ∷ (λ stage. stage ∷ []) ∷ []

is_interesting-known_bugs_example :
    (m : BugMetadata) × (hit : Bool) × (Oracles.is_interesting false false (0 ∷ 8 ∷ []) sees none
      ≡ (hit, some m))
    × (hit ≡ not (Bugs.is_empty m.current_bugs))
    × ((b : ℕ)
        → contains b m.current_bugs
          ≡ (contains b (Bugs.seen (0 ∷ 8 ∷ []) 0 sees) && not (contains b (Bugs.known_of none))))
    × ((b : ℕ)
        → contains b m.known_bugs
          ≡ (contains b (Bugs.known_of none) || contains b (Bugs.seen (0 ∷ 8 ∷ []) 0 sees)))
    × Bugs.Distinct m.current_bugs
is_interesting-known_bugs_example = Bugs.is_interesting-known_bugs (0 ∷ 8 ∷ []) sees none
