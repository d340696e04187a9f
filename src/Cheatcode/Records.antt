-- ===== src/Cheatcode/Records.antt =====
-- Recorded storage accesses: `RecordAccess`, `record` and `accesses` of common.rs, and
-- `record_accesses` and `get_opcode_type` of mod.rs.
use ityfuzz.Prelude.{
  ℕ, ◌%◌, ◌^◌, ◌≡◌, refl, Bool, ◌&&◌, ◌||◌, Option, none, some, List, [], ◌∷◌, ◌++◌, arith, ◌==◌,
  leb, if◌then◌else◌, get, insert, get-insert, nat_eq, get_elem?, ==_iff, ◌>>=◌, ap, Option-cases,
  inl, inr,
}
use ityfuzz.Cheatcode.{Address}

pub data OpcodeType : Type 0 where
  cheat_call real_call storage revert log careless : OpcodeType

abbrev pub cheatcode_address : Address
cheatcode_address = 0x7109709ECfa91a80626fF3989D68f67F5b1DD12D

abbrev pub is_call : ℕ → Bool
is_call op = op == 0xf1 || op == 0xf2 || op == 0xf4 || op == 0xfa

-- `get_opcode_type`, with the stack from its top; a call with fewer than two values panics.
unfoldable pub get_opcode_type : ℕ → List ℕ → Option OpcodeType
get_opcode_type op stack =
    if is_call op
    then (do
      target ← get_elem? stack 1
      some (if target % 2 ^ 160 == cheatcode_address then cheat_call else real_call))
    else some (
        if op == 0x54 || op == 0x55
        then storage
        else if leb 0xa0 op && leb op 0xa4
        then log
        else if op == 0xfd
        then revert
        else careless)

pub record RecordAccess : Type 0 where
  pub reads : List (Address × List ℕ)
  pub writes : List (Address × List ℕ)

-- `record` starts a session; `none` is no session.
unfoldable pub start_record : Option RecordAccess → Option RecordAccess
start_record session = some (record { reads = []; writes = [] })

unfoldable pub slots_of : Address → List (Address × List ℕ) → List ℕ
slots_of target m = elim (get target m) [ none ↦ [] | some slots ↦ slots ]

-- `m.entry(address).or_default().push(key)`
unfoldable pub push_slot : Address → ℕ → List (Address × List ℕ) → List (Address × List ℕ)
push_slot address key m = insert address (slots_of address m ++ (key ∷ [])) m

-- A step of the interpreter at a contract: its opcode and its stack.
pub record Step : Type 0 where
  pub opcode : ℕ
  pub address : Address
  pub stack : List ℕ

unfoldable pub record_accesses : Step → Option RecordAccess → Option RecordAccess
unfolding push_slot
record_accesses step none = none
record_accesses step (some session) = elim (get_elem? step.stack 0) [
  | none ↦ some session
  | some key ↦
      if step.opcode == 0x54
      then some (record session { reads = push_slot step.address key session.reads })
      else if step.opcode == 0x55
      then some (record session {
        reads = push_slot step.address key session.reads;
        writes = push_slot step.address key session.writes;
      })
      else some session
]

-- `accesses`: the slots read and written of a target.
unfoldable pub accesses : Address → Option RecordAccess → List ℕ × List ℕ
accesses target none = ([], [])
accesses target (some session) = (slots_of target session.reads, slots_of target session.writes)

unfoldable pub record_steps : List Step → Option RecordAccess → Option RecordAccess
unfolding record_accesses
record_steps [] session = session
record_steps (step ∷ steps) session = record_steps steps (record_accesses step session)

-- The keys of the steps at a target whose opcodes pass a test.
unfoldable pub keys_of : (ℕ → Bool) → Address → List Step → List ℕ
keys_of p target [] = []
keys_of p target (step ∷ steps) = elim (get_elem? step.stack 0) [
  | none ↦ keys_of p target steps
  | some key ↦
      if p step.opcode && step.address == target
      then key ∷ keys_of p target steps
      else keys_of p target steps
]

abbrev pub reads_slot : ℕ → Bool
reads_slot op = op == 0x54 || op == 0x55

abbrev pub writes_slot : ℕ → Bool
writes_slot op = op == 0x55

slots_of-push_slot :
    (address target : Address) (key : ℕ) (m : List (Address × List ℕ))
    → slots_of target (push_slot address key m)
      ≡ (if address == target then slots_of target m ++ (key ∷ []) else slots_of target m)
unfolding push_slot slots_of
slots_of-push_slot address target key m =
    ground
      (arith, get-insert address target (slots_of address m ++ (key ∷ [])) m, ==_iff address target)

append_nil : (xs : List ℕ) → xs ≡ xs ++ []
append_nil [] = refl
append_nil (x ∷ xs) = ap (◌∷◌ x) (append_nil xs)

append_assoc : (xs ys zs : List ℕ) → (xs ++ ys) ++ zs ≡ xs ++ (ys ++ zs)
append_assoc [] ys zs = refl
append_assoc (x ∷ xs) ys zs = ap (◌∷◌ x) (append_assoc xs ys zs)

record_steps_from :
    (steps : List Step) (target : Address) (session : RecordAccess)
    → accesses target (record_steps steps (some session)) ≡ (
      slots_of target session.reads ++ keys_of reads_slot target steps,
      slots_of target session.writes ++ keys_of writes_slot target steps,
    )
unfolding record_steps record_accesses accesses keys_of
record_steps_from [] target session = (λ i.
    (append_nil (slots_of target session.reads) i, append_nil (slots_of target session.writes) i))
record_steps_from (step ∷ steps) target session = elim (Option-cases (get_elem? step.stack 0)) [
  | inl h ↦ ground (arith, record_steps_from steps target session)
  | inr (key, h) ↦
      let reads = push_slot step.address key session.reads in
      let writes = push_slot step.address key session.writes in
      ground (
        arith,
        record_steps_from steps target session,
        record_steps_from steps target (record session { reads = reads }),
        record_steps_from steps target (record session { reads = reads; writes = writes }),
        slots_of-push_slot step.address target key session.reads,
        slots_of-push_slot step.address target key session.writes,
        append_assoc (slots_of target session.reads) (key ∷ []) (keys_of reads_slot target steps),
        append_assoc (slots_of target session.writes) (key ∷ []) (keys_of writes_slot target steps),
      )
]

-- After `record`, `accesses` gives for a target the keys of its SLOAD and SSTORE steps as the slots
-- read and those of its SSTORE steps as the slots written, in the order of the steps.
pub accesses-record_steps :
    (steps : List Step) (target : Address) (session : Option RecordAccess)
    → accesses target (record_steps steps (start_record session))
      ≡ (keys_of reads_slot target steps, keys_of writes_slot target steps)
unfolding start_record slots_of get
accesses-record_steps steps target session =
    record_steps_from steps target (record { reads = []; writes = [] })
