-- ===== src/Host/Maps/Bounds.antt =====
-- The bounds of the maps that `step` of src/evm/host.rs fills, and what it leaves alone.
use ityfuzz.Prelude.{
  ℕ, ◌+◌, ◌-◌, ◌*◌, ◌%◌, ◌≤◌, ◌<◌, ◌≡◌, refl, ◌∙◌, Bool, true, false, not, Option, none, some, [],
  ◌==◌, leb, ◌||◌, ◌&&◌, ltb, if◌then◌else◌, arith, get, get-insert, nat_eq, pair_eq, pair_beq_iff,
  get_elem?-total, length, Bool-cases, Option-cases, ◌++◌, ◌∷◌, ◌^◌, inl, inr, member, add_member,
  member-add_member, or_default, update, word,
}
use ityfuzz.Host.Storage.{value_at, sload_lem}
use ityfuzz.Host.Maps.{
  map_size, Interp, Host, process_rw_key, add_branch, step_jumpi, record_jump, record_store,
  step_sstore, step_sload, less_distance, greater_distance, equal_distance, lower_cmp, step_compare,
  step_call, Arm, jumpi, store, load, less, greater, equal, call_with_value, call_without_value,
  noted, other, arm_of, run_arm, step, note_access, decode_instruction, AccessPattern, Middlewares,
}

-- The entries of the maps fit in their types, the branches stand below their count, and a program
-- counter counts as one of a mapping exactly when more than ten of its slots were stored to.
pub record IsBounded (host : Host) : Type 0 where
  pub jumps : (i : ℕ) → host.jmp_map i < 256
  pub written : (i : ℕ) → host.write_map i < 256
  pub branches : host.branch_status_idx ≤ map_size
  pub no_branch : (i : ℕ) → host.branch_status_idx ≤ i → host.branch_status i ≡ none
  pub mappings :
      (p : ℕ × ℕ)
      → member p host.mapping_sstore_pcs
        ≡ ltb 10 (length (or_default [] (get p host.mapping_sstore_pcs_to_slot)))

-- Nothing is written past the end of the maps, and the values that the contracts see are the same.
pub record Keeps (host host' : Host) : Type 0 where
  pub jumps_within : (i : ℕ) → map_size ≤ i → host'.jmp_map i ≡ host.jmp_map i
  pub reads_within : (i : ℕ) → map_size ≤ i → host'.read_map i ≡ host.read_map i
  pub writes_within : (i : ℕ) → map_size ≤ i → host'.write_map i ≡ host.write_map i
  pub compares_within : (i : ℕ) → map_size ≤ i → host'.cmp_map i ≡ host.cmp_map i
  pub next : host'.next_slot ≡ host.next_slot
  pub values :
      (a i : ℕ)
      → value_at host.next_slot host'.evmstate a i ≡ value_at host.next_slot host.evmstate a i

abbrev After : Host → Host → Type 0
After host host' = IsBounded host' × Keeps host host'

abbrev Fine : Host → Option Host → Type 0
Fine host r = (host' : Host) × (r ≡ some host') × After host host'

process_rw_key-lt : (key : ℕ) → process_rw_key key < map_size
process_rw_key-lt key = ground arith

add_branch-After :
    (branch : (ℕ × ℕ) × Bool) (host : Host) → IsBounded host → After host (add_branch branch host)
unfolding add_branch
add_branch-After branch host b = (
  record {
    jumps = λ i. ground (arith, b.jumps i);
    written = λ i. ground (arith, b.written i);
    branches = ground (arith, b.branches);
    no_branch = λ i le. ground (arith, b.no_branch i);
    mappings = λ p. ground (arith, b.mappings p);
  },
  record {
    jumps_within = λ i le. ground arith;
    reads_within = λ i le. ground arith;
    writes_within = λ i le. ground arith;
    compares_within = λ i le. ground arith;
    next = ground arith;
    values = λ a i. ground arith;
  },
)

record_jump-After :
    (interp : Interp) (br dest : ℕ) (host : Host)
    → IsBounded host
    → After host (record_jump interp br dest host)
unfolding record_jump
record_jump-After interp br dest host b = (
  record {
    jumps =
        λ i. ground (arith, b.jumps i, b.jumps (interp.program_counter * dest % word % map_size));
    written = b.written;
    branches = b.branches;
    no_branch = b.no_branch;
    mappings = b.mappings;
  },
  record {
    jumps_within = λ i le. ground arith;
    reads_within = λ i le. refl;
    writes_within = λ i le. refl;
    compares_within = λ i le. ground arith;
    next = refl;
    values = λ a i. refl;
  },
)

After-trans : (h1 h2 h3 : Host) → After h1 h2 → After h2 h3 → After h1 h3
After-trans h1 h2 h3 (_, k) (b, l) = (
  b,
  record {
    jumps_within = λ i le. l.jumps_within i le ∙ k.jumps_within i le;
    reads_within = λ i le. l.reads_within i le ∙ k.reads_within i le;
    writes_within = λ i le. l.writes_within i le ∙ k.writes_within i le;
    compares_within = λ i le. l.compares_within i le ∙ k.compares_within i le;
    next = l.next ∙ k.next;
    values = λ a i. ground (arith, k.next, k.values a i, l.values a i);
  },
)

step_jumpi-Fine :
    (interp : Interp) (host : Host)
    → 2 ≤ length interp.stack
    → IsBounded host
    → Fine host (step_jumpi interp host)
unfolding step_jumpi
step_jumpi-Fine interp host h b =
    let (br, e) = get_elem?-total interp.stack 1 (omega arith) in
    let (dest, f) = get_elem?-total interp.stack 0 (omega arith) in
    let jump_dest : ℕ = if br == 0 then 1 else dest % word in
    let branch : (ℕ × ℕ) × Bool =
      ((interp.address, interp.program_counter), not (jump_dest == 1)) in
    let first = record_jump-After interp br jump_dest host b in
    (
      add_branch branch (record_jump interp br jump_dest host),
      ground (arith, e, f),
      After-trans host _ _ first
          (add_branch-After branch (record_jump interp br jump_dest host) first.0),
    )

record_store-After :
    (interp : Interp) (key value : ℕ) (host : Host)
    → member (interp.address, interp.program_counter) host.mapping_sstore_pcs ≡ false
    → IsBounded host
    → After host (record_store interp key value host)
unfolding record_store
record_store-After interp key value host fresh b =
    let place : ℕ × ℕ = (interp.address, interp.program_counter) in
    let old = or_default [] (get place host.mapping_sstore_pcs_to_slot) in
    let (_, same) = sload_lem host.next_slot interp.address key host.evmstate in
    (
      record {
        jumps = λ i. ground (arith, b.jumps i);
        written = λ i. ground (arith, b.written i);
        branches = b.branches;
        no_branch = b.no_branch;
        mappings = λ p. ground (
          arith,
          b.mappings p,
          b.mappings place,
          member-add_member p place host.mapping_sstore_pcs,
          get-insert place p (add_member key old) host.mapping_sstore_pcs_to_slot,
          pair_beq_iff place p,
        );
      },
      record {
        jumps_within = λ i le. ground arith;
        reads_within = λ i le. refl;
        writes_within = λ i le. ground (arith, process_rw_key-lt key);
        compares_within = λ i le. refl;
        next = refl;
        values = λ a i. same a i;
      },
    )

-- Fields that the bounds and the storage do not touch
other_fields :
    (host : Host) (reads : ℕ → Bool) (compared : ℕ → ℕ) (pc offset size : ℕ)
    → ((i : ℕ) → map_size ≤ i → reads i ≡ host.read_map i)
    → ((i : ℕ) → map_size ≤ i → compared i ≡ host.cmp_map i)
    → IsBounded host
    → After host (record host {
      read_map = reads;
      cmp_map = compared;
      last_pc = pc;
      ret_offset = offset;
      ret_size = size;
    })
other_fields host reads compared pc offset size rs cs b = (
  record {
    jumps = b.jumps;
    written = b.written;
    branches = b.branches;
    no_branch = b.no_branch;
    mappings = b.mappings;
  },
  record {
    jumps_within = λ i le. refl;
    reads_within = rs;
    writes_within = λ i le. refl;
    compares_within = cs;
    next = refl;
    values = λ a i. refl;
  },
)

lower_cmp-After :
    (idx d : ℕ) (host : Host) → idx < map_size → IsBounded host → After host (lower_cmp idx d host)
unfolding lower_cmp
lower_cmp-After idx d host lt b = elim (Bool-cases (ltb d (host.cmp_map idx))) [
  | inl lower ↦ rw lower (
      other_fields host host.read_map (update idx d host.cmp_map) host.last_pc host.ret_offset
        host.ret_size (λ i le. refl) (λ i le. ground arith) b)
  | inr kept ↦ rw kept (
    b,
    record {
      jumps_within = λ i le. refl;
      reads_within = λ i le. refl;
      writes_within = λ i le. refl;
      compares_within = λ i le. refl;
      next = refl;
      values = λ a i. refl;
    },
  )
]

-- The values that an instruction needs on the stack
abbrev pub needs : Arm → ℕ
needs jumpi = 2
needs store = 2
needs load = 1
needs less = 2
needs greater = 2
needs equal = 2
needs call_with_value = 7
needs call_without_value = 6
needs noted = 0
needs other = 0

step_sstore-Fine :
    (interp : Interp) (host : Host)
    → 2 ≤ length interp.stack
    → IsBounded host
    → Fine host (step_sstore interp host)
unfolding step_sstore
step_sstore-Fine interp host h b =
    let (key, e) = get_elem?-total interp.stack 0 (omega arith) in
    let (value, f) = get_elem?-total interp.stack 1 (omega arith) in
    elim (Bool-cases (member (interp.address, interp.program_counter) host.mapping_sstore_pcs)) [
      | inl old ↦ (
        host,
        ground arith,
        (
          b,
          record {
            jumps_within = λ i le. refl;
            reads_within = λ i le. refl;
            writes_within = λ i le. refl;
            compares_within = λ i le. refl;
            next = refl;
            values = λ a i. refl;
          },
        ),
      )
      | inr fresh ↦ (
        record_store interp key value host,
        ground (arith, e, f),
        record_store-After interp key value host fresh b,
      )
    ]

step_sload-Fine :
    (interp : Interp) (host : Host)
    → 1 ≤ length interp.stack
    → IsBounded host
    → Fine host (step_sload interp host)
unfolding step_sload
step_sload-Fine interp host h b =
    let (key, e) = get_elem?-total interp.stack 0 (omega arith) in
    (
      record host { read_map = update (process_rw_key key) true host.read_map },
      ground (arith, e),
      other_fields host (update (process_rw_key key) true host.read_map) host.cmp_map host.last_pc
          host.ret_offset host.ret_size (λ i le. ground (arith, process_rw_key-lt key))
          (λ i le. refl) b,
    )

step_compare-Fine :
    (distance : ℕ → ℕ → ℕ) (interp : Interp) (host : Host)
    → 2 ≤ length interp.stack
    → IsBounded host
    → Fine host (step_compare distance interp host)
unfolding step_compare
step_compare-Fine distance interp host h b =
    let (v1, e) = get_elem?-total interp.stack 0 (omega arith) in
    let (v2, f) = get_elem?-total interp.stack 1 (omega arith) in
    let idx = interp.program_counter % map_size in
    (
      lower_cmp idx (distance v1 v2) host,
      ground (arith, e, f),
      lower_cmp-After idx (distance v1 v2) host (omega arith) b,
    )

step_call-Fine :
    (n : ℕ) (interp : Interp) (host : Host)
    → n + 1 ≤ length interp.stack
    → IsBounded host
    → Fine host (step_call n interp host)
unfolding step_call
step_call-Fine n interp host h b =
    let (offset, e) = get_elem?-total interp.stack (n - 1) (omega arith) in
    let (size, f) = get_elem?-total interp.stack n (omega arith) in
    (
      record host {
        ret_offset = offset % word;
        ret_size = size % word;
        last_pc = interp.program_counter;
      },
      ground (arith, e, f),
      other_fields host host.read_map host.cmp_map interp.program_counter (offset % word)
          (size % word) (λ i le. refl) (λ i le. refl) b,
    )

run_arm-Fine :
    (arm : Arm) (interp : Interp) (host : Host)
    → needs arm ≤ length interp.stack
    → IsBounded host
    → Fine host (run_arm arm interp host)
unfolding run_arm
run_arm-Fine jumpi interp host h b = step_jumpi-Fine interp host h b
run_arm-Fine store interp host h b = step_sstore-Fine interp host h b
run_arm-Fine load interp host h b = step_sload-Fine interp host h b
run_arm-Fine less interp host h b = step_compare-Fine less_distance interp host h b
run_arm-Fine greater interp host h b = step_compare-Fine greater_distance interp host h b
run_arm-Fine equal interp host h b = step_compare-Fine equal_distance interp host h b
run_arm-Fine call_with_value interp host h b = step_call-Fine 6 interp host h b
run_arm-Fine call_without_value interp host h b = step_call-Fine 5 interp host h b
run_arm-Fine noted interp host h b = (
  record host { last_pc = interp.program_counter },
  refl,
  other_fields host host.read_map host.cmp_map interp.program_counter host.ret_offset host.ret_size
      (λ i le. refl) (λ i le. refl) b,
)
run_arm-Fine other interp host h b = (
  host,
  refl,
  (
    b,
    record {
      jumps_within = λ i le. refl;
      reads_within = λ i le. refl;
      writes_within = λ i le. refl;
      compares_within = λ i le. refl;
      next = refl;
      values = λ a i. refl;
    },
  ),
)

-- The values that an opcode reads on the stack: BALANCE, LT to EQ, SLOAD, SSTORE, JUMPI, and the
-- calls.
abbrev pub reads_values : ℕ → ℕ
reads_values op =
    if op == 0x31 || op == 0x54
    then 1
    else if (leb 0x10 op && leb op 0x14) || (op == 0x55 || op == 0x57)
    then 2
    else if op == 0xf1 || op == 0xf2
    then 7
    else if op == 0xf4 || op == 0xfa
    then 6
    else 0

needs-le : (op : ℕ) → needs (arm_of op) ≤ reads_values op
needs-le op = ground arith

decode_instruction-total :
    (interp : Interp) (a : AccessPattern)
    → reads_values interp.instruction ≤ length interp.stack
    → (a' : AccessPattern) × (decode_instruction interp a ≡ some a')
unfolding decode_instruction
decode_instruction-total interp a h = elim (Bool-cases (interp.instruction == 0x31)) [
  | inl balance ↦
      let (v, e) = get_elem?-total interp.stack 0 (ground arith) in
      (record a { balance = a.balance ++ (v % 2 ^ 160 ∷ []) }, ground (arith, e))
  | inr another ↦ elim (Option-cases (decode_instruction interp a)) [
    | inl bad ↦ absurd (ground (arith, bad))
    | inr found ↦ found
  ]
]

unnoted :
    (host : Host) (a : AccessPattern)
    → IsBounded host
    → After host (record host { access_pattern = a })
unnoted host a b = (
  record {
    jumps = b.jumps;
    written = b.written;
    branches = b.branches;
    no_branch = b.no_branch;
    mappings = b.mappings;
  },
  record {
    jumps_within = λ i le. refl;
    reads_within = λ i le. refl;
    writes_within = λ i le. refl;
    compares_within = λ i le. refl;
    next = refl;
    values = λ a i. refl;
  },
)

note_access-Fine :
    (interp : Interp) (host : Host)
    → reads_values interp.instruction ≤ length interp.stack
    → IsBounded host
    → Fine host (note_access interp host)
unfolding note_access
note_access-Fine interp host h b =
    let (a, e) = decode_instruction-total interp host.access_pattern h in
    (record host { access_pattern = a }, rw e refl, unnoted host a b)

-- The registered middlewares do not panic, leave the interpreter and the flag alone, and keep the
-- bounds and the storage.
pub record MiddlewaresLaws (on_step : Middlewares) : Type 0 where
  pub called :
      (interp : Interp) (host : Host)
      → IsBounded host
      → (host' : Host) × (on_step interp host ≡ some (interp, host')) × After host host'

pub step-IsBounded :
    (on_step : Middlewares) (laws : MiddlewaresLaws on_step) (interp : Interp) (host : Host)
    → reads_values interp.instruction ≤ length interp.stack
    → IsBounded host
    → (host' : Host) × (step on_step interp host ≡ some (interp, host'))
      × IsBounded host'
      × Keeps host host'
unfolding step
step-IsBounded on_step laws interp host h b =
    let (called, e, after) = laws.called interp host b in
    elim (Bool-cases called.is_fast_call_static) [
      | inl fast ↦ (called, ground (arith, e, fast), after.0, after.1)
      | inr slow ↦
          let (recorded, f, after') =
            run_arm-Fine (arm_of interp.instruction) interp called
              (omega (arith, needs-le interp.instruction)) after.0 in
          let (last, g, after'') = note_access-Fine interp recorded h after'.0 in
          let (b', k) =
            After-trans host recorded last (After-trans host called recorded after after')
              after'' in
          (last, ground (arith, e, slow, f, g), b', k)
    ]
