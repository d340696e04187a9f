-- ===== src/Host/Maps.antt =====
-- The maps and flags that `step` of `FuzzHost` in src/evm/host.rs fills (the match on the
-- instruction, with the features `cmp` and `dataflow`, which are on by default), and the branches
-- of an execution. `none` is a panic: an index into the stack out of bounds.

pub mod Bounds
use ityfuzz.Prelude.{
  ℕ, zero, suc, ◌+◌, ◌-◌, ◌*◌, ◌/◌, ◌%◌, ◌^◌, Bool, true, false, ◌||◌, ◌&&◌, not, Option, none,
  some, List, [], ◌∷◌, ◌++◌, ◌==◌, leb, ltb, if◌then◌else◌, get, insert, nat_eq, pair_eq, ◌>>=◌,
  get_elem?, length, member, add_member, or_default, update, word,
}
use Prim.Native.Nat.{bit_xor}
use ityfuzz.Host.Storage.{Storage, sload}

abbrev pub map_size : ℕ
map_size = 4096

abbrev pub u256_max : ℕ
u256_max = 2 ^ 256 - 1

-- The interpreter at a step: the stack has its top first.
pub record Interp : Type 0 where
  pub instruction : ℕ
  pub address : ℕ
  pub program_counter : ℕ
  pub stack : List ℕ

-- `AccessPattern` of src/evm/mutator.rs, without `call_value`, which a step leaves alone
pub record AccessPattern : Type 0 where
  pub balance : List ℕ
  pub caller : Bool
  pub gas_price : Bool
  pub number : Bool
  pub coinbase : Bool
  pub timestamp : Bool
  pub prevrandao : Bool
  pub gas_limit : Bool
  pub chain_id : Bool
  pub basefee : Bool

-- The arrays are functions of the index; `is_fast_call_static` is a global flag.
pub record Host : Type 0 where
  pub is_fast_call_static : Bool
  pub access_pattern : AccessPattern
  pub evmstate : Storage
  pub next_slot : ℕ
  pub jmp_map : ℕ → ℕ
  pub read_map : ℕ → Bool
  pub write_map : ℕ → ℕ
  pub cmp_map : ℕ → ℕ
  pub state_change : Bool
  pub coverage_changed : Bool
  pub jumpi_trace : ℕ
  pub last_pc : ℕ
  pub mapping_sstore_pcs : List (ℕ × ℕ)
  pub mapping_sstore_pcs_to_slot : List ((ℕ × ℕ) × List ℕ)
  pub branch_status : ℕ → Option ((ℕ × ℕ) × Bool)
  pub branch_status_idx : ℕ
  pub ret_offset : ℕ
  pub ret_size : ℕ

abbrev pub as_u64 : ℕ → ℕ
as_u64 v = v % word

-- `process_rw_key!`
abbrev pub process_rw_key : ℕ → ℕ
process_rw_key key =
    if ltb 100 key then as_u64 (key % (map_size - 100) + 100) % map_size else as_u64 key % map_size

-- `u256_to_u8!(value) + 1`
abbrev pub compressed : ℕ → ℕ
compressed value = as_u64 (value / 2 ^ 4) % 254 + 1

-- Of the whole array, the entries that the loop over `take(BRANCH_STATUS_IDX + 1)` reaches
unfoldable pub clear_branch_status : Host → Host
clear_branch_status host = record host {
  branch_status = λ i. if ltb i (host.branch_status_idx + 1) then none else host.branch_status i;
  branch_status_idx = 0;
}

unfoldable pub add_branch : (ℕ × ℕ) × Bool → Host → Host
add_branch branch host = if leb map_size host.branch_status_idx then host else record host {
  branch_status = update host.branch_status_idx (some branch) host.branch_status;
  branch_status_idx = host.branch_status_idx + 1;
}

-- What JUMPI leaves in the maps, without the branch
unfoldable pub record_jump : Interp → ℕ → ℕ → Host → Host
record_jump interp br jump_dest host =
    let pc = interp.program_counter in
    let idx = pc * jump_dest % word % map_size in
    record host {
      jumpi_trace = bit_xor (host.jumpi_trace * 54059 % word) (pc * 76963 % word);
      coverage_changed = host.coverage_changed || host.jmp_map idx == 0;
      jmp_map =
          update idx (if host.jmp_map idx == 255 then 255 else host.jmp_map idx + 1) host.jmp_map;
      cmp_map = update (pc % map_size) br host.cmp_map;
    }

-- JUMPI
unfoldable pub step_jumpi : Interp → Host → Option Host
unfolding add_branch record_jump
step_jumpi interp host = do
  br ← get_elem? interp.stack 1
  dest ← get_elem? interp.stack 0
  let jump_dest : ℕ = if br == 0 then 1 else as_u64 dest
  some (
      add_branch ((interp.address, interp.program_counter), not (jump_dest == 1))
        (record_jump interp br jump_dest host))

-- SSTORE at a program counter that is not among those of mappings
unfoldable pub record_store : Interp → ℕ → ℕ → Host → Host
record_store interp key value host =
    let place : ℕ × ℕ = (interp.address, interp.program_counter) in
    let slots = add_member key (or_default [] (get place host.mapping_sstore_pcs_to_slot)) in
    let (old, evmstate) = sload host.next_slot interp.address key host.evmstate in
    let value_changed = not (old == value) in
    record host {
      mapping_sstore_pcs_to_slot = insert place slots host.mapping_sstore_pcs_to_slot;
      mapping_sstore_pcs =
          if ltb 10 (length slots)
          then add_member place host.mapping_sstore_pcs
          else host.mapping_sstore_pcs;
      write_map = update (process_rw_key key) (compressed value) host.write_map;
      evmstate = evmstate;
      jmp_map =
          update (interp.program_counter % map_size) (if value_changed then 1 else 0) host.jmp_map;
      state_change = host.state_change || value_changed;
    }

unfoldable pub step_sstore : Interp → Host → Option Host
unfolding record_store
step_sstore interp host =
    if member (interp.address, interp.program_counter) host.mapping_sstore_pcs
    then some host
    else (do
      key ← get_elem? interp.stack 0
      value ← get_elem? interp.stack 1
      some (record_store interp key value host))

unfoldable pub step_sload : Interp → Host → Option Host
step_sload interp host = do
  key ← get_elem? interp.stack 0
  some (record host { read_map = update (process_rw_key key) true host.read_map })

-- The distance of the comparison `v1 < v2`
unfoldable pub less_distance : ℕ → ℕ → ℕ
less_distance v1 v2 = if leb v2 v1 then (if v1 - v2 == 0 then 1 else v1 - v2) else 0

unfoldable pub greater_distance : ℕ → ℕ → ℕ
greater_distance v1 v2 = if leb v1 v2 then (if v2 - v1 == 0 then 1 else v2 - v1) else 0

unfoldable pub equal_distance : ℕ → ℕ → ℕ
equal_distance v1 v2 =
    if ltb v1 v2 then (v2 - v1) % (u256_max - 1) + 1 else (v1 - v2) % (u256_max - 1) + 1

-- `if abs_diff < CMP_MAP[idx] { CMP_MAP[idx] = abs_diff; }`
unfoldable pub lower_cmp : ℕ → ℕ → Host → Host
lower_cmp idx abs_diff host =
    if ltb abs_diff (host.cmp_map idx)
    then record host { cmp_map = update idx abs_diff host.cmp_map }
    else host

unfoldable pub step_compare : (ℕ → ℕ → ℕ) → Interp → Host → Option Host
unfolding lower_cmp
step_compare distance interp host = do
  v1 ← get_elem? interp.stack 0
  v2 ← get_elem? interp.stack 1
  some (lower_cmp (interp.program_counter % map_size) (distance v1 v2) host)

unfoldable pub step_call : ℕ → Interp → Host → Option Host
step_call offset_of_ret_size interp host = do
  offset ← get_elem? interp.stack (offset_of_ret_size - 1)
  size ← get_elem? interp.stack offset_of_ret_size
  some (record host {
    ret_offset = as_u64 offset;
    ret_size = as_u64 size;
    last_pc = interp.program_counter;
  })

pub data Arm : Type 0 where
  jumpi : Arm
  store : Arm
  load : Arm
  less : Arm
  greater : Arm
  equal : Arm
  call_with_value : Arm
  call_without_value : Arm
  noted : Arm
  other : Arm

-- The match on the instruction
abbrev pub arm_of : ℕ → Arm
arm_of op =
    if op == 0x57
    then jumpi
    else if op == 0x55
    then store
    else if op == 0x54
    then load
    else if op == 0x10 || op == 0x12
    then less
    else if op == 0x11 || op == 0x13
    then greater
    else if op == 0x14
    then equal
    else if op == 0xf1 || op == 0xf2
    then call_with_value
    else if op == 0xf4 || op == 0xfa
    then call_without_value
    else if (op == 0xf0 || op == 0xf5) || ((leb 0xa0 op && leb op 0xa4) || op == 0xff)
    then noted
    else other

unfoldable pub run_arm : Arm → Interp → Host → Option Host
unfolding step_jumpi step_sstore step_sload step_compare step_call
run_arm jumpi interp host = step_jumpi interp host
run_arm store interp host = step_sstore interp host
run_arm load interp host = step_sload interp host
run_arm less interp host = step_compare less_distance interp host
run_arm greater interp host = step_compare greater_distance interp host
run_arm equal interp host = step_compare equal_distance interp host
run_arm call_with_value interp host = step_call 6 interp host
run_arm call_without_value interp host = step_call 5 interp host
run_arm noted interp host = some (record host { last_pc = interp.program_counter })
run_arm other interp host = some host

unfoldable pub decode_instruction : Interp → AccessPattern → Option AccessPattern
decode_instruction interp a =
    let op = interp.instruction in
    if op == 0x31
    then (do
      address ← get_elem? interp.stack 0
      some (record a { balance = a.balance ++ (address % 2 ^ 160 ∷ []) }))
    else if op == 0x33
    then some (record a { caller = true })
    else if op == 0x3a
    then some (record a { gas_price = true })
    else if op == 0x43
    then some (record a { number = true })
    else if op == 0x41
    then some (record a { coinbase = true })
    else if op == 0x42
    then some (record a { timestamp = true })
    else if op == 0x44
    then some (record a { prevrandao = true })
    else if op == 0x45
    then some (record a { gas_limit = true })
    else if op == 0x46
    then some (record a { chain_id = true })
    else if op == 0x48
    then some (record a { basefee = true })
    else some a

unfoldable pub note_access : Interp → Host → Option Host
unfolding decode_instruction
note_access interp host = do
  a ← decode_instruction interp host.access_pattern
  some (record host { access_pattern = a })

-- The registered middlewares, which may change the interpreter and the host, are a parameter.
abbrev pub Middlewares : Type 0
Middlewares = Interp → Host → Option (Interp × Host)

unfoldable pub step : Middlewares → Interp → Host → Option (Interp × Host)
unfolding run_arm note_access
step on_step interp host = do
  called ← on_step interp host
  if called.1.is_fast_call_static then some called else (do
    recorded ← run_arm (arm_of called.0.instruction) called.0 called.1
    noted_host ← note_access called.0 recorded
    some (called.0, noted_host))
