-- ===== src/Taint/Opcodes.antt =====
-- The arms of the `match` on the opcode in `Sha3TaintAnalysis::on_step`.
use ityfuzz.Prelude.{ℕ, ◌+◌, ◌-◌, Bool, ◌&&◌, ◌||◌, ◌==◌, leb, if◌then◌else◌}

pub data Arm : Type 0 where
  nothing sha3 push_false calldataload setup_mem pop : Arm
  mload mstore mstore8 sload sstore jumpi unknown : Arm
  -- `pop_push!(n, 1)`
  pop_push : ℕ → Arm
  -- `stack_pop_n!(n)`, then a push of `false`
  pop_push_false : ℕ → Arm
  pop_n : ℕ → Arm
  -- the copied or exchanged element, counted from the top
  dup swap : ℕ → Arm
  -- `stack_pop_n!(n)`, a push of `false`, and `push_ctx`
  call : ℕ → Arm

abbrev pub within : ℕ → ℕ → ℕ → Bool
within low op high = leb low op && leb op high

abbrev low_arm : ℕ → Arm
low_arm op =
    if op == 0x00
    then nothing
    else if within 0x01 op 0x07
    then pop_push 2
    else if within 0x08 op 0x09
    then pop_push 3
    else if op == 0x0a || (op == 0x0b || within 0x10 op 0x14)
    then pop_push 2
    else if op == 0x15
    then pop_push 1
    else if within 0x16 op 0x18
    then pop_push 2
    else if op == 0x19
    then pop_push 1
    else if within 0x1a op 0x1d
    then pop_push 2
    else if op == 0x20
    then sha3
    else unknown

abbrev env_arm : ℕ → Arm
env_arm op =
    if op == 0x30
    then push_false
    else if op == 0x31
    then pop_push 1
    else if op == 0x32
    then push_false
    else if op == 0x33
    then push_false
    else if op == 0x34
    then push_false
    else if op == 0x35
    then calldataload
    else if op == 0x36
    then push_false
    else if op == 0x37
    then setup_mem
    else if op == 0x38
    then push_false
    else if op == 0x39
    then setup_mem
    else if op == 0x3a
    then push_false
    else if op == 0x3b || op == 0x3f
    then pop_push_false 1
    else if op == 0x3c
    then setup_mem
    else if op == 0x3d
    then push_false
    else if op == 0x3e
    then setup_mem
    else if within 0x41 op 0x48
    then push_false
    else unknown

abbrev flow_arm : ℕ → Arm
flow_arm op =
    if op == 0x50
    then pop
    else if op == 0x51
    then mload
    else if op == 0x52
    then mstore
    else if op == 0x53
    then mstore8
    else if op == 0x54
    then sload
    else if op == 0x55
    then sstore
    else if op == 0x56
    then pop
    else if op == 0x57
    then jumpi
    else if within 0x58 op 0x5a
    then push_false
    else if op == 0x5b
    then nothing
    else if within 0x5f op 0x7f
    then push_false
    else unknown

abbrev high_arm : ℕ → Arm
high_arm op =
    if within 0x80 op 0x8f
    then dup (op - 0x80)
    else if within 0x90 op 0x9f
    then swap (op - 0x90 + 1)
    else if within 0xa0 op 0xa4
    then pop_n (op - 0xa0 + 2)
    else if op == 0xf0
    then pop_push_false 3
    else if op == 0xf1
    then call 7
    else if op == 0xf2
    then call 7
    else if op == 0xf3
    then pop_n 2
    else if op == 0xf4
    then call 6
    else if op == 0xf5
    then pop_push_false 4
    else if op == 0xfa
    then call 6
    else if op == 0xfd
    then nothing
    else if op == 0xfe
    then nothing
    else if op == 0xff
    then nothing
    else unknown

unfoldable pub arm : ℕ → Arm
arm op =
    if leb op 0x2f
    then low_arm op
    else if leb op 0x4f
    then env_arm op
    else if leb op 0x7f
    then flow_arm op
    else high_arm op
