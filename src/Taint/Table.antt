-- ===== src/Taint/Table.antt =====
-- The stack effects of the EVM, and those of the arms of `Sha3TaintAnalysis::on_step`.
use ityfuzz.Prelude.{
  ℕ, suc, ◌+◌, Bool, true, false, Option, none, some, List, [], ◌∷◌, if◌then◌else◌,
}
use ityfuzz.Taint.{Sha3TaintAnalysis}
use ityfuzz.Taint.Opcodes.{
  Arm, nothing, pop_push, sha3, push_false, calldataload, setup_mem, pop_push_false, pop, mload,
  mstore, mstore8, sload, sstore, jumpi, dup, swap, pop_n, call, unknown, within,
}

-- Opcodes from the first to the second number, and how many values they take and put.
abbrev table : List (ℕ × ℕ × ℕ × ℕ)
table =
    (0x00, 0x00, 0, 0)
    ∷ (0x01, 0x07, 2, 1)
    ∷ (0x08, 0x09, 3, 1)
    ∷ (0x0a, 0x0b, 2, 1)
    ∷ (0x10, 0x14, 2, 1)
    ∷ (0x15, 0x15, 1, 1)
    ∷ (0x16, 0x18, 2, 1)
    ∷ (0x19, 0x19, 1, 1)
    ∷ (0x1a, 0x1d, 2, 1)
    ∷ (0x20, 0x20, 2, 1)
    ∷ (0x30, 0x30, 0, 1)
    ∷ (0x31, 0x31, 1, 1)
    ∷ (0x32, 0x34, 0, 1)
    ∷ (0x35, 0x35, 1, 1)
    ∷ (0x36, 0x36, 0, 1)
    ∷ (0x37, 0x37, 3, 0)
    ∷ (0x38, 0x38, 0, 1)
    ∷ (0x39, 0x39, 3, 0)
    ∷ (0x3a, 0x3a, 0, 1)
    ∷ (0x3b, 0x3b, 1, 1)
    ∷ (0x3c, 0x3c, 4, 0)
    ∷ (0x3d, 0x3d, 0, 1)
    ∷ (0x3e, 0x3e, 3, 0)
    ∷ (0x3f, 0x40, 1, 1)
    ∷ (0x41, 0x48, 0, 1)
    ∷ (0x50, 0x50, 1, 0)
    ∷ (0x51, 0x51, 1, 1)
    ∷ (0x52, 0x53, 2, 0)
    ∷ (0x54, 0x54, 1, 1)
    ∷ (0x55, 0x55, 2, 0)
    ∷ (0x56, 0x56, 1, 0)
    ∷ (0x57, 0x57, 2, 0)
    ∷ (0x58, 0x5a, 0, 1)
    ∷ (0x5b, 0x5b, 0, 0)
    ∷ (0x5f, 0x7f, 0, 1)
    ∷ (0x80, 0x80, 1, 2)
    ∷ (0x81, 0x81, 2, 3)
    ∷ (0x82, 0x82, 3, 4)
    ∷ (0x83, 0x83, 4, 5)
    ∷ (0x84, 0x84, 5, 6)
    ∷ (0x85, 0x85, 6, 7)
    ∷ (0x86, 0x86, 7, 8)
    ∷ (0x87, 0x87, 8, 9)
    ∷ (0x88, 0x88, 9, 10)
    ∷ (0x89, 0x89, 10, 11)
    ∷ (0x8a, 0x8a, 11, 12)
    ∷ (0x8b, 0x8b, 12, 13)
    ∷ (0x8c, 0x8c, 13, 14)
    ∷ (0x8d, 0x8d, 14, 15)
    ∷ (0x8e, 0x8e, 15, 16)
    ∷ (0x8f, 0x8f, 16, 17)
    ∷ (0x90, 0x90, 2, 2)
    ∷ (0x91, 0x91, 3, 3)
    ∷ (0x92, 0x92, 4, 4)
    ∷ (0x93, 0x93, 5, 5)
    ∷ (0x94, 0x94, 6, 6)
    ∷ (0x95, 0x95, 7, 7)
    ∷ (0x96, 0x96, 8, 8)
    ∷ (0x97, 0x97, 9, 9)
    ∷ (0x98, 0x98, 10, 10)
    ∷ (0x99, 0x99, 11, 11)
    ∷ (0x9a, 0x9a, 12, 12)
    ∷ (0x9b, 0x9b, 13, 13)
    ∷ (0x9c, 0x9c, 14, 14)
    ∷ (0x9d, 0x9d, 15, 15)
    ∷ (0x9e, 0x9e, 16, 16)
    ∷ (0x9f, 0x9f, 17, 17)
    ∷ (0xa0, 0xa0, 2, 0)
    ∷ (0xa1, 0xa1, 3, 0)
    ∷ (0xa2, 0xa2, 4, 0)
    ∷ (0xa3, 0xa3, 5, 0)
    ∷ (0xa4, 0xa4, 6, 0)
    ∷ (0xf0, 0xf0, 3, 1)
    ∷ (0xf1, 0xf2, 7, 1)
    ∷ (0xf3, 0xf3, 2, 0)
    ∷ (0xf4, 0xf4, 6, 1)
    ∷ (0xf5, 0xf5, 4, 1)
    ∷ (0xfa, 0xfa, 6, 1)
    ∷ (0xfd, 0xfd, 2, 0)
    ∷ (0xfe, 0xfe, 0, 0)
    ∷ (0xff, 0xff, 1, 0)
    ∷ []

unfoldable pub look_up : ℕ → List (ℕ × ℕ × ℕ × ℕ) → Option (ℕ × ℕ)
look_up op [] = none
look_up op ((low, high, takes, puts) ∷ rows) =
    if within low op high then some (takes, puts) else look_up op rows

-- The stack effect of an opcode of the EVM (Shanghai).
unfoldable pub evm_effect : ℕ → Option (ℕ × ℕ)
unfolding look_up
evm_effect op = look_up op table

-- How many values an arm takes off the shadow stack, and how many it puts.
abbrev pub arm_effect : Arm → ℕ × ℕ
arm_effect nothing = (0, 0)
arm_effect sha3 = (2, 1)
arm_effect push_false = (0, 1)
arm_effect calldataload = (1, 1)
arm_effect setup_mem = (3, 0)
arm_effect pop = (1, 0)
arm_effect mload = (1, 1)
arm_effect mstore = (2, 0)
arm_effect mstore8 = (2, 0)
arm_effect sload = (1, 1)
arm_effect sstore = (2, 0)
arm_effect jumpi = (2, 0)
arm_effect unknown = (0, 0)
arm_effect (pop_push n) = (n, 1)
arm_effect (pop_push_false n) = (n, 1)
arm_effect (pop_n n) = (n, 0)
arm_effect (dup k) = (suc k, k + 2)
arm_effect (swap k) = (suc k, suc k)
arm_effect (call n) = (n, 1)

abbrev pub is_call : Arm → Bool
is_call (call n) = true
is_call _ = false

-- The shadow stack of the running frame after an arm: a call has put it away.
abbrev pub frame_stack : Arm → Sha3TaintAnalysis → List Bool
frame_stack a t =
    if is_call a then elim t.ctxs [ [] ↦ [] | ctx ∷ rest ↦ ctx.dirty_stack ] else t.dirty_stack
