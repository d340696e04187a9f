-- ===== src/Concolic/Host/Opcodes.antt =====
-- The arms of the `match` on the opcode in `ConcolicHost::on_step`.
use ityfuzz.Prelude.{ℕ, ◌+◌, ◌-◌, Bool, ◌&&◌, leb, if◌then◌else◌, List, [], ◌∷◌, ◌++◌}
use ityfuzz.Concolic.Expr.{
  ConcolicOp, add, div, mul, sub, sdiv, smod, urem, and, or, xor, shl, shr, sar, caller, callvalue,
  origin, eq, lt, slt, gt, sgt,
}

pub data Arm : Type 0 where
  -- `stack_bv!(0).op(stack_bv!(1))`
  op2 : ConcolicOp → Arm
  -- `stack_bv!(1).op(stack_bv!(0))`
  shift : ConcolicOp → Arm
  -- `stack_bv!(0).op(stack_bv!(1)).bvsmod(stack_bv!(2))`
  on_result : ConcolicOp → Arm
  iszero bitnot : Arm
  -- `concrete_eval!`, and the arms that pop and put `None` without it
  concrete_eval : ℕ → ℕ → Arm
  -- a leaf outside of calls, `None` inside
  env : ConcolicOp → Arm
  calldataload mload mstore mstore8 sload sstore jumpi unsupported : Arm
  -- the copied or exchanged element, counted from the top
  dup swap : ℕ → Arm
  -- `concrete_eval_with_action!(n, 1, push_ctx)`
  call : ℕ → Arm

abbrev pub within : ℕ → ℕ → ℕ → Bool
within low op high = leb low op && leb op high

abbrev pub arithmetic_rows : List (ℕ × ℕ × Arm)
arithmetic_rows =
    (0x00, 0x00, concrete_eval 0 0)
    ∷ (0x01, 0x01, op2 add)
    ∷ (0x02, 0x02, op2 mul)
    ∷ (0x03, 0x03, op2 sub)
    ∷ (0x04, 0x04, op2 div)
    ∷ (0x05, 0x05, op2 sdiv)
    ∷ (0x06, 0x06, op2 urem)
    ∷ (0x07, 0x07, op2 smod)
    ∷ (0x08, 0x08, on_result add)
    ∷ (0x09, 0x09, on_result mul)
    ∷ (0x0a, 0x0b, concrete_eval 2 1)
    ∷ (0x10, 0x10, op2 lt)
    ∷ (0x11, 0x11, op2 gt)
    ∷ (0x12, 0x12, op2 slt)
    ∷ (0x13, 0x13, op2 sgt)
    ∷ (0x14, 0x14, op2 eq)
    ∷ (0x15, 0x15, iszero)
    ∷ (0x16, 0x16, op2 and)
    ∷ (0x17, 0x17, op2 or)
    ∷ (0x18, 0x18, op2 xor)
    ∷ (0x19, 0x19, bitnot)
    ∷ (0x1a, 0x1a, concrete_eval 2 1)
    ∷ (0x1b, 0x1b, shift shl)
    ∷ (0x1c, 0x1c, shift shr)
    ∷ (0x1d, 0x1d, shift sar)
    ∷ (0x20, 0x20, concrete_eval 2 1)
    ∷ []

abbrev pub env_rows : List (ℕ × ℕ × Arm)
env_rows =
    (0x30, 0x30, concrete_eval 0 1)
    ∷ (0x31, 0x31, concrete_eval 1 1)
    ∷ (0x32, 0x32, env origin)
    ∷ (0x33, 0x33, env caller)
    ∷ (0x34, 0x34, env callvalue)
    ∷ (0x35, 0x35, calldataload)
    ∷ (0x36, 0x36, concrete_eval 0 1)
    ∷ (0x37, 0x37, concrete_eval 3 0)
    ∷ (0x38, 0x38, concrete_eval 0 1)
    ∷ (0x39, 0x39, concrete_eval 3 0)
    ∷ (0x3a, 0x3a, concrete_eval 0 1)
    ∷ (0x3b, 0x3b, concrete_eval 1 1)
    ∷ (0x3c, 0x3c, concrete_eval 4 0)
    ∷ (0x3d, 0x3d, concrete_eval 0 1)
    ∷ (0x3e, 0x3e, concrete_eval 3 0)
    ∷ (0x3f, 0x40, concrete_eval 1 1)
    ∷ (0x41, 0x48, concrete_eval 0 1)
    ∷ []

abbrev pub flow_rows : List (ℕ × ℕ × Arm)
flow_rows =
    (0x50, 0x50, concrete_eval 1 0)
    ∷ (0x51, 0x51, mload)
    ∷ (0x52, 0x52, mstore)
    ∷ (0x53, 0x53, mstore8)
    ∷ (0x54, 0x54, sload)
    ∷ (0x55, 0x55, sstore)
    ∷ (0x56, 0x56, concrete_eval 1 0)
    ∷ (0x57, 0x57, jumpi)
    ∷ (0x58, 0x5a, concrete_eval 0 1)
    ∷ (0x5b, 0x5b, concrete_eval 0 0)
    ∷ (0x5e, 0x5e, concrete_eval 3 0)
    ∷ (0x5f, 0x7f, concrete_eval 0 1)
    ∷ []

abbrev pub frame_rows : List (ℕ × ℕ × Arm)
frame_rows =
    (0xf0, 0xf0, concrete_eval 3 1)
    ∷ (0xf1, 0xf2, call 7)
    ∷ (0xf3, 0xf3, concrete_eval 0 0)
    ∷ (0xf4, 0xf4, call 6)
    ∷ (0xf5, 0xf5, concrete_eval 4 1)
    ∷ (0xfa, 0xfa, call 6)
    ∷ (0xfd, 0xfd, concrete_eval 2 0)
    ∷ (0xfe, 0xfe, concrete_eval 0 0)
    ∷ (0xff, 0xff, concrete_eval 1 0)
    ∷ []

abbrev rows : List (ℕ × ℕ × Arm)
rows = arithmetic_rows ++ (env_rows ++ (flow_rows ++ frame_rows))

unfoldable pub find_arm : ℕ → List (ℕ × ℕ × Arm) → Arm
find_arm op [] = unsupported
find_arm op ((low, high, a) ∷ rest) = if within low op high then a else find_arm op rest

unfoldable pub arm_of : ℕ → Arm
unfolding find_arm
arm_of op =
    if within 0x80 op 0x8f
    then dup (op - 0x80)
    else if within 0x90 op 0x9f
    then swap (op - 0x90 + 1)
    else if within 0xa0 op 0xa4
    then concrete_eval (op - 0xa0 + 2) 0
    else find_arm op rows
