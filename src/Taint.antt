-- ===== src/Taint.antt =====
-- src/evm/middlewares/sha3_bypass.rs: the taint analysis that follows hashes to conditional jumps.
-- The head of a stack is its top. Of the interpreter the code reads what `Interp` holds; `none` is
-- a panic. Memory sizes that exhaust the machine are not modelled.
pub mod Opcodes
pub mod Table
pub mod Effect
pub mod Calls
pub mod Frames
pub mod Total
mod Tests
use ityfuzz.Prelude.{
  ℕ, zero, suc, ◌+◌, ◌-◌, ◌%◌, Bool, true, false, ◌&&◌, ◌||◌, Option, none, some, List, [], ◌∷◌,
  ◌++◌, ◌==◌, ltb, leb, if◌then◌else◌, wrapping_add, word, get, insert, ◌>>=◌, nat_eq, length,
  get_elem?, set, take, drop, replicate, any_of,
}
use Opcodes.{
  Arm, nothing, pop_push, sha3, push_false, calldataload, setup_mem, pop_push_false, pop, mload,
  mstore, mstore8, sload, sstore, jumpi, dup, swap, pop_n, call, unknown, arm,
}

abbrev pub max_call_depth : ℕ
max_call_depth = 3

-- What the analysis reads of the interpreter and the host.
pub record Interp : Type 0 where
  pub opcode : ℕ
  pub stack : List ℕ
  pub address : ℕ
  pub program_counter : ℕ
  pub call_depth : ℕ

pub record Ctx : Type 0 where
  pub dirty_memory : List Bool
  pub dirty_storage : List (ℕ × Bool)
  pub dirty_stack : List Bool
  pub input_data : List Bool

pub record Sha3TaintAnalysis : Type 0 where
  pub dirty_memory : List Bool
  pub dirty_storage : List (ℕ × Bool)
  pub dirty_stack : List Bool
  pub tainted_jumpi : List (ℕ × ℕ)
  pub ctxs : List Ctx

unfoldable pub new : Sha3TaintAnalysis
new = record {
  dirty_memory = [];
  dirty_storage = [];
  dirty_stack = [];
  tainted_jumpi = [];
  ctxs = [];
}

unfoldable pub cleanup : Sha3TaintAnalysis → Sha3TaintAnalysis
cleanup t = record t { dirty_memory = []; dirty_storage = []; dirty_stack = [] }

-- `v[start..end]`
abbrev pub slice : List Bool → ℕ → ℕ → Option (List Bool)
slice bytes start end =
    if leb start end && leb end (length bytes)
    then some (take (end - start) (drop start bytes))
    else none

-- `write_input` and `read_input` copy a slice of the memory or of the input.
unfoldable pub read_range : List Bool → ℕ → ℕ → Option (List Bool)
read_range bytes start len = slice bytes start (wrapping_add len start)

abbrev pub as_u64 : ℕ → ℕ
as_u64 v = v % word

-- `interp.stack.peek(n).expect(…)`
abbrev pub peek : Interp → ℕ → Option ℕ
peek interp n = get_elem? interp.stack n

abbrev pub arg_places : ℕ → Option (ℕ × ℕ)
arg_places op =
    if op == 0xf1 || op == 0xf2
    then some (3, 4)
    else if op == 0xf4 || op == 0xfa
    then some (2, 3)
    else none

unfoldable pub push_ctx : Interp → Sha3TaintAnalysis → Option Sha3TaintAnalysis
unfolding read_range cleanup
push_ctx interp t = do
  places ← arg_places interp.opcode
  arg_offset ← peek interp places.0
  arg_len ← peek interp places.1
  input ← read_range t.dirty_memory (as_u64 arg_offset) (as_u64 arg_len)
  let ctx : Ctx = record {
    dirty_memory = t.dirty_memory;
    dirty_storage = t.dirty_storage;
    dirty_stack = t.dirty_stack;
    input_data = input;
  }
  some (cleanup (record t { ctxs = ctx ∷ t.ctxs }))

unfoldable pub pop_ctx : Sha3TaintAnalysis → Option Sha3TaintAnalysis
pop_ctx t = elim t.ctxs [
  | [] ↦ none
  | ctx ∷ rest ↦ some (record t {
    dirty_memory = ctx.dirty_memory;
    dirty_storage = ctx.dirty_storage;
    dirty_stack = ctx.dirty_stack;
    ctxs = rest;
  })
]

-- `stack_pop_n!`
unfoldable pub stack_pop_n : ℕ → List Bool → Option (List Bool)
stack_pop_n zero stack = some stack
stack_pop_n (suc n) [] = none
stack_pop_n (suc n) (x ∷ stack) = stack_pop_n n stack

-- The popping loop of `pop_push!`, with the taint so far.
unfoldable pub pop_or : ℕ → Bool → List Bool → Option (Bool × List Bool)
pop_or zero res stack = some (res, stack)
pop_or (suc n) res [] = none
pop_or (suc n) res (x ∷ stack) = pop_or n (res || x) stack

-- `dirty_stack.pop()` whose result is not looked at.
abbrev pub pop_any : List Bool → List Bool
pop_any [] = []
pop_any (x ∷ stack) = stack

abbrev pub top : List Bool → Option (Bool × List Bool)
top [] = none
top (x ∷ stack) = some (x, stack)

-- `ensure_size!`
unfoldable pub ensure_size : List Bool → ℕ → List Bool
ensure_size bytes size =
    if ltb (length bytes) size then bytes ++ replicate (size - length bytes) false else bytes

-- `bytes[start..end].copy_from_slice(&vec![value; len])`; the lengths differ only if the end wraps
-- round, and then the slice fails.
unfoldable pub fill_range : List Bool → ℕ → ℕ → Bool → Option (List Bool)
fill_range bytes start len value =
    let end = wrapping_add start len in
    if leb start end && leb end (length bytes)
    then some (take start bytes ++ (replicate len value ++ drop end bytes))
    else none

abbrev pub with_stack : Sha3TaintAnalysis → List Bool → Sha3TaintAnalysis
with_stack t stack = record t { dirty_stack = stack }

-- `dirty_stack.swap(len - n, len - 1)`, with `k` = n - 1.
unfoldable pub swap_top : ℕ → List Bool → Option (List Bool)
swap_top k stack = do
  first ← get_elem? stack 0
  other ← get_elem? stack k
  some (set (set stack 0 other) k first)

unfoldable pub load_input : Interp → Sha3TaintAnalysis → Option Bool
unfolding read_range
load_input interp t = elim t.ctxs [
  | [] ↦ some false
  | ctx ∷ rest ↦ (do
    offset ← peek interp 0
    if as_u64 offset == 0 then some false else (do
      input ← read_range ctx.input_data (as_u64 offset) 32
      some (any_of (λ x. x) input)))
]

unfoldable pub run_setup_mem : Interp → Sha3TaintAnalysis → Option Sha3TaintAnalysis
unfolding stack_pop_n ensure_size fill_range
run_setup_mem interp t = do
  stack ← stack_pop_n 3 t.dirty_stack
  offset ← peek interp 0
  len ← peek interp 2
  memory ←
      fill_range (ensure_size t.dirty_memory (wrapping_add (as_u64 offset) (as_u64 len)))
        (as_u64 offset) (as_u64 len) false
  some (record t { dirty_stack = stack; dirty_memory = memory })

unfoldable pub run_mload : Interp → Sha3TaintAnalysis → Option Sha3TaintAnalysis
unfolding ensure_size
run_mload interp t = do
  offset ← peek interp 0
  let end = wrapping_add (as_u64 offset) 32
  let memory = ensure_size t.dirty_memory end
  bytes ← slice memory (as_u64 offset) end
  some (record t {
    dirty_memory = memory;
    dirty_stack = any_of (λ x. x) bytes ∷ pop_any t.dirty_stack;
  })

-- MSTORE with 32 bytes, MSTORE8 with one.
unfoldable pub run_mstore : ℕ → Interp → Sha3TaintAnalysis → Option Sha3TaintAnalysis
unfolding stack_pop_n ensure_size fill_range
run_mstore bytes interp t = do
  stack ← stack_pop_n 1 t.dirty_stack
  offset ← peek interp 0
  popped ← top stack
  memory ←
      fill_range (ensure_size t.dirty_memory (wrapping_add (as_u64 offset) bytes)) (as_u64 offset)
        bytes popped.0
  some (record t { dirty_stack = popped.1; dirty_memory = memory })

unfoldable pub run_sload : Interp → Sha3TaintAnalysis → Option Sha3TaintAnalysis
run_sload interp t = do
  key ← peek interp 0
  let is_dirty : Bool = elim (get key t.dirty_storage) [ none ↦ false | some dirty ↦ dirty ]
  some (with_stack t (is_dirty ∷ pop_any t.dirty_stack))

unfoldable pub run_sstore : Interp → Sha3TaintAnalysis → Option Sha3TaintAnalysis
run_sstore interp t = do
  popped ← top (pop_any t.dirty_stack)
  key ← peek interp 0
  some (record t { dirty_stack = popped.1; dirty_storage = insert key popped.0 t.dirty_storage })

abbrev pub mark_jumpi : Interp → Bool → List (ℕ × ℕ) → List (ℕ × ℕ)
mark_jumpi interp tainted marks =
    if tainted then (interp.address, interp.program_counter) ∷ marks else marks

unfoldable pub run_jumpi : Interp → Sha3TaintAnalysis → Option Sha3TaintAnalysis
run_jumpi interp t = do
  popped ← top (pop_any t.dirty_stack)
  some (record t {
    dirty_stack = popped.1;
    tainted_jumpi = mark_jumpi interp popped.0 t.tainted_jumpi;
  })

-- The `match` on the opcode.
unfoldable pub run_arm : Arm → Interp → Sha3TaintAnalysis → Option Sha3TaintAnalysis
unfolding stack_pop_n pop_or swap_top load_input run_setup_mem run_mload run_mstore run_sload
    run_sstore run_jumpi push_ctx
run_arm nothing interp t = some t
run_arm (pop_push n) interp t = do
  popped ← pop_or n false t.dirty_stack
  some (with_stack t (popped.0 ∷ popped.1))
run_arm sha3 interp t = do stack ← stack_pop_n 2 t.dirty_stack; some (with_stack t (true ∷ stack))
run_arm push_false interp t = some (with_stack t (false ∷ t.dirty_stack))
run_arm calldataload interp t = do
  input ← load_input interp t
  some (with_stack t (input ∷ pop_any t.dirty_stack))
run_arm setup_mem interp t = run_setup_mem interp t
run_arm (pop_push_false n) interp t = do
  stack ← stack_pop_n n t.dirty_stack
  some (with_stack t (false ∷ stack))
run_arm pop interp t = some (with_stack t (pop_any t.dirty_stack))
run_arm mload interp t = run_mload interp t
run_arm mstore interp t = run_mstore 32 interp t
run_arm mstore8 interp t = run_mstore 1 interp t
run_arm sload interp t = run_sload interp t
run_arm sstore interp t = run_sstore interp t
run_arm jumpi interp t = run_jumpi interp t
run_arm (dup k) interp t = do x ← get_elem? t.dirty_stack k; some (with_stack t (x ∷ t.dirty_stack))
run_arm (swap k) interp t = do stack ← swap_top k t.dirty_stack; some (with_stack t stack)
run_arm (pop_n n) interp t = do stack ← stack_pop_n n t.dirty_stack; some (with_stack t stack)
run_arm (call n) interp t = do
  stack ← stack_pop_n n t.dirty_stack
  push_ctx interp (with_stack t (false ∷ stack))
run_arm unknown interp t = none

unfoldable pub on_step : Interp → Sha3TaintAnalysis → Option Sha3TaintAnalysis
unfolding run_arm arm
on_step interp t =
    if ltb max_call_depth interp.call_depth
    then some t
    else if length interp.stack == length t.dirty_stack
    then run_arm (arm interp.opcode) interp t
    else none

unfoldable pub on_return : Sha3TaintAnalysis → Option Sha3TaintAnalysis
unfolding pop_ctx
on_return t = pop_ctx t

abbrev pub is_marked : ℕ → ℕ → List (ℕ × ℕ) → Bool
is_marked address pc = any_of (λ (mark : ℕ × ℕ). mark.0 == address && mark.1 == pc)

-- `Sha3Bypass::on_step`: at a marked JUMPI the condition, which is the second value on the stack,
-- becomes a random bit; `randomness` is `host.randomness[0]`, which is a byte.
unfoldable pub bypass_step : ℕ → Interp → Sha3TaintAnalysis → Option Interp
bypass_step randomness interp t =
    if interp.opcode == 0x57 && is_marked interp.address interp.program_counter t.tainted_jumpi
    then (if leb 2 (length interp.stack)
        then some (record interp {
          stack = set interp.stack 1 (wrapping_add interp.program_counter randomness % 2);
        })
        else none)
    else some interp
