-- ===== src/Concolic/Host/State.antt =====
-- The state of `ConcolicHost`, and the frames that calls put away and bring back.
use ityfuzz.Prelude.{
  ℕ, zero, suc, ◌+◌, ◌-◌, Bool, ◌||◌, Option, none, some, List, [], ◌∷◌, ◌++◌, if◌then◌else◌, ◌==◌,
  ◌>>=◌, get_elem?, nat_eq,
}
use ityfuzz.Concolic.Expr.{ConcolicOp, evmu256, concat, Expr, leaf, unary, only_rhs, binary}
use ityfuzz.Concolic.Simplify.{simplify}
use ityfuzz.Concolic.Memory.{SymbolicMemory, get_slice, zero_byte}

abbrev pub Stack : Type 0
Stack = List (Option Expr)

abbrev pub SymbolicState : Type 0
SymbolicState = List (ℕ × Option Expr)

pub record ConcolicCallCtx : Type 0 where
  pub symbolic_stack : Stack
  pub symbolic_memory : SymbolicMemory
  pub symbolic_state : SymbolicState
  pub input_bytes : List Expr

pub record ConcolicHost : Type 0 where
  pub symbolic_stack : Stack
  pub symbolic_memory : SymbolicMemory
  pub symbolic_state : SymbolicState
  pub constraints : List Expr
  pub ctxs : List ConcolicCallCtx
  pub call_depth : ℕ
  pub already_solved : List (List ℕ)
  pub solving : List (List Expr)

-- What is read of the interpreter, and whether the source map knows the program counter.
pub record Interp : Type 0 where
  pub opcode : ℕ
  pub stack : List ℕ
  pub has_source : Bool

abbrev pub max_call_depth : ℕ
max_call_depth = 3

-- `pretty_print_helper`, over the derived `Debug` of the operations
unfoldable pub pretty_print_str : (ConcolicOp → List ℕ) → Expr → List ℕ
pretty_print_str debug (leaf op) = debug op
pretty_print_str debug (unary l op) =
    debug op ++ (40 ∷ (pretty_print_str debug l ++ (44 ∷ 41 ∷ [])))
pretty_print_str debug (only_rhs r op) = debug op ++ (40 ∷ (pretty_print_str debug r ++ (41 ∷ [])))
pretty_print_str debug (binary l r op) =
    debug op ++ (40 ∷ (pretty_print_str debug l ++ (44 ∷ (pretty_print_str debug r ++ (41 ∷ [])))))

unfoldable pub pop_ctx : ConcolicHost → Option ConcolicHost
pop_ctx host = elim host.ctxs [
  | [] ↦ none
  | ctx ∷ rest ↦ some (record host {
    symbolic_stack = ctx.symbolic_stack;
    symbolic_memory = ctx.symbolic_memory;
    symbolic_state = ctx.symbolic_state;
    ctxs = rest;
  })
]

abbrev pub arg_places : ℕ → Option (ℕ × ℕ)
arg_places op =
    if op == 0xf1 || op == 0xf2
    then some (3, 4)
    else if op == 0xf4 || op == 0xfa
    then some (2, 3)
    else none

unfoldable pub push_ctx : Interp → ConcolicHost → Option ConcolicHost
push_ctx interp host = do
  places ← arg_places interp.opcode
  arg_offset ← get_elem? interp.stack places.0
  arg_len ← get_elem? interp.stack places.1
  some (record host {
    symbolic_stack = [];
    symbolic_memory = [];
    symbolic_state = [];
    ctxs =
        record {
          symbolic_stack = host.symbolic_stack;
          symbolic_memory = host.symbolic_memory;
          symbolic_state = host.symbolic_state;
          input_bytes = (get_slice host.symbolic_memory arg_offset arg_len).1;
        }
        ∷ host.ctxs;
  })

abbrev byte_or : Option Expr → Expr
byte_or none = zero_byte
byte_or (some by) = by

-- The loop of `get_input_slice_from_ctx`, `n` rounds from `i` on
abbrev pub input_bytes_from : ℕ → ℕ → Expr → List Expr → Expr
input_bytes_from zero i bytes bytes_in = bytes
input_bytes_from (suc n) i bytes bytes_in =
    input_bytes_from n (i + 1) (binary bytes (byte_or (get_elem? bytes_in i)) concat) bytes_in

unfoldable pub get_input_slice_from_ctx : ConcolicHost → ℕ → ℕ → Option Expr
get_input_slice_from_ctx host idx len = elim host.ctxs [
  | [] ↦ none
  | ctx ∷ rest ↦ get_elem? ctx.input_bytes idx >>= λ first.
      simplify (input_bytes_from (len - 1) (idx + 1) first ctx.input_bytes)
]

-- The macro `stack_bv!`
abbrev or_concrete : Interp → ℕ → Option Expr → Option Expr
or_concrete interp idx (some e) = some e
or_concrete interp idx none = get_elem? interp.stack idx >>= λ v. some (leaf (evmu256 v))

unfoldable pub stack_bv : Interp → ConcolicHost → ℕ → Option Expr
stack_bv interp host idx = get_elem? host.symbolic_stack idx >>= or_concrete interp idx
