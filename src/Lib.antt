-- ===== src/Lib.antt =====
-- ItyFuzz, a fuzzer for smart contracts: a model of its core logic and proofs about it.
--
-- The fuzzer keeps inputs and VM states in a corpus, picks them by votes, and runs transactions in
-- an EVM whose steps it watches by middlewares. The parts that are modelled, by file:
-- * Corpus (src/indexed_corpus.rs): `IndexedInMemoryCorpus`, the store of inputs and VM states; its
--   record and one function for each operation of the trait. Walk follows `next`.
-- * Scheduler/Deps (src/scheduler.rs, `DependencyTree`): the reference counts of the corpus entries
--   along their parents. Deps/Counts has the abstract view, a set of live indices with their paths;
--   Deps/Growth and Deps/Garbage relate the operations to it. The loops over the ancestors take
--   fuel; an index is above its parent's, so the parent's index and one more is enough, and
--   for_ancestors_lem of Deps/Paths proves it.
-- * Scheduler/Votes (src/scheduler.rs, `VoteData`, `vote`, `on_remove`, `next`): the votes and
--   visits of the entries, their cached totals and the sorted list. Votes/Sampling takes the
--   floating-point operations as a parameter.
-- * Scheduler/Adding (src/scheduler.rs, `on_add`, `report_corpus`, `sponsor_state`): what joins the
--   votes, the tree and the corpus, with the feature `full_trace`, which is on by default, and the
--   sort by scores as a parameter. Adding/Growing is about a new entry, Adding/Pruning about the
--   loop that drops entries.
-- * Abi (src/evm/abi.rs): the values with their encoding (Encode) and decoding (Decode); Word has
--   the size words, Roundtrip the round trip of a dynamic value. TypeNames reads the names of
--   types; its fuel is one more than the name's length, which Fuel shows to be enough. Printing has
--   the names' grammar, Text the operations on texts, and Split, Joined, Simples, Shapes and
--   Roundtrip lead to the round trip.
-- * Taint (src/evm/middlewares/sha3_bypass.rs): the shadow stack, memory and storage that follow
--   hashes to conditional jumps. Opcodes is the choice of the arm, Table the stack effects of the
--   EVM, Effect and Calls relate the two, Total has the steps that cannot panic, Frames has calls
--   and returns as runs.
-- * Cheatcode (src/evm/middlewares/cheatcode and src/evm/host.rs): Caller has the pranks and
--   the host's `call`, Tracker and Counts the expected calls, Emits and Queue the expected logs,
--   Outcome and Checks `check_expected`, Records the recorded storage accesses, Approx and
--   Approx/Bounds the tests of `assertApproxEqAbs` and `assertApproxEqRel`.
-- * Bytecode (src/evm/bytecode_iterator.rs): `all_bytecode`, the instructions of a code; the loop's
--   fuel is one more than the length of the code. Constants is `find_constants` of
--   src/evm/bytecode_analyzer.rs.
-- * Reentrancy (src/evm/middlewares/reentrancy.rs): the tracer's reads and pending writes by depth.
--   Depths has the ascending lists, Findings the run against its history.
-- * Host (src/evm/host.rs): Storage is the storage as the contracts see it, Maps what `step` leaves
--   in the maps for the feedbacks, with the global arrays as functions of the index and the
--   registered middlewares as a parameter. Calls is `call_allow_control_leak` with
--   `call_forbid_control_leak`, Calls/Leaks the frames it leaves.
-- * Feedback (src/feedback.rs): Dataflow, Cmp and Oracles, one for each feedback. Dataflow/Flows
--   joins the steps of the host and the dataflow feedback.
-- * Vm (src/evm/vm.rs): State has `EVMState` and the suspended executions, Executor
--   `execute_from_pc` and Transaction `execute_abi`, with the interpreter's loop, its middlewares
--   and its memory as a parameter. The loop over suspended executions takes fuel: one more than
--   their number is enough, by execute_abi-Ends.
-- * Concolic (src/evm/concolic): Expr and Simplify are expr.rs, with the joining of selects; the
--   others are concolic_host.rs: Memory the symbolic memory, Solving the translation to Z3 (a
--   parameter) and the rounds of `solve`, Host the callbacks `on_step` and `on_return` with the
--   frames of calls (State) and the choice of the arm (Opcodes). Simplify/Laws, Memory/Reads,
--   Solving/Meaning, Solving/Solutions, Host/Effects, Host/Frames, Host/Branches and
--   Host/Agreement are about them; Solving/Limits and Host/Storage have what is not kept.
--   Host/Agreement/Instructions has the EVM's instructions by opcode, Host/Agreement/Words the
--   results of the EVM and the laws of Z3's terms that the agreement rests on.
-- Prelude holds lists, maps as association lists, Boolean tests and panics as `none`.
--
-- Machine words: `usize` and `u64` wrap round at 2^64, balances at 2^256, as in a release build.
-- A panic (a failed `unwrap`, an index out of bounds, a failed assertion) is `none`. What the code
-- takes from crates is a parameter: the numbers of `InstructionResult` and the ABI coding of
-- messages (Cheatcode/Outcome), signed words (Cheatcode/Approx), the floating-point numbers, Z3's
-- terms, its solver and the texts of its models (Concolic), the interpreter's loop (Vm), and the
-- run of a called contract.
-- The order in which a hash map lists its entries is that of the association list.
--
-- Not modelled: the EVM interpreter, the fuzzing loop, what each oracle asks, on-chain data, token
-- swaps, the Move support, printing and mutation; of the cheat codes the dispatch by their ABI, the
-- environment, and the messages of the assertions.
pub mod Prelude
pub mod Corpus
pub mod Scheduler
pub mod Abi
pub mod Concolic
pub mod Taint
pub mod Cheatcode
pub mod Bytecode
pub mod Reentrancy
pub mod Host
pub mod Feedback
pub mod Vm
