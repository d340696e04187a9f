-- ===== src/Reentrancy.antt =====
-- `ReentrancyTracer` of src/evm/middlewares/reentrancy.rs: reads and writes of storage slots by the
-- number of suspended executions. A map is an association list; `none` is a panic.
pub mod Depths
pub mod Findings
mod Tests
use ityfuzz.Prelude.{
  ℕ, zero, suc, ◌+◌, ◌-◌, ◌%◌, ◌^◌, Bool, true, false, Option, none, some, List, [], ◌∷◌, ◌++◌,
  ◌==◌, leb, ltb, if◌then◌else◌, get, insert, pair_eq, ◌>>=◌, get_elem?, last?, keep_if, contains,
  add_member, or_default,
}
use Prim.Native.Nat.{compare, Ordering}

-- An address and a slot
abbrev pub Slot : Type 0
Slot = ℕ × ℕ

pub record ReentrancyData : Type 0 where
  pub reads : List (Slot × List ℕ)
  pub need_writes : List (Slot × List ℕ)
  pub found : List Slot

abbrev pub no_data : ReentrancyData
no_data = record { reads = []; need_writes = []; found = [] }

-- The loop with an element left on the side of `dst`; `rest` merges what comes after it.
unfoldable pub merge_head : ℕ → (List ℕ → List ℕ) → List ℕ → List ℕ
merge_head val_dst rest [] = val_dst ∷ rest []
merge_head val_dst rest (val_another ∷ another) = elim (compare val_dst val_another) [
  | Ordering.lt ↦ val_dst ∷ rest (val_another ∷ another)
  | Ordering.gt ↦ val_another ∷ merge_head val_dst rest another
  | Ordering.eq ↦ val_dst ∷ rest another
]

unfoldable pub merge_sorted_vec_dedup : List ℕ → List ℕ → List ℕ
unfolding merge_head
merge_sorted_vec_dedup [] another = another
merge_sorted_vec_dedup (val_dst ∷ dst) another =
    merge_head val_dst (merge_sorted_vec_dedup dst) another

-- What a step of the interpreter shows: the instruction, the contract's address, the stack with
-- its top first, and the length of `post_execution`.
pub record StepView : Type 0 where
  pub instruction : ℕ
  pub address : ℕ
  pub stack : List ℕ
  pub post_execution : ℕ

abbrev pub depth_of : ℕ → ℕ
depth_of post_execution = post_execution % 2 ^ 32

-- The loop over the read depths, with the insertion in it: the new depths and `found_smaller`
unfoldable pub scan_reads : ℕ → List ℕ → List ℕ × List ℕ
scan_reads depth [] = ([], [])
scan_reads depth (element ∷ entry) = elim (compare element depth) [
  | Ordering.lt ↦ (element ∷ (scan_reads depth entry).0, element ∷ (scan_reads depth entry).1)
  | Ordering.eq ↦ (element ∷ entry, [])
  | Ordering.gt ↦ (depth ∷ element ∷ entry, [])
]

-- `if entry.is_empty() || *entry.last().unwrap() < depth { entry.push(depth); }`
unfoldable pub push_last : ℕ → List ℕ → List ℕ
push_last depth entry = elim (last? entry) [
  | none ↦ entry ++ (depth ∷ [])
  | some last ↦ if ltb last depth then entry ++ (depth ∷ []) else entry
]

-- SLOAD
unfoldable pub on_sload : ℕ → Slot → ReentrancyData → ReentrancyData
unfolding scan_reads push_last merge_sorted_vec_dedup
on_sload depth slot d =
    let (entry, found_smaller) = scan_reads depth (or_default [] (get slot d.reads)) in
    let d' = record d { reads = insert slot (push_last depth entry) d.reads } in
    elim found_smaller [
      | [] ↦ d'
      | element ∷ more ↦ record d' {
        need_writes =
            insert slot
              (merge_sorted_vec_dedup (or_default [] (get slot d.need_writes)) (element ∷ more))
              d.need_writes;
      }
    ]

-- SSTORE
unfoldable pub on_sstore : ℕ → Slot → ReentrancyData → ReentrancyData
on_sstore depth slot d =
    let write_entry = or_default [] (get slot d.need_writes) in
    let d' = record d { need_writes = insert slot write_entry d.need_writes } in
    if contains depth write_entry then record d' { found = add_member slot d.found } else d'

unfoldable pub on_step : StepView → ReentrancyData → Option ReentrancyData
unfolding on_sload on_sstore
on_step s d =
    if s.instruction == 0x54
    then (get_elem? s.stack 0 >>= λ slot_idx.
        some (on_sload (depth_of s.post_execution) (s.address, slot_idx) d))
    else if s.instruction == 0x55
    then (get_elem? s.stack 0 >>= λ slot_idx.
        some (on_sstore (depth_of s.post_execution) (s.address, slot_idx) d))
    else some d

-- `depths.retain(|&x| x <= depth)` on each value
unfoldable pub retain_all : ℕ → List (Slot × List ℕ) → List (Slot × List ℕ)
retain_all depth [] = []
retain_all depth ((slot, depths) ∷ m) =
    (slot, keep_if (λ x. leb x depth) depths) ∷ retain_all depth m

-- The subtraction wraps round in a release build.
unfoldable pub before_execute : Bool → ℕ → ReentrancyData → ReentrancyData
unfolding retain_all
before_execute is_step post_execution d =
    if is_step
    then record d {
      need_writes = retain_all ((depth_of post_execution + 2 ^ 32 - 1) % 2 ^ 32) d.need_writes;
    }
    else d
