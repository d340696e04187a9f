-- ===== src/Reentrancy/Findings.antt =====
-- What the tracer has recorded after a run, against the run itself.
use ityfuzz.Prelude.{
  ℕ, ◌+◌, ◌-◌, ◌%◌, ◌^◌, ◌<◌, ◌≡◌, refl, Bool, true, false, ◌&&◌, ◌||◌, Option, none, some, List,
  [], ◌∷◌, ◌==◌, leb, ltb, if◌then◌else◌, arith, get, insert, get-insert, pair_eq, pair_beq,
  pair_beq_iff, ◌>>=◌, get_elem?, keep_if, contains, member, member-add_member, or_default, All,
  length, Bool-cases, inl, inr,
}
use ityfuzz.Reentrancy.{
  Slot, ReentrancyData, no_data, StepView, depth_of, merge_sorted_vec_dedup, scan_reads, push_last,
  on_sload, on_sstore, on_step, retain_all, before_execute,
}
use ityfuzz.Reentrancy.Depths.{
  From, put, contains-merge_sorted_vec_dedup, merge_sorted_vec_dedup-From, push_last-scan_reads,
  put-From, contains-put, contains-found_smaller, found_smaller-From, keep_if-From,
  contains-keep_if,
}

abbrev pub depths : Slot → List (Slot × List ℕ) → List ℕ
depths k m = or_default [] (get k m)

depths-insert :
    (slot k : Slot) (v : List ℕ) (m : List (Slot × List ℕ))
    → depths k (insert slot v m) ≡ (if pair_beq slot k then v else depths k m)
depths-insert slot k v m = ground (arith, get-insert slot k v m)

depths-retain_all :
    (n : ℕ) (k : Slot) (m : List (Slot × List ℕ))
    → depths k (retain_all n m) ≡ keep_if (λ x. leb x n) (depths k m)
unfolding retain_all get
depths-retain_all n k [] = refl
depths-retain_all n k ((j, v) ∷ m) = ground (arith, depths-retain_all n k m)

-- An event of a run: a step of the interpreter, or the start of an execution, which may resume
-- one that was suspended.
pub data Event : Type 0 where
  stepped : StepView → Event
  executing : Bool → ℕ → Event

-- A run, the newest event first
unfoldable pub run : List Event → Option ReentrancyData
unfolding on_step before_execute
run [] = some no_data
run (stepped s ∷ es) = run es >>= on_step s
run (executing is_step post_execution ∷ es) =
    run es >>= λ d. some (before_execute is_step post_execution d)

abbrev pub touches : ℕ → Slot → StepView → Bool
touches op k s =
    s.instruction == op
    && elim (get_elem? s.stack 0) [ none ↦ false | some i ↦ pair_beq (s.address, i) k ]

-- The slot was read at the depth.
abbrev pub was_read : Slot → ℕ → List Event → Bool
was_read k n [] = false
was_read k n (stepped s ∷ es) =
    (touches 0x54 k s && depth_of s.post_execution == n) || was_read k n es
was_read k n (executing is_step p ∷ es) = was_read k n es

abbrev pub resumed_depth : ℕ → ℕ
resumed_depth post_execution = (depth_of post_execution + 2 ^ 32 - 1) % 2 ^ 32

-- The slot was read at the depth and then at a larger one, and no shallower execution has been
-- resumed since.
abbrev pub is_pending : Slot → ℕ → List Event → Bool
is_pending k n [] = false
is_pending k n (stepped s ∷ es) =
    (touches 0x54 k s && (ltb n (depth_of s.post_execution) && was_read k n es))
    || is_pending k n es
is_pending k n (executing true p ∷ es) = leb n (resumed_depth p) && is_pending k n es
is_pending k n (executing false p ∷ es) = is_pending k n es

-- A write at a depth that is pending
abbrev pub reentered : Slot → List Event → Bool
reentered k [] = false
reentered k (stepped s ∷ es) =
    (touches 0x55 k s && is_pending k (depth_of s.post_execution) es) || reentered k es
reentered k (executing is_step p ∷ es) = reentered k es

pub record Tracks (es : List Event) (d : ReentrancyData) : Type 0 where
  pub reads : (k : Slot) (n : ℕ) → contains n (depths k d.reads) ≡ was_read k n es
  pub writes : (k : Slot) (n : ℕ) → contains n (depths k d.need_writes) ≡ is_pending k n es
  pub found : (k : Slot) → member k d.found ≡ reentered k es
  pub reads_ascend : (k : Slot) → From 0 (depths k d.reads)
  pub writes_ascend : (k : Slot) → From 0 (depths k d.need_writes)

module _ (n : ℕ) (slot : Slot) (d : ReentrancyData) where
  on_sload-reads :
      (k : Slot)
      → From 0 (depths slot d.reads)
      → depths k (on_sload n slot d).reads
        ≡ (if pair_beq slot k then put n (depths slot d.reads) else depths k d.reads)
  unfolding on_sload
  on_sload-reads k f = ground (
    arith,
    push_last-scan_reads 0 n (depths slot d.reads) f,
    depths-insert slot k (push_last n (scan_reads n (depths slot d.reads)).0) d.reads,
  )

  on_sload-found : (on_sload n slot d).found ≡ d.found
  unfolding on_sload
  on_sload-found = ground arith

  on_sload-writes :
      (k : Slot) (m : ℕ)
      → From 0 (depths slot d.reads)
      → contains m (depths k (on_sload n slot d).need_writes) ≡ (
          (pair_beq slot k && (ltb m n && contains m (depths slot d.reads)))
          || contains m (depths k d.need_writes))
  unfolding on_sload
  on_sload-writes k m f =
      let fs = (scan_reads n (depths slot d.reads)).1 in
      ground (
        arith,
        contains-found_smaller 0 m n (depths slot d.reads) f,
        contains-merge_sorted_vec_dedup m (depths slot d.need_writes) fs,
        depths-insert slot k (merge_sorted_vec_dedup (depths slot d.need_writes) fs) d.need_writes,
        pair_beq_iff slot k,
      )

  on_sload-ascends :
      (k : Slot)
      → From 0 (depths slot d.reads)
      → From 0 (depths slot d.need_writes)
      → From 0 (depths k d.need_writes)
      → From 0 (depths k (on_sload n slot d).need_writes)
  unfolding on_sload
  on_sload-ascends k f g h =
      let fs = (scan_reads n (depths slot d.reads)).1 in
      ground (
        arith,
        found_smaller-From 0 n (depths slot d.reads) f,
        merge_sorted_vec_dedup-From 0 (depths slot d.need_writes) fs,
        depths-insert slot k (merge_sorted_vec_dedup (depths slot d.need_writes) fs) d.need_writes,
      )

  on_sstore-writes : (k : Slot) → depths k (on_sstore n slot d).need_writes ≡ depths k d.need_writes
  unfolding on_sstore
  on_sstore-writes k =
      ground
        (arith, depths-insert slot k (depths slot d.need_writes) d.need_writes, pair_beq_iff slot k)

  on_sstore-reads : (on_sstore n slot d).reads ≡ d.reads
  unfolding on_sstore
  on_sstore-reads = ground arith

  on_sstore-found :
      (k : Slot)
      → member k (on_sstore n slot d).found
        ≡ ((pair_beq slot k && contains n (depths slot d.need_writes)) || member k d.found)
  unfolding on_sstore
  on_sstore-found k = ground (arith, member-add_member k slot d.found)

on_sload-Tracks :
    (s : StepView) (i : ℕ) (es : List Event) (d : ReentrancyData)
    → s.instruction ≡ 0x54
    → get_elem? s.stack 0 ≡ some i
    → Tracks es d
    → Tracks (stepped s ∷ es) (on_sload (depth_of s.post_execution) (s.address, i) d)
on_sload-Tracks s i es d op top t =
    let slot : Slot = (s.address, i) in
    let n = depth_of s.post_execution in
    record {
      reads = λ k m. ground (
        arith,
        on_sload-reads n slot d k (t.reads_ascend slot),
        t.reads slot m,
        t.reads k m,
        contains-put m n (depths slot d.reads),
        pair_beq_iff slot k,
      );
      writes = λ k m. ground (
        arith,
        on_sload-writes n slot d k m (t.reads_ascend slot),
        t.reads slot m,
        t.writes k m,
        pair_beq_iff slot k,
      );
      found = λ k. ground (arith, on_sload-found n slot d, t.found k);
      reads_ascend = λ k. ground (
        arith,
        on_sload-reads n slot d k (t.reads_ascend slot),
        t.reads_ascend k,
        put-From 0 n (depths slot d.reads) (omega arith) (t.reads_ascend slot),
      );
      writes_ascend = λ k.
          on_sload-ascends n slot d k (t.reads_ascend slot) (t.writes_ascend slot)
            (t.writes_ascend k);
    }

on_sstore-Tracks :
    (s : StepView) (i : ℕ) (es : List Event) (d : ReentrancyData)
    → s.instruction ≡ 0x55
    → get_elem? s.stack 0 ≡ some i
    → Tracks es d
    → Tracks (stepped s ∷ es) (on_sstore (depth_of s.post_execution) (s.address, i) d)
on_sstore-Tracks s i es d op top t =
    let slot : Slot = (s.address, i) in
    let n = depth_of s.post_execution in
    record {
      reads = λ k m. ground (arith, on_sstore-reads n slot d, t.reads k m);
      writes = λ k m. ground (arith, on_sstore-writes n slot d k, t.writes k m);
      found = λ k.
          ground
            (arith, on_sstore-found n slot d k, t.writes slot n, t.found k, pair_beq_iff slot k);
      reads_ascend = λ k. ground (arith, on_sstore-reads n slot d, t.reads_ascend k);
      writes_ascend = λ k. ground (arith, on_sstore-writes n slot d k, t.writes_ascend k);
    }

before_execute-Tracks :
    (is_step : Bool) (p : ℕ) (es : List Event) (d : ReentrancyData)
    → Tracks es d
    → Tracks (executing is_step p ∷ es) (before_execute is_step p d)
unfolding before_execute
before_execute-Tracks false p es d t = record {
  reads = t.reads;
  writes = t.writes;
  found = t.found;
  reads_ascend = t.reads_ascend;
  writes_ascend = t.writes_ascend;
}
before_execute-Tracks true p es d t =
    let n = resumed_depth p in
    record {
      reads = t.reads;
      writes = λ k m. ground (
        arith,
        depths-retain_all n k d.need_writes,
        t.writes k m,
        contains-keep_if m n (depths k d.need_writes),
      );
      found = t.found;
      reads_ascend = t.reads_ascend;
      writes_ascend = λ k. ground (
        arith,
        depths-retain_all n k d.need_writes,
        keep_if-From 0 n (depths k d.need_writes) (t.writes_ascend k),
      );
    }

other-Tracks :
    (s : StepView) (es : List Event) (d : ReentrancyData)
    → (s.instruction == 0x54) ≡ false
    → (s.instruction == 0x55) ≡ false
    → Tracks es d
    → Tracks (stepped s ∷ es) d
other-Tracks s es d a b t = record {
  reads = λ k m. ground (arith, t.reads k m);
  writes = λ k m. ground (arith, t.writes k m);
  found = λ k. ground (arith, t.found k);
  reads_ascend = t.reads_ascend;
  writes_ascend = t.writes_ascend;
}

-- A load or a store has its slot on the stack.
abbrev pub HasSlot : Event → Type 0
HasSlot (stepped s) = (s.instruction == 0x54 || s.instruction == 0x55) ≡ true → 0 < length s.stack
HasSlot (executing is_step p) = Unit

top_of : (xs : List ℕ) → 0 < length xs → (i : ℕ) × (get_elem? xs 0 ≡ some i)
top_of [] h = absurd (omega arith)
top_of (i ∷ xs) h = (i, refl)

on_step-Tracks :
    (s : StepView) (es : List Event) (d : ReentrancyData)
    → HasSlot (stepped s)
    → Tracks es d
    → (d' : ReentrancyData) × (on_step s d ≡ some d') × Tracks (stepped s ∷ es) d'
unfolding on_step
on_step-Tracks s es d has t = elim (Bool-cases (s.instruction == 0x54)) [
  | inl load ↦
      let (i, top) = top_of s.stack (has (ground arith)) in
      (
        on_sload (depth_of s.post_execution) (s.address, i) d,
        ground arith,
        on_sload-Tracks s i es d (ground arith) top t,
      )
  | inr other ↦ elim (Bool-cases (s.instruction == 0x55)) [
    | inl store ↦
        let (i, top) = top_of s.stack (has (ground arith)) in
        (
          on_sstore (depth_of s.post_execution) (s.address, i) d,
          ground arith,
          on_sstore-Tracks s i es d (ground arith) top t,
        )
    | inr rest ↦ (d, ground arith, other-Tracks s es d other rest t)
  ]
]

-- A run whose loads and stores have their slots on the stack does not panic. Afterwards the read
-- depths of a slot are those at which it was loaded, its pending depths are those at which it was
-- loaded before a deeper load, unless a shallower execution was resumed since, the lists are
-- strictly ascending, and a slot is found exactly when it was written at a depth then pending.
pub run-Tracks :
    (es : List Event) → All HasSlot es → (d : ReentrancyData) × (run es ≡ some d) × Tracks es d
unfolding run
run-Tracks [] h = (
  no_data,
  refl,
  record {
    reads = λ k n. unfold get in refl;
    writes = λ k n. unfold get in refl;
    found = λ k. unfold member in refl;
    reads_ascend = λ k. unfold get in tt;
    writes_ascend = λ k. unfold get in tt;
  },
)
run-Tracks (stepped s ∷ es) h =
    let (d, e, t) = run-Tracks es h.1 in
    let (d', e', t') = on_step-Tracks s es d h.0 t in (d', ground arith, t')
run-Tracks (executing is_step p ∷ es) h =
    let (d, e, t) = run-Tracks es h.1 in
    (before_execute is_step p d, ground arith, before_execute-Tracks is_step p es d t)
