-- ===== src/Vm/Transaction/Ends.antt =====
-- The loop over the suspended executions ends.
use ityfuzz.Prelude.{
  ℕ, zero, suc, ◌+◌, ◌-◌, ◌%◌, ◌^◌, ◌≤◌, ◌<◌, ◌≡◌, ◌⊎◌, refl, ◌∙◌, Bool, true, false, ◌&&◌, Option,
  none, some, List, [], ◌∷◌, ltb, if◌then◌else◌, arith, length, All, Bool-cases, Option-cases, inl,
  inr, or_default,
}
use ityfuzz.Vm.State.{
  InstructionResult, CallContext, Interpreter, SinglePostExecution, get_call_ctx, PostExecutionCtx,
  EvmState, set_balance, stop,
}
use ityfuzz.Vm.Executor.{
  VmHost, Input, Intermediate, Run, Machine, is_call_success, is_reverted_or_control_leak, set_up,
  no_code, resumed, interpreter_for, result_of, repeat_runs, run_all, execute_from_pc,
}
use ityfuzz.Vm.Transaction.{
  ExecutionResult, pay, after_hash, must_step, returns_or_stops, leaks, finish, run_frames,
  take_step, call_contract, transact, execute_abi, max_post_execution, data_of, failed, suspend,
}

-- Neither the interpreter nor the middlewares touch the suspended executions, and the middlewares
-- leave the hash in front of the data.
pub record MachineLaws (m : Machine) : Type 0 where
  pub run_keeps :
      (interp : Interpreter) (host : VmHost)
      → (m.run_inspect interp host).host.evmstate.post_execution ≡ host.evmstate.post_execution
  pub before_keeps :
      (is_step : Bool) (bytes : List ℕ) (s : EvmState)
      → (m.before_execute is_step bytes s).1.post_execution ≡ s.post_execution
  pub before_bytes :
      (is_step : Bool) (bytes : List ℕ) (s : EvmState)
      → 4 ≤ length bytes
      → 4 ≤ length (m.before_execute is_step bytes s).0

-- The new state has the suspended executions of the old one, or none.
abbrev Follows : EvmState → Intermediate → Type 0
Follows s res =
    (res.new_state.post_execution ≡ s.post_execution) ⊎ (res.new_state.post_execution ≡ [])

abbrev pub HasFrames : PostExecutionCtx → Type 0
HasFrames ctx = 0 < length ctx.pes

Follows-length :
    (s : EvmState) (res : Intermediate)
    → Follows s res
    → length res.new_state.post_execution ≤ length s.post_execution
Follows-length s res (inl same) = rw same (omega arith)
Follows-length s res (inr gone) = rw gone (omega arith)

Follows-All :
    (s : EvmState) (res : Intermediate)
    → Follows s res
    → All HasFrames s.post_execution
    → All HasFrames res.new_state.post_execution
Follows-All s res (inl same) h = rw same h
Follows-All s res (inr gone) h = rw gone tt

enough_bytes : (bytes : List ℕ) → 4 ≤ length bytes → ltb (length bytes) 4 ≡ false
enough_bytes bytes h = ground arith

first_of :
    (xs : List PostExecutionCtx)
    → 0 < length xs
    → (ctx : PostExecutionCtx) × (rest : List PostExecutionCtx) × (xs ≡ ctx ∷ rest)
first_of [] h = absurd (omega arith)
first_of (ctx ∷ rest) h = (ctx, rest, refl)

All-first :
    (ctx : PostExecutionCtx) (rest xs : List PostExecutionCtx)
    → xs ≡ ctx ∷ rest
    → All HasFrames xs
    → HasFrames ctx × All HasFrames rest
All-first ctx rest xs e h = rw e at h

must_step-some : (xs : List PostExecutionCtx) → must_step xs ≡ true → 0 < length xs
must_step-some [] h = cc
must_step-some (x ∷ xs) h = omega arith

must_step_nil : must_step [] ≡ true → ⊥
must_step_nil h = cc

pay-post_execution :
    (input : Input) (s s' : EvmState) → pay input s ≡ some s' → s'.post_execution ≡ s.post_execution
unfolding pay set_balance
pay-post_execution input s s' h = ground arith

suspend-length :
    (host : VmHost) (r : Intermediate) (t : EvmState)
    → length r.new_state.post_execution ≤ max_post_execution
    → suspend host r ≡ some t
    → length t.post_execution ≤ max_post_execution
unfolding suspend
suspend-length host r t le h = elim (Bool-cases (leaks r.ret)) [
  | inl leak ↦ elim (Bool-cases (ltb max_post_execution (length r.new_state.post_execution + 1))) [
    | inl full ↦ ground (arith, h, leak, full)
    | inr free ↦ ground (arith, h, leak, free)
  ]
  | inr still ↦ ground (arith, h, still, le)
]

finish-length :
    (s : EvmState) (host : VmHost) (r : Intermediate) (s' : EvmState)
    → length r.new_state.post_execution ≤ max_post_execution
    → (finish s host r).new_state ≡ some s'
    → length s'.post_execution ≤ max_post_execution
unfolding finish
finish-length s host r s' le h = elim (Option-cases (suspend host r)) [
  | inl full ↦ ground (arith, h, full)
  | inr (t, e) ↦ ground (arith, h, e, suspend-length host r t le e)
]

module _ (m : Machine) (laws : MachineLaws m) where
  repeat_runs-keeps :
      (n : ℕ) (ret : InstructionResult) (interp : Interpreter) (host : VmHost)
      → (repeat_runs m n ret interp host).host.evmstate.post_execution
        ≡ host.evmstate.post_execution
  unfolding repeat_runs
  repeat_runs-keeps zero ret interp host = refl
  repeat_runs-keeps (suc n) ret interp host =
      let r = m.run_inspect interp host in
      let cleared = record r.interp { stack = []; memory = []; program_counter = 0 } in
      let kept = laws.run_keeps interp host in
      elim (Bool-cases (is_call_success r.ret)) [
        | inl fine ↦ rw fine (repeat_runs-keeps n r.ret cleared r.host ∙ kept)
        | inr bad ↦ rw bad kept
      ]

  run_all-keeps :
      (repeats : ℕ) (interp : Interpreter) (host : VmHost)
      → (run_all m repeats interp host).host.evmstate.post_execution ≡ host.evmstate.post_execution
  unfolding run_all
  run_all-keeps repeats interp host =
      let n = (repeats + 2 ^ 64 - 1) % 2 ^ 64 in
      let before = repeat_runs m n stop interp host in
      let kept = repeat_runs-keeps n stop interp host in
      elim (Bool-cases (is_call_success before.ret)) [
        | inl fine ↦ rw fine (laws.run_keeps before.interp before.host ∙ kept)
        | inr bad ↦ rw bad kept
      ]

  resumed-total :
      (pe : SinglePostExecution) (bytes : List ℕ)
      → 4 ≤ length bytes
      → (interp : Interpreter) × (resumed m pe bytes ≡ some interp)
  unfolding resumed
  resumed-total pe bytes h = elim (Option-cases (resumed m pe bytes)) [
    | inl none_there ↦ absurd (ground (arith, enough_bytes bytes h, none_there))
    | inr there ↦ there
  ]

  interpreter_for-total :
      (bytes : List ℕ) (ctx : CallContext) (post_exec : Option SinglePostExecution)
      → (post_exec ≡ none) ⊎ (4 ≤ length bytes)
      → (interp : Interpreter) × (interpreter_for m bytes ctx post_exec ≡ some interp)
  unfolding interpreter_for
  interpreter_for-total bytes ctx none h = (m.new_interpreter bytes ctx, refl)
  interpreter_for-total bytes ctx (some pe) (inl h) = cc h
  interpreter_for-total bytes ctx (some pe) (inr h) = resumed-total pe bytes h

  result_of-keeps : (r : Run) → (result_of m r).0.new_state ≡ r.host.evmstate
  unfolding result_of
  result_of-keeps r = refl

  execute_from_pc-Follows :
      (ctx : CallContext) (s : EvmState) (bytes : List ℕ) (input : Input)
      (post_exec : Option SinglePostExecution) (cleanup : Bool) (host : VmHost)
      → (post_exec ≡ none) ⊎ (4 ≤ length bytes)
      → (r : Intermediate × VmHost) × (execute_from_pc m ctx s bytes input post_exec cleanup host
          ≡ some r)
        × Follows s r.0
  unfolding execute_from_pc
  execute_from_pc-Follows ctx s bytes input post_exec cleanup host h =
      let started = set_up cleanup input s host in
      let (interp, e) = interpreter_for-total bytes ctx post_exec h in
      let repeats : ℕ = elim post_exec [ none ↦ input.repeat | some pe ↦ 1 ] in
      let r = run_all m repeats interp started in
      elim (Bool-cases (started.has_code ctx.code_address)) [
        | inl code ↦
            let kept = run_all-keeps repeats interp started in
            (result_of m r, ground (arith, code, e), inl (unfold result_of in kept))
        | inr missing ↦ ((no_code, started), ground (arith, missing), inr refl)
      ]

  run_frames-Follows :
      (pes : List SinglePostExecution) (bytes : List ℕ) (s : EvmState) (input : Input)
      (cleanup : Bool) (host : VmHost) (local_res : Option Intermediate)
      → 4 ≤ length bytes
      → (0 < length pes) ⊎ ((res : Intermediate) × (local_res ≡ some res) × Follows s res)
      → (r : Intermediate × VmHost) × (run_frames m pes bytes s input cleanup host local_res
          ≡ some r)
        × Follows s r.0
  unfolding run_frames
  run_frames-Follows [] bytes s input cleanup host local_res h (inl pos) = absurd (omega arith)
  run_frames-Follows [] bytes s input cleanup host local_res h (inr (res, e, f)) =
      ((res, host), ground (arith, e), f)
  run_frames-Follows (pe ∷ pes) bytes s input cleanup host local_res h start =
      let pushed = record pe { stack = m.push 1 pe.stack } in
      let ctx = get_call_ctx pushed in
      let (r, e, f) =
        execute_from_pc-Follows ctx s bytes input (some pushed) cleanup host (inr h) in
      elim (Bool-cases (is_reverted_or_control_leak r.0.ret)) [
        | inl ends ↦ (r, ground (arith, e, ends), f)
        | inr goes_on ↦
            let (r', e', f') =
              run_frames-Follows pes (after_hash r.0.output) s input false r.1 (some r.0)
                (omega arith) (inr (r.0, refl, f)) in
            (r', ground (arith, e, goes_on, e'), f')
      ]

  take_step-Follows :
      (bytes : List ℕ) (s : EvmState) (input : Input) (cleanup : Bool) (host : VmHost)
      (ctx : PostExecutionCtx) (rest : List PostExecutionCtx)
      → s.post_execution ≡ ctx ∷ rest
      → HasFrames ctx
      → 4 ≤ length bytes
      → (r : Intermediate × VmHost × EvmState) × (take_step m bytes s input cleanup host ≡ some r)
        × (r.2.post_execution ≡ rest)
        × Follows r.2 r.0
  unfolding take_step
  take_step-Follows bytes s input cleanup host ctx rest e frames h =
      let popped = record s { post_execution = rest } in
      let (r, runs, f) =
        run_frames-Follows ctx.pes bytes popped input cleanup host none h (inl frames) in
      ((r.0, r.1, popped), ground (arith, e, runs), refl, f)

  call_contract-Follows :
      (bytes : List ℕ) (s : EvmState) (input : Input) (cleanup : Bool) (host : VmHost)
      → (r : Intermediate × VmHost × EvmState) × (call_contract m bytes s input cleanup host
          ≡ some r)
        × (r.2 ≡ s)
        × Follows s r.0
  unfolding call_contract
  call_contract-Follows bytes s input cleanup host =
      let ctx : CallContext = record {
        address = input.contract;
        caller = input.caller;
        apparent_value = or_default 0 input.txn_value;
        code_address = input.contract;
      } in
      let (r, e, f) = execute_from_pc-Follows ctx s bytes input none cleanup host (inl refl) in
      ((r.0, r.1, s), ground (arith, e), refl, f)

  -- What a round of the loop leaves: the state that is gone on with, and the result's
  abbrev Round : EvmState → Bool → Intermediate × VmHost × EvmState → Type 0
  Round s is_step r =
      (length r.2.post_execution + (if is_step then 1 else 0) ≡ length s.post_execution)
      × All HasFrames r.2.post_execution
      × Follows r.2 r.0

  round :
      (is_step : Bool) (bytes : List ℕ) (s : EvmState) (input : Input) (cleanup : Bool)
      (host : VmHost)
      → All HasFrames s.post_execution
      → (is_step ≡ true → (0 < length s.post_execution) × (4 ≤ length bytes))
      → (r : Intermediate × VmHost × EvmState) × ((if is_step
            then take_step m bytes s input cleanup host
            else call_contract m bytes s input cleanup host)
          ≡ some r)
        × Round s is_step r
  round false bytes s input cleanup host frames h =
      let (r, e, same, f) = call_contract-Follows bytes s input cleanup host in
      (r, e, (ground (arith, same), rw same frames, rw same f))
  round true bytes s input cleanup host frames h =
      let (ctx, rest, e) = first_of s.post_execution (h refl).0 in
      let (r, runs, left, f) =
        take_step-Follows bytes s input cleanup host ctx rest e
          (All-first ctx rest s.post_execution e frames).0 (h refl).1 in
      (
        r,
        runs,
        (ground (arith, left, e), rw left (All-first ctx rest s.post_execution e frames).1, f),
      )

  -- A result that is followed by another round has a suspended execution left.
  more_left :
      (s : EvmState) (res : Intermediate)
      → Follows s res
      → must_step res.new_state.post_execution ≡ true
      → 0 < length s.post_execution
  more_left s res (inl same) h = must_step-some s.post_execution (rw same at h)
  more_left s res (inr gone) h = absurd (must_step_nil (rw gone at h))

  transact-Ends :
      (fuel : ℕ) (is_step : Bool) (cleanup : Bool) (bytes : List ℕ) (s : EvmState) (input : Input)
      (host : VmHost)
      → 0 < fuel
      → length s.post_execution + (if is_step then 0 else 1) ≤ fuel
      → All HasFrames s.post_execution
      → 4 ≤ length bytes
      → (is_step ≡ true → 0 < length s.post_execution)
      → (r : Intermediate × VmHost × EvmState) × (transact m fuel is_step cleanup bytes s input host
          ≡ some r)
        × (length r.0.new_state.post_execution ≤ length s.post_execution)
        × All HasFrames r.0.new_state.post_execution
  unfolding transact
  transact-Ends zero is_step cleanup bytes s input host pos room frames h has = absurd (omega arith)
  transact-Ends (suc fuel) is_step cleanup bytes s input host pos room frames h has =
      let before = m.before_execute is_step bytes s in
      let same = laws.before_keeps is_step bytes s in
      let long = laws.before_bytes is_step bytes s h in
      let (r, runs, (shorter, frames', f)) =
        round is_step before.0 before.1 input cleanup host (rw same frames)
          (λ e. (rw same (has e), long)) in
      let count : length before.1.post_execution ≡ length s.post_execution = rw same refl in
      elim (Bool-cases (returns_or_stops r.0.ret && must_step r.0.new_state.post_execution)) [
        | inl more ↦
            let left = more_left r.2 r.0 f (ground (arith, more)) in
            let fits : length r.2.post_execution ≤ fuel = ground (arith, shorter, count, room) in
            let (r', runs', bound, frames'') =
              transact-Ends fuel true false (after_hash r.0.output) r.2 input r.1 (omega arith)
                (omega arith) frames' (omega arith) (λ _. left) in
            (r', ground (arith, runs, more, runs'), ground (arith, bound, shorter, count), frames'')
        | inr done ↦
            let bound = Follows-length r.2 r.0 f in
            (
              r,
              ground (arith, runs, done),
              ground (arith, bound, shorter, count),
              Follows-All r.2 r.0 f frames',
            )
      ]

  -- With one more round of fuel than executions are suspended, frames in each of them, and four
  -- bytes of data, an input that steps only where an execution is suspended gives a result; and
  -- where ten executions at most were suspended, ten at most are suspended in the new state.
  pub execute_abi-Ends :
      (fuel : ℕ) (input : Input) (host : VmHost)
      → length input.state.post_execution + 1 ≤ fuel
      → All HasFrames input.state.post_execution
      → 4 ≤ length (data_of input)
      → (input.is_step ≡ true → 0 < length input.state.post_execution)
      → (res : ExecutionResult) × (host' : VmHost) × (execute_abi m fuel input host
          ≡ some (res, host'))
        × (length input.state.post_execution ≤ max_post_execution
            → (s : EvmState) → res.new_state ≡ some s
            → length s.post_execution ≤ max_post_execution)
  unfolding execute_abi
  execute_abi-Ends fuel input host room frames h has = elim (Option-cases (pay input input.state)) [
    | inl poor ↦ (failed [], host, ground (arith, poor), λ le s e. cc e)
    | inr (paid, e) ↦
        let same = pay-post_execution input input.state paid e in
        let count : length paid.post_execution ≡ length input.state.post_execution = rw same refl in
        let (r, runs, bound, _) =
          transact-Ends fuel input.is_step true (data_of input) paid input host (omega arith)
            (ground (arith, count, room)) (rw same frames) h (λ step. rw same (has step)) in
        (
          finish r.2 r.1 r.0,
          r.1,
          ground (arith, e, runs),
          λ le s. finish-length r.2 r.1 r.0 s (omega (arith, bound, count, le)),
        )
  ]
