-- ===== src/Cheatcode/Caller.antt =====
-- Pranks: prank0, prank1, start_prank0, start_prank1 and stop_prank of common.rs; apply_prank,
-- clean_prank and call of src/evm/host.rs, with the feature `real_balance`, which is on by default.
use ityfuzz.Prelude.{
  ℕ, ◌+◌, ◌-◌, ◌%◌, ◌^◌, ◌<◌, ◌≡◌, refl, Bool, true, false, ◌&&◌, Option, none, some, [], arith,
  ◌==◌, leb, ltb, if◌then◌else◌, get, insert, nat_eq, ap, ◌∙◌, wrapping_add, wrapping_sub,
}
use ityfuzz.Cheatcode.{Address, Prank, FuzzHost, CallInputs, CallResult}
use ityfuzz.Cheatcode.Outcome.{Outside, check_expected}
use ityfuzz.Cheatcode.Checks.{Keeps, check_expected-Keeps}

abbrev pub prank_from :
    FuzzHost → Address → Option Address → Address → Option Address → Bool → Prank
prank_from host old_caller old_origin sender origin single = record {
  old_caller = old_caller;
  old_origin = old_origin;
  new_caller = sender;
  new_origin = origin;
  single_call = single;
  depth = host.call_depth;
}

unfoldable pub prank0 : Address → Address → FuzzHost → FuzzHost
prank0 old_caller sender host = record host {
  prank = some (prank_from host old_caller none sender none true);
}

unfoldable pub prank1 : Address → Address → Address → Address → FuzzHost → FuzzHost
prank1 old_caller old_origin sender origin host = record host {
  prank = some (prank_from host old_caller (some old_origin) sender (some origin) true);
}

unfoldable pub start_prank0 : Address → Address → FuzzHost → FuzzHost
start_prank0 old_caller sender host = record host {
  prank = some (prank_from host old_caller none sender none false);
}

unfoldable pub start_prank1 : Address → Address → Address → Address → FuzzHost → FuzzHost
start_prank1 old_caller old_origin sender origin host = record host {
  prank = some (prank_from host old_caller (some old_origin) sender (some origin) false);
}

unfoldable pub stop_prank : FuzzHost → FuzzHost
stop_prank host = record host { prank = none }

unfoldable pub apply_prank : Address → FuzzHost → CallInputs → FuzzHost × CallInputs
apply_prank contract_caller host input = elim host.prank [
  | none ↦ (host, input)
  | some p ↦
      if leb p.depth host.call_depth && contract_caller == p.old_caller
      then (
        elim p.new_origin [ none ↦ host | some origin ↦ record host { tx_caller = origin } ],
        if host.call_depth == p.depth
            then record input { caller = p.new_caller; source = p.new_caller }
            else input,
      )
      else (host, input)
]

unfoldable pub clean_prank : FuzzHost → FuzzHost
clean_prank host = elim host.prank [
  | none ↦ host
  | some p ↦
      if host.call_depth == p.depth
      then (let restored : FuzzHost = elim p.old_origin [
        | none ↦ host
        | some origin ↦ record host { tx_caller = origin }
      ] in
          if p.single_call then record restored { prank = none } else restored)
      else host
]

-- Arithmetic of 256-bit words
abbrev pub word256 : ℕ
word256 = 2 ^ 256

abbrev pub balance_of : Address → FuzzHost → ℕ
balance_of account host = elim (get account host.balances) [ none ↦ host.next_slot | some b ↦ b ]

-- The transfer of a call's value; `none` when the sender has less, whose balance is then known.
unfoldable pub transfer : CallInputs → FuzzHost → Option FuzzHost
transfer input host =
    let current = balance_of input.source host in
    if ltb current input.value
    then none
    else (let paid : FuzzHost = record host {
      balances = insert input.source (current - input.value) host.balances;
    } in
        some (record paid {
          balances =
              insert input.target ((balance_of input.target paid + input.value) % word256)
                paid.balances;
        }))

-- The host once the sender's unknown balance has been set.
unfoldable pub touch_sender : CallInputs → FuzzHost → FuzzHost
touch_sender input host = elim (get input.source host.balances) [
  | some b ↦ host
  | none ↦ record host { balances = insert input.source host.next_slot host.balances }
]

-- What `call` does with the callee's result.
unfoldable pub leave : Outside → CallInputs → FuzzHost × CallResult → FuzzHost × CallResult
unfolding clean_prank
leave o input (host, res) =
    let left : FuzzHost = record host { call_depth = wrapping_sub host.call_depth 1 } in
    let (checked, res') = check_expected o input left res in (clean_prank checked, res')

abbrev pub entered : FuzzHost → FuzzHost
entered host = record host { call_depth = wrapping_add host.call_depth 1 }

-- `call`, before the middlewares' `on_return`; `callee` is the run of the called contract.
unfoldable pub call :
    Outside
    → (FuzzHost → CallInputs → FuzzHost × CallResult)
    → Address
    → CallInputs
    → FuzzHost
    → FuzzHost × CallResult
unfolding apply_prank transfer touch_sender leave
call o callee contract_caller input host =
    let (pranked, input') = apply_prank contract_caller host input in
    elim (if input'.value == 0 then some (entered pranked) else transfer input' (entered pranked)) [
      | none ↦ (
        touch_sender input' (entered pranked),
        record { result = o.revert; gas = 0; retdata = [] },
      )
      | some paid ↦ leave o input' (callee paid input')
    ]

leave-restores :
    (o : Outside) (input : CallInputs) (host : FuzzHost) (res : CallResult) (p : Prank)
    (depth origin : ℕ)
    → host.prank ≡ some p
    → p.depth ≡ depth
    → host.call_depth ≡ depth + 1
    → depth + 1 < 2 ^ 64
    → p.single_call ≡ true
    → p.old_origin ≡ some origin
    → ((leave o input (host, res)).0.prank ≡ none)
      × ((leave o input (host, res)).0.tx_caller ≡ origin)
      × ((leave o input (host, res)).0.call_depth ≡ depth)
unfolding leave clean_prank Keeps
leave-restores o input host res p depth origin hp hd hc lt hs ho =
    let left : FuzzHost = record host { call_depth = wrapping_sub host.call_depth 1 } in
    let kept : Keeps left (check_expected o input left res).0 =
      check_expected-Keeps o input left res in
    let back : wrapping_sub host.call_depth 1 ≡ depth = omega arith in ground (arith)

abbrev pub pranked_input : Address → CallInputs → CallInputs
pranked_input sender input = record input { caller = sender; source = sender }

abbrev pub pranked_host : Address → Address → Address → FuzzHost → FuzzHost
pranked_host caller sender origin host = record host {
  prank = some (prank_from host caller (some host.tx_caller) sender (some origin) true);
  tx_caller = origin;
  call_depth = host.call_depth + 1;
}

call_enters :
    (o : Outside) (callee : FuzzHost → CallInputs → FuzzHost × CallResult)
    (caller sender origin : Address) (input : CallInputs) (host : FuzzHost)
    → input.value ≡ 0
    → host.call_depth + 1 < 2 ^ 64
    → call o callee caller input (prank1 caller host.tx_caller sender origin host)
      ≡ leave o
          (pranked_input sender input)
          (callee (pranked_host caller sender origin host) (pranked_input sender input))
unfolding call prank1 apply_prank
call_enters o callee caller sender origin input host v d =
    let up : wrapping_add host.call_depth 1 ≡ host.call_depth + 1 = omega arith in ground arith

-- A contract that pranks its caller and origin for one call, and then makes the call: the callee
-- has the new caller as its caller and as the source, and the new origin; after the call the prank
-- is gone, and the origin and the depth are as they were. The call sends no value, the depth stays
-- in 64 bits, and the callee gives back the depth and the prank that it was given.
pub prank1-call :
    (o : Outside) (callee : FuzzHost → CallInputs → FuzzHost × CallResult)
    (caller sender origin : Address) (input : CallInputs) (host : FuzzHost)
    → input.value ≡ 0
    → host.call_depth + 1 < 2 ^ 64
    → ((h : FuzzHost)
        → (i : CallInputs)
        → ((callee h i).0.call_depth ≡ h.call_depth) × ((callee h i).0.prank ≡ h.prank))
    → (call o callee caller input (prank1 caller host.tx_caller sender origin host)
        ≡ leave o
            (pranked_input sender input)
            (callee (pranked_host caller sender origin host) (pranked_input sender input)))
      × ((call o callee caller input (prank1 caller host.tx_caller sender origin host)).0.prank
          ≡ none)
      × ((call o callee caller input (prank1 caller host.tx_caller sender origin host)).0.tx_caller
          ≡ host.tx_caller)
      × ((call o callee caller input (prank1 caller host.tx_caller sender origin host)).0.call_depth
          ≡ host.call_depth)
prank1-call o callee caller sender origin input host v d back =
    let enters = call_enters o callee caller sender origin input host v d in
    let run = callee (pranked_host caller sender origin host) (pranked_input sender input) in
    let (depth, kept) =
      back (pranked_host caller sender origin host) (pranked_input sender input) in
    let (gone, restored, level) =
      leave-restores o (pranked_input sender input) run.0 run.1
        (prank_from host caller (some host.tx_caller) sender (some origin) true) host.call_depth
        host.tx_caller kept refl depth d refl refl in
    (
      enters,
      ap (λ r. r.0.prank) enters ∙ gone,
      ap (λ r. r.0.tx_caller) enters ∙ restored,
      ap (λ r. r.0.call_depth) enters ∙ level,
    )

-- Without a prank, and with a depth that stays in 64 bits, a call whose value is more than the
-- balance of the sender reverts and leaves the call depth raised by one.
pub call_short :
    (o : Outside) (callee : FuzzHost → CallInputs → FuzzHost × CallResult) (caller : Address)
    (input : CallInputs) (host : FuzzHost)
    → host.prank ≡ none
    → host.call_depth + 1 < 2 ^ 64
    → balance_of input.source host < input.value
    → ((call o callee caller input host).1.result ≡ o.revert)
      × ((call o callee caller input host).0.call_depth ≡ host.call_depth + 1)
unfolding call apply_prank transfer touch_sender
call_short o callee caller input host p d lt =
    let up : wrapping_add host.call_depth 1 ≡ host.call_depth + 1 = omega arith in ground arith
