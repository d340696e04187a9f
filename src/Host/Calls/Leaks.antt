-- ===== src/Host/Calls/Leaks.antt =====
-- The frames that a leaking call of src/evm/host.rs leaves in `leak_ctx`.
use ityfuzz.Prelude.{
  ℕ, ◌+◌, ◌%◌, ◌^◌, ◌≡◌, ◌≢◌, refl, Bool, true, false, Option, none, some, List, [], ◌∷◌, ◌++◌,
  ◌==◌, leb, if◌then◌else◌, last?, arith, get, Option-cases, inl, inr, list_eq, nat_eq,
}
use ityfuzz.Vm.State.{InstructionResult, control_leak, Interpreter, from_interp}
use ityfuzz.Host.Calls.{
  CallScheme, plain_call, call_code, delegate_call, static_call, CallInputs, CallMiddlewareReturn,
  continue, return_revert, return_success, CallHost, CallResult, Outside, push_interp,
  record_func_hash, record_call_hash, latent_result, record_target, record_arbitrary, is_arbitrary,
  is_sender, call_forbid_control_leak, is_leak, push_after, exact_targets, selector, call_target,
  call_by_scheme, call_unless, call_allow_control_leak,
}

last?-append : {A : Type 0} (xs : List A) (x : A) → last? (xs ++ (x ∷ [])) ≡ some x
last?-append [] x = refl
last?-append (y ∷ []) x = refl
last?-append (y ∷ z ∷ xs) x = last?-append (z ∷ xs) x

is_zero-false : (n : ℕ) → n ≢ 0 → (n == 0) ≡ false
is_zero-false n h = ground arith

module _ (interp : Interpreter) (out : ℕ × ℕ) where
  -- A result that is a leak has the frame of the caller as the last one.
  unfoldable pub HasFrame : CallHost × CallResult → Type 0
  HasFrame r = is_leak r.1.0 ≡ true → last? r.0.leak_ctx ≡ some (from_interp interp out)

  unfoldable pub Leaks : Option (CallHost × CallResult) → Type 0
  unfolding HasFrame
  Leaks o = (r : CallHost × CallResult) × (o ≡ some r) × HasFrame r

  some-Leaks : (r : CallHost × CallResult) → HasFrame r → Leaks (some r)
  unfolding Leaks
  some-Leaks r h = (r, refl, h)

  if-Leaks :
      (b : Bool) (x y : Option (CallHost × CallResult))
      → Leaks x
      → Leaks y
      → Leaks (if b then x else y)
  if-Leaks true x y h k = h
  if-Leaks false x y h k = k

  push_interp-HasFrame :
      (host : CallHost) (result : CallResult) → HasFrame (push_interp interp out host, result)
  unfolding HasFrame push_interp
  push_interp-HasFrame host result h = refl

  push_after-HasFrame :
      (host : CallHost) (ret : InstructionResult) (bytes : List ℕ)
      → HasFrame (push_after interp out (host, (ret, bytes)))
  unfolding HasFrame push_after
  push_after-HasFrame host ret bytes h =
      rw (h) (last?-append host.leak_ctx (from_interp interp out))

  exact_targets-none :
      (o : Outside) (input : CallInputs) (host : CallHost)
      → o.active_match_ext_call ≡ false
      → exact_targets o input host ≡ none
  unfolding exact_targets
  exact_targets-none o input host e =
      elim (Option-cases (get (selector input) host.hash_to_address)) [
        | inl p ↦ rw (exact_targets, p) refl
        | inr (loc, p) ↦ rw (exact_targets, p, e) refl
      ]

  call_target-Leaks :
      (o : Outside) (input : CallInputs) (host : CallHost)
      → o.active_match_ext_call ≡ false
      → Leaks (call_target o input interp out host)
  unfolding call_target
  call_target-Leaks o input host e =
      let r = call_forbid_control_leak o input host in
      rw (call_target, exact_targets-none o input host e)
        (some-Leaks (push_after interp out r) (push_after-HasFrame r.0 r.1.0 r.1.1))

  call_by_scheme-Leaks :
      (o : Outside) (scheme : CallScheme) (input : CallInputs) (host : CallHost)
      → o.active_match_ext_call ≡ false
      → Leaks (call_by_scheme o scheme input interp out host)
  unfolding call_by_scheme
  call_by_scheme-Leaks o static_call input host e =
      if-Leaks (is_sender o input host) _ _
        (some-Leaks _ (push_interp-HasFrame (record_func_hash o input host) _))
        (call_target-Leaks o input host e)
  call_by_scheme-Leaks o plain_call input host e =
      if-Leaks (is_sender o input host) _ _
        (some-Leaks _ (push_interp-HasFrame (record_func_hash o input host) _))
        (if-Leaks (is_arbitrary input (record_call_hash input host)) _ _
          (some-Leaks _
            (push_interp-HasFrame (record_arbitrary input interp (record_call_hash input host)) _))
          (call_target-Leaks o input (record_call_hash input host) e))
  call_by_scheme-Leaks o call_code input host e = call_target-Leaks o input host e
  call_by_scheme-Leaks o delegate_call input host e = call_target-Leaks o input host e

  latent_result-HasFrame :
      (o : Outside) (actions : List CallMiddlewareReturn) (host : CallHost) (r : CallResult)
      → latent_result o actions ≡ some r
      → HasFrame (host, r)
  unfolding latent_result HasFrame
  latent_result-HasFrame o [] host r h k = cc
  latent_result-HasFrame o (continue ∷ actions) host r h k =
      latent_result-HasFrame o actions host r h k
  latent_result-HasFrame o (return_revert ∷ actions) host r h k = ground (arith, h, k)
  latent_result-HasFrame o (return_success b ∷ actions) host r h k = ground (arith, h, k)

  call_unless-Leaks :
      (result : Option CallResult) (o : Outside) (input : CallInputs) (host : CallHost)
      → ((r : CallResult) → result ≡ some r → HasFrame (host, r))
      → o.active_match_ext_call ≡ false
      → host.pc ≢ 0
      → Leaks (call_unless result o input interp out host)
  unfolding call_unless record_target
  call_unless-Leaks (some r) o input host h e n = some-Leaks (host, r) (h r refl)
  call_unless-Leaks none o input host h e n =
      rw (is_zero-false host.pc n) (call_by_scheme-Leaks o input.scheme input _ e)

  -- A call from a contract at another place than 0 does not panic, and when it ends as a leak the
  -- last frame left is that of the calling contract, where calls are not matched to the contracts
  -- of their selector.
  pub call_allow_control_leak-Leaks :
      (o : Outside) (input : CallInputs) (host : CallHost)
      → o.active_match_ext_call ≡ false
      → host.pc ≢ 0
      → Leaks (call_allow_control_leak o input interp out host)
  unfolding call_allow_control_leak
  call_allow_control_leak-Leaks o input host e n =
      if-Leaks (leb o.call_until ((host.call_count + 1) % 2 ^ 32)) _ _
        (some-Leaks _ (
          push_interp-HasFrame (record host { call_count = (host.call_count + 1) % 2 ^ 32 })
            (control_leak, [])))
        (call_unless-Leaks (latent_result o host.middlewares_latent_call_actions) o input _
          (latent_result-HasFrame o host.middlewares_latent_call_actions _) e n)
