-- ===== src/Prelude/Tables.antt =====
-- Tables over the opcodes that are compared by running through them.
use Prim.Native.Nat.{ℕ, zero, suc, ◌<◌}
use mathlib.Core.Path.{◌≡◌}
use mathlib.Core.Bool.{Bool, true, ◌&&◌, ◌||◌, not}
use mathlib.Core.Option.{Option, none, some}
use native.Mathlib.Omega.{arith}
use ityfuzz.Prelude.Tests.{◌==◌}

-- Where the flag is set, the effect is the one given, if one is given.
unfoldable pub agree : Bool → ℕ × ℕ → Option (ℕ × ℕ) → Bool
agree f a none = true
agree f a (some e) = not f || (a.0 == e.0 && a.1 == e.1)

pub agree-eq :
    (f : Bool) (a e : ℕ × ℕ) (o : Option (ℕ × ℕ))
    → agree f a o ≡ true
    → f ≡ true
    → o ≡ some e
    → a ≡ e
unfolding agree
agree-eq f a e none h hf ho = cc
agree-eq f a e (some x) h hf ho = ground (arith)

-- A test that all numbers below a bound pass
unfoldable pub up_to : (ℕ → Bool) → ℕ → Bool
up_to p zero = true
up_to p (suc n) = p n && up_to p n

pub up_to-lookup : (p : ℕ → Bool) (n i : ℕ) → up_to p n ≡ true → i < n → p i ≡ true
unfolding up_to
up_to-lookup p zero i h lt = absurd (omega arith)
up_to-lookup p (suc n) i h lt = ground (arith, up_to-lookup p n i)
