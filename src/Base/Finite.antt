-- ===== src/Base/Finite.antt =====
-- Checking a test below a bound.
use Prim.Native.Nat.{ℕ, zero, suc, ◌<◌}
use mathlib.Core.Path.{◌≡◌}
use mathlib.Core.Bool.{Bool, true, ◌&&◌}
use native.Mathlib.Omega.{arith}

unfoldable pub passes : (ℕ → Bool) → ℕ → Bool
passes test zero = true
passes test (suc bound) = passes test bound && test bound

pub passes_at :
    (test : ℕ → Bool) (bound value : ℕ)
    → value < bound
    → passes test bound ≡ true
    → test value ≡ true
unfolding passes
passes_at test zero value less done = elim less [ ]
passes_at test (suc bound) value less done = ground (arith, passes_at test bound value)
