-- ===== src/Prelude/Tables.antt =====
-- A Boolean test evaluated at all numbers below a bound, for tables of a byte's values.
use Prim.Native.Nat.{ℕ, zero, suc, ◌<◌}
use mathlib.Core.Path.{◌≡◌}
use mathlib.Core.Bool.{Bool, true, false}
use native.Mathlib.Omega.{arith}

unfoldable pub every_below : (ℕ → Bool) → ℕ → Bool
every_below test zero = true
every_below test (suc bound) =
    let smaller = every_below test bound in elim (test bound) [ true ↦ smaller | false ↦ false ]

pub every_below-at :
    (test : ℕ → Bool) (x bound : ℕ) → x < bound → every_below test bound ≡ true → test x ≡ true
unfolding every_below
every_below-at test x zero below all = absurd (omega arith)
every_below-at test x (suc bound) below all = ground (arith, every_below-at test x bound)
