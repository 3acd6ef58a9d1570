-- ===== src/Base/Tables.antt =====
-- Facts about small numbers, by evaluating a test at each of them.
use Prim.Native.Nat.{ℕ, zero, suc, ◌<◌}
use mathlib.Core.Path.{◌≡◌}
use mathlib.Core.Bool.{Bool, true, ◌&&◌}
use native.Mathlib.Omega.{arith}

unfoldable pub holds_below : ℕ → (ℕ → Bool) → Bool
holds_below zero test = true
holds_below (suc n) test = holds_below n test && test n

pub at_each :
    (n : ℕ) (test : ℕ → Bool) → holds_below n test ≡ true → (i : ℕ) → i < n → test i ≡ true
unfolding holds_below
at_each zero test h i l = absurd (omega arith)
at_each (suc n) test h i l = ground (arith, at_each n test (ground arith) i)
