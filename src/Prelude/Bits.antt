-- ===== src/Prelude/Bits.antt =====
-- A test on every number below a bound, for facts about bits that are settled by evaluation.
use Prim.Native.Nat.{ℕ, zero, suc, ◌<◌}
use mathlib.Core.Path.{◌≡◌}
use mathlib.Core.Bool.{Bool, true, false}
use native.Mathlib.Omega.{arith}
use ece391os.Prelude.Tests.{if◌then◌else◌}

unfoldable pub every : ℕ → (ℕ → Bool) → Bool
every zero test = true
every (suc k) test = let others = every k test in if test k then others else false

pub every_lem :
    (bound : ℕ) (test : ℕ → Bool) (k : ℕ) → every bound test ≡ true → k < bound → test k ≡ true
unfolding every
every_lem zero test k passed below = absurd (omega arith)
every_lem (suc b) test k passed below = ground (arith, every_lem b test k)
