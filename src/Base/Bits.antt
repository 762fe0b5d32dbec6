-- ===== src/Base/Bits.antt =====
-- Facts about bit operations on a small range, checked by evaluation over the range.
pub mod Order
pub mod Xor
pub mod Or
use Prim.Native.Nat.{ℕ, zero, suc, ◌<◌}
use mathlib.Core.Path.{◌≡◌}
use mathlib.Core.Bool.{Bool, true, ◌&&◌}
use native.Mathlib.Omega.{arith}

unfoldable pub all_below : ℕ → (ℕ → Bool) → Bool
all_below zero test = true
all_below (suc k) test = test k && all_below k test

pub all_below_sound :
    (k : ℕ) (test : ℕ → Bool) (i : ℕ) → all_below k test ≡ true → i < k → test i ≡ true
unfolding all_below
all_below_sound zero test i checked below = elim below [ ]
all_below_sound (suc k) test i checked below = ground (arith, all_below_sound k test i)
