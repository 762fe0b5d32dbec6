-- ===== src/Base/Bits/Order.antt =====
-- Strong induction on the native numbers.
use Prim.Native.Nat.{ℕ, zero, suc, ◌<◌}
use native.Mathlib.Omega.{arith}

strong_below {ℓ} :
    (P : ℕ → Type ℓ) → ((n : ℕ) → ((m : ℕ) → m < n → P m) → P n) → (k n : ℕ) → n < k → P n
strong_below P step zero n h = elim h [ ]
strong_below P step (suc k) n h = step n (λ m p. strong_below P step k m (omega arith))

pub strong_induction {ℓ} :
    (P : ℕ → Type ℓ) → ((n : ℕ) → ((m : ℕ) → m < n → P m) → P n) → (n : ℕ) → P n
strong_induction P step n = strong_below P step (suc n) n (omega arith)
