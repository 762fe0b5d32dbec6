-- ===== src/Base/Bits/Or.antt =====
-- Inclusive or of fields that do not overlap, at variables.
use Prim.Native.Nat.{
  ℕ, zero, suc, ◌+◌, ◌*◌, ◌/◌, ◌%◌, ◌^◌, ◌≤◌, ◌<◌, max, bit_or, digits, bit_or-bitwise,
}
use mathlib.Core.Path.{◌≡◌, refl, ap}
use native.Mathlib.Nat.{pow-suc}
use native.Mathlib.Omega.{arith}
use w.Base.Bits.Xor.{double_power}

abbrev or_digits : ℕ → ℕ → ℕ → ℕ
or_digits n a b = digits (λ y. y) max n a b

-- Any fuel that covers the first number gives the same digits.
enough_digits : (n m a b : ℕ) → a ≤ n → a ≤ m → or_digits n a b ≡ or_digits m a b
enough_digits zero zero a b p q = refl
enough_digits zero (suc m) zero b p q = refl
enough_digits zero (suc m) (suc a) b p q = absurd (omega arith)
enough_digits (suc n) zero zero b p q = refl
enough_digits (suc n) zero (suc a) b p q = absurd (omega arith)
enough_digits (suc n) (suc m) zero b p q = refl
enough_digits (suc n) (suc m) (suc a) b p q =
    ap (λ (t : ℕ). t * 2 + max (suc a % 2) (b % 2))
      (enough_digits n m (suc a / 2) (b / 2) (omega arith) (omega arith))

pub bit_or_step : (a b : ℕ) → bit_or a b ≡ bit_or (a / 2) (b / 2) * 2 + max (a % 2) (b % 2)
bit_or_step zero b = omega (arith, bit_or-bitwise 0 b, bit_or-bitwise 0 (b / 2))
bit_or_step (suc a) b = omega (
  arith,
  bit_or-bitwise (suc a) b,
  bit_or-bitwise (suc a / 2) (b / 2),
  enough_digits a (suc a / 2) (suc a / 2) (b / 2) (omega arith) (omega arith),
)

-- A low field beside one that is empty there is added.
pub bit_or_low : (k r q : ℕ) → r < 2 ^ k → bit_or r (q * 2 ^ k) ≡ r + q * 2 ^ k
bit_or_low zero zero q h = omega (arith, bit_or-bitwise 0 (q * 2 ^ zero))
bit_or_low zero (suc r) q h = absurd (omega arith)
bit_or_low (suc k) r q h =
    let b : ℕ = q * 2 ^ suc k in
    let hb : b / 2 ≡ q * 2 ^ k = omega (arith, double_power q k) in
    omega (
      arith,
      bit_or_step r b,
      ap (bit_or (r / 2)) hb,
      double_power q k,
      bit_or_low k (r / 2) q (omega (arith, pow-suc 2 k)),
    )

bit_or_zero : (k a : ℕ) → a < 2 ^ k → bit_or a 0 ≡ a
bit_or_zero k a h =
    let e : 0 * 2 ^ k ≡ 0 = omega arith in omega (arith, bit_or_low k a 0 h, ap (bit_or a) e)

small-lt-pow : (q : ℕ) → q < 2 ^ q
small-lt-pow zero = omega arith
small-lt-pow (suc q) = omega (arith, small-lt-pow q, pow-suc 2 q)

-- The same with the field on the left.
pub bit_or_high : (k q r : ℕ) → r < 2 ^ k → bit_or (q * 2 ^ k) r ≡ q * 2 ^ k + r
bit_or_high zero q zero h =
    let e : q * 2 ^ zero ≡ q = omega arith in
    omega (arith, ap (λ (t : ℕ). bit_or t 0) e, bit_or_zero q q (small-lt-pow q))
bit_or_high zero q (suc r) h = absurd (omega arith)
bit_or_high (suc k) q r h =
    let a : ℕ = q * 2 ^ suc k in
    let ha : a / 2 ≡ q * 2 ^ k = omega (arith, double_power q k) in
    omega (
      arith,
      bit_or_step a r,
      ap (λ (t : ℕ). bit_or t (r / 2)) ha,
      double_power q k,
      bit_or_high k q (r / 2) (omega (arith, pow-suc 2 k)),
    )
