-- ===== src/Base/Bits/Xor.antt =====
-- Exclusive or at variables: the digit equation, fields, bounds and cancellation.
use Prim.Native.Nat.{
  ℕ, zero, suc, ◌+◌, ◌*◌, ◌/◌, ◌%◌, ◌^◌, ◌≤◌, ◌<◌, bit_xor, digits, differ, bit_xor-bitwise,
}
use mathlib.Core.Path.{◌≡◌, refl, ap, ◌∙◌}
use mathlib.Core.Logic.{◌⊎◌, inl, inr}
use native.Mathlib.Nat.{pow-suc}
use native.Mathlib.Omega.{arith}
use w.Base.Bits.Order.{strong_induction}

abbrev xor_digits : ℕ → ℕ → ℕ → ℕ
xor_digits n a b = digits (λ y. y) differ n a b

-- Any fuel that covers the first number gives the same digits.
enough_digits : (n m a b : ℕ) → a ≤ n → a ≤ m → xor_digits n a b ≡ xor_digits m a b
enough_digits zero zero a b p q = refl
enough_digits zero (suc m) zero b p q = refl
enough_digits zero (suc m) (suc a) b p q = absurd (omega arith)
enough_digits (suc n) zero zero b p q = refl
enough_digits (suc n) zero (suc a) b p q = absurd (omega arith)
enough_digits (suc n) (suc m) zero b p q = refl
enough_digits (suc n) (suc m) (suc a) b p q =
    ap (λ (t : ℕ). t * 2 + differ (suc a % 2) (b % 2))
      (enough_digits n m (suc a / 2) (b / 2) (omega arith) (omega arith))

below_two : (x : ℕ) → x < 2 → (x ≡ 0) ⊎ (x ≡ 1)
below_two zero h = inl refl
below_two (suc zero) h = inr refl
below_two (suc (suc x)) h = absurd (omega arith)

differ-two : (x y : ℕ) → x < 2 → y < 2 → differ x y ≡ (x + y) % 2
differ-two zero y p q = omega arith
differ-two (suc zero) zero p q = refl
differ-two (suc zero) (suc zero) p q = refl
differ-two (suc zero) (suc (suc y)) p q = absurd (omega arith)
differ-two (suc (suc x)) y p q = absurd (omega arith)

pub bit_xor_step : (a b : ℕ) → bit_xor a b ≡ bit_xor (a / 2) (b / 2) * 2 + (a % 2 + b % 2) % 2
bit_xor_step zero b = omega (arith, bit_xor-bitwise 0 b, bit_xor-bitwise 0 (b / 2))
bit_xor_step (suc a) b = omega (
  arith,
  bit_xor-bitwise (suc a) b,
  bit_xor-bitwise (suc a / 2) (b / 2),
  enough_digits a (suc a / 2) (suc a / 2) (b / 2) (omega arith) (omega arith),
  differ-two (suc a % 2) (b % 2) (omega arith) (omega arith),
)

pub bit_xor_zero_left : (b : ℕ) → bit_xor 0 b ≡ b
bit_xor_zero_left b = bit_xor-bitwise 0 b

bit_xor_self : (b : ℕ) → bit_xor b b ≡ 0
bit_xor_self = strong_induction (λ b. bit_xor b b ≡ 0) step
  where
    step : (n : ℕ) → ((m : ℕ) → m < n → bit_xor m m ≡ 0) → bit_xor n n ≡ 0
    step zero ih = refl
    step (suc n) ih = omega (arith, bit_xor_step (suc n) (suc n), ih (suc n / 2) (omega arith))

pub bit_xor_zero : (b : ℕ) → bit_xor b 0 ≡ b
bit_xor_zero = strong_induction (λ b. bit_xor b 0 ≡ b) step
  where
    step : (n : ℕ) → ((m : ℕ) → m < n → bit_xor m 0 ≡ m) → bit_xor n 0 ≡ n
    step zero ih = refl
    step (suc n) ih = omega (arith, bit_xor_step (suc n) 0, ih (suc n / 2) (omega arith))

pub bit_xor_comm : (a b : ℕ) → bit_xor a b ≡ bit_xor b a
bit_xor_comm = strong_induction (λ a. (b : ℕ) → bit_xor a b ≡ bit_xor b a) step
  where
    step :
        (n : ℕ)
        → ((m : ℕ) → m < n → (b : ℕ) → bit_xor m b ≡ bit_xor b m)
        → (b : ℕ) → bit_xor n b ≡ bit_xor b n
    step zero ih b = omega (arith, bit_xor_zero_left b, bit_xor_zero b)
    step (suc n) ih b = omega (
      arith,
      bit_xor_step (suc n) b,
      bit_xor_step b (suc n),
      ih (suc n / 2) (omega arith) (b / 2),
    )

pub bit_xor_right_comm : (x y z : ℕ) → bit_xor (bit_xor x y) z ≡ bit_xor (bit_xor x z) y
bit_xor_right_comm =
    strong_induction (λ x. (y z : ℕ) → bit_xor (bit_xor x y) z ≡ bit_xor (bit_xor x z) y) step
  where
    step :
        (n : ℕ)
        → ((m : ℕ) → m < n → (y z : ℕ) → bit_xor (bit_xor m y) z ≡ bit_xor (bit_xor m z) y)
        → (y z : ℕ) → bit_xor (bit_xor n y) z ≡ bit_xor (bit_xor n z) y
    step zero ih y z = omega (
      arith,
      ap (λ (t : ℕ). bit_xor t z) (bit_xor_zero_left y),
      ap (λ (t : ℕ). bit_xor t y) (bit_xor_zero_left z),
      bit_xor_comm y z,
    )
    step (suc n) ih y z =
        let a : ℕ = bit_xor (suc n) y in
        let b : ℕ = bit_xor (suc n) z in
        let ha : a / 2 ≡ bit_xor (suc n / 2) (y / 2) = omega (arith, bit_xor_step (suc n) y) in
        let hb : b / 2 ≡ bit_xor (suc n / 2) (z / 2) = omega (arith, bit_xor_step (suc n) z) in
        omega (
          arith,
          bit_xor_step (suc n) y,
          bit_xor_step (suc n) z,
          bit_xor_step a z,
          bit_xor_step b y,
          ap (λ (t : ℕ). bit_xor t (z / 2)) ha,
          ap (λ (t : ℕ). bit_xor t (y / 2)) hb,
          ih (suc n / 2) (omega arith) (y / 2) (z / 2),
        )

pub bit_xor_cancel : (a b : ℕ) → bit_xor (bit_xor a b) b ≡ a
bit_xor_cancel a b =
    ap (λ (t : ℕ). bit_xor t b) (bit_xor_comm a b)
    ∙ bit_xor_right_comm b a b
    ∙ ap (λ (t : ℕ). bit_xor t a) (bit_xor_self b)
    ∙ bit_xor_zero_left a

pub bit_xor_double : (a b : ℕ) → bit_xor (a * 2) (b * 2) ≡ bit_xor a b * 2
bit_xor_double a b =
    let ha : a * 2 / 2 ≡ a = omega arith in
    let hb : b * 2 / 2 ≡ b = omega arith in
    omega (
      arith,
      bit_xor_step (a * 2) (b * 2),
      ap (λ (t : ℕ). bit_xor t (b * 2 / 2)) ha,
      ap (λ (t : ℕ). bit_xor a t) hb,
    )

pub double_power : (q k : ℕ) → q * 2 ^ suc k ≡ 2 * (q * 2 ^ k)
double_power q k = omega (arith, ap (λ (t : ℕ). q * t) (pow-suc 2 k))

-- Two numbers with a low field of `k` bits each: the fields do not mix.
pub bit_xor_fields :
    (k q p r s : ℕ)
    → r < 2 ^ k
    → s < 2 ^ k
    → bit_xor (q * 2 ^ k + r) (p * 2 ^ k + s) ≡ bit_xor q p * 2 ^ k + bit_xor r s
bit_xor_fields zero q p zero zero hr hs = omega (
  arith,
  ap (λ (t : ℕ). bit_xor t (p * 2 ^ zero + zero))
      (let e : q * 2 ^ zero + zero ≡ q = omega arith in e),
  ap (λ (t : ℕ). bit_xor q t) (let e : p * 2 ^ zero + zero ≡ p = omega arith in e),
  bit_xor_zero_left 0,
)
bit_xor_fields zero q p (suc r) s hr hs = absurd (omega arith)
bit_xor_fields zero q p zero (suc s) hr hs = absurd (omega arith)
bit_xor_fields (suc k) q p r s hr hs =
    let a : ℕ = q * 2 ^ suc k + r in
    let b : ℕ = p * 2 ^ suc k + s in
    let ha : a / 2 ≡ q * 2 ^ k + r / 2 = omega (arith, double_power q k) in
    let hb : b / 2 ≡ p * 2 ^ k + s / 2 = omega (arith, double_power p k) in
    let ra : a % 2 ≡ r % 2 = omega (arith, double_power q k) in
    let rb : b % 2 ≡ s % 2 = omega (arith, double_power p k) in
    omega (
      arith,
      bit_xor_step a b,
      bit_xor_step r s,
      ap (λ (t : ℕ). bit_xor t (b / 2)) ha,
      ap (λ (t : ℕ). bit_xor (q * 2 ^ k + r / 2) t) hb,
      ra,
      rb,
      double_power (bit_xor q p) k,
      bit_xor_fields k q p (r / 2) (s / 2) (omega (arith, pow-suc 2 k))
          (omega (arith, pow-suc 2 k)),
    )

pub bit_xor-lt : (k a b : ℕ) → a < 2 ^ k → b < 2 ^ k → bit_xor a b < 2 ^ k
bit_xor-lt zero zero zero p q = omega (arith, bit_xor_zero_left 0)
bit_xor-lt zero (suc a) b p q = absurd (omega arith)
bit_xor-lt zero zero (suc b) p q = absurd (omega arith)
bit_xor-lt (suc k) a b p q = omega (
  arith,
  bit_xor_step a b,
  pow-suc 2 k,
  bit_xor-lt k (a / 2) (b / 2) (omega (arith, pow-suc 2 k)) (omega (arith, pow-suc 2 k)),
)

-- A low field beside one that is empty there is just added.
pub bit_xor_low : (k q r : ℕ) → r < 2 ^ k → bit_xor (q * 2 ^ k) r ≡ q * 2 ^ k + r
bit_xor_low k q r h =
    let hq : q * 2 ^ k + 0 ≡ q * 2 ^ k = omega arith in
    let hr : 0 * 2 ^ k + r ≡ r = omega arith in
    omega (
      arith,
      bit_xor_fields k q 0 0 r (omega arith) h,
      ap (λ (t : ℕ). bit_xor t (0 * 2 ^ k + r)) hq,
      ap (λ (t : ℕ). bit_xor (q * 2 ^ k) t) hr,
      ap (λ (t : ℕ). t * 2 ^ k) (bit_xor_zero q),
      bit_xor_zero_left r,
    )
