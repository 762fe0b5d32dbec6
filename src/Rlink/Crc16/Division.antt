-- ===== src/Rlink/Crc16/Division.antt =====
-- The checksum table against polynomial division, one bit at a time.
use w.Base.{ℕ, zero, suc, ◌*◌, ◌/◌, ◌%◌, ◌^◌, ◌<◌, bit_xor, ◌≡◌, refl, true}
use w.Base.{
  ltb, Bool-cases, lt→ltb, ltb→lt, le→ltb, nlt→le, inl, inr, ◌+◌, ◌-◌, ◌≤◌, sym, ◌∙◌, ap, All, List,
  [], ◌∷◌, ◌==◌, ==_iff, if◌then◌else◌, get_or, arith,
}
use native.Mathlib.Nat.{one-le-pow}
use w.Base.Bits.Xor.{
  bit_xor_fields, bit_xor-lt, bit_xor_double, bit_xor_right_comm, bit_xor_comm, bit_xor_low,
  bit_xor_zero, double_power,
}
use w.Base.Bits.{all_below, all_below_sound}
use w.Rlink.Crc16.{crc16_table, add_data, add_all}

-- One step of the division by x^16 + x^12 + x^5 + 1.
unfoldable pub shift_bit : ℕ → ℕ
shift_bit crc = if ltb crc (2 ^ 15) then crc * 2 else bit_xor (crc * 2 % 2 ^ 16) 0x1021

unfoldable pub shift_bits : ℕ → ℕ → ℕ
shift_bits zero crc = crc
shift_bits (suc n) crc = shift_bits n (shift_bit crc)

table_checked : all_below 256 (λ i. get_or crc16_table i 0 == shift_bits 8 (i * 2 ^ 8)) ≡ true
unfolding all_below shift_bits shift_bit
table_checked = refl

-- Every entry of the table is the remainder of its index, moved up by eight bits, after eight
-- steps of the division.
pub crc16_table_lem : (i : ℕ) → i < 256 → get_or crc16_table i 0 ≡ shift_bits 8 (i * 2 ^ 8)
crc16_table_lem i h = (==_iff _ _).0 (
    all_below_sound 256 (λ i. get_or crc16_table i 0 == shift_bits 8 (i * 2 ^ 8)) i table_checked h)

-- The checksum stays a 16-bit value.
pub add_data-lt : (crc d : ℕ) → add_data crc d < 2 ^ 16
unfolding add_data
add_data-lt crc d = omega arith

-- The two summands of a value with a top bit.
top_bit-xor :
    (a b : ℕ) → 2 ^ 15 ≤ a → b < 2 ^ 15 → a < 2 ^ 16 → bit_xor a b ≡ 2 ^ 15 + bit_xor (a - 2 ^ 15) b
top_bit-xor a b h hb ha =
    let r : ℕ = a - 2 ^ 15 in
    let ea : 1 * 2 ^ 15 + r ≡ a = omega arith in
    let eb : 0 * 2 ^ 15 + b ≡ b = omega arith in
    omega (
      arith,
      bit_xor_fields 15 1 0 r b (omega arith) hb,
      ap (λ (t : ℕ). bit_xor t (0 * 2 ^ 15 + b)) ea,
      ap (λ (t : ℕ). bit_xor a t) eb,
    )

shift_high :
    (a b : ℕ)
    → 2 ^ 15 ≤ a
    → b < 2 ^ 15
    → a < 2 ^ 16
    → bit_xor (bit_xor a b * 2 % 2 ^ 16) 0x1021 ≡ bit_xor (bit_xor (a * 2 % 2 ^ 16) 0x1021) (b * 2)
shift_high a b h hb ha =
    let r : ℕ = a - 2 ^ 15 in
    let left : bit_xor a b * 2 % 2 ^ 16 ≡ bit_xor (r * 2) (b * 2) =
      omega
        (arith, top_bit-xor a b h hb ha, bit_xor_double r b, bit_xor-lt 15 r b (omega arith) hb) in
    let right : a * 2 % 2 ^ 16 ≡ r * 2 = omega arith in
    rw (left, right) (bit_xor_right_comm (r * 2) (b * 2) 0x1021)

-- A step is linear in a value without a top bit.
shift_bit-xor :
    (a b : ℕ) → a < 2 ^ 16 → b < 2 ^ 15 → shift_bit (bit_xor a b) ≡ bit_xor (shift_bit a) (b * 2)
unfolding shift_bit
shift_bit-xor a b ha hb = elim (Bool-cases (ltb a (2 ^ 15))) [
  | inl low ↦
      rw (lt→ltb (bit_xor a b) (2 ^ 15) (bit_xor-lt 15 a b (ltb→lt a (2 ^ 15) low) hb), low)
        (sym (bit_xor_double a b))
  | inr high ↦
      let h = nlt→le a (2 ^ 15) high in
      rw (le→ltb (bit_xor a b) (2 ^ 15) (omega (arith, top_bit-xor a b h hb ha)), high)
        (shift_high a b h hb ha)
]

shift_bit-lt : (a : ℕ) → a < 2 ^ 16 → shift_bit a < 2 ^ 16
unfolding shift_bit
shift_bit-lt a h = ground (arith, bit_xor-lt 16 (a * 2 % 2 ^ 16) 0x1021)

shift_bits-lt : (n a : ℕ) → a < 2 ^ 16 → shift_bits n a < 2 ^ 16
unfolding shift_bits
shift_bits-lt zero a h = h
shift_bits-lt (suc n) a h = shift_bits-lt n (shift_bit a) (shift_bit-lt a h)

shift_bits-xor :
    (n a b : ℕ)
    → a < 2 ^ 16
    → b * 2 ^ n < 2 ^ 16
    → shift_bits n (bit_xor a b) ≡ bit_xor (shift_bits n a) (b * 2 ^ n)
unfolding shift_bits
shift_bits-xor zero a b ha hb = ap (bit_xor a) (omega arith)
shift_bits-xor (suc n) a b ha hb =
    let twice : b * 2 ^ suc n ≡ b * 2 * 2 ^ n = omega (arith, double_power b n) in
    let room : b * 2 ≤ b * 2 * 2 ^ n = grind (arith, one-le-pow n 2) in
    rw (shift_bit-xor a b ha (omega arith), twice)
      (shift_bits-xor n (shift_bit a) (b * 2) (shift_bit-lt a ha) (omega arith))

-- The update, with the checksum taken apart into its two bytes.
pub add_data_bytes :
    (crc d : ℕ)
    → crc < 2 ^ 16
    → d < 2 ^ 8
    → add_data crc d
      ≡ bit_xor (crc % 2 ^ 8 * 2 ^ 8) (get_or crc16_table (bit_xor (crc / 2 ^ 8) d) 0)
unfolding add_data
add_data_bytes crc d hc hd =
    let hi : crc / 2 ^ 8 % 2 ^ 8 ≡ crc / 2 ^ 8 = omega arith in
    let t : ℕ = get_or crc16_table (bit_xor (crc / 2 ^ 8) d) 0 in
    let small : t < 2 ^ 16 = entry-lt _ (bit_xor-lt 8 (crc / 2 ^ 8) d (omega arith) hd) in
    let a : crc / 2 ^ 8 * 2 ^ 16 + crc % 2 ^ 8 * 2 ^ 8 ≡ crc * 2 ^ 8 = omega arith in
    let b : 0 * 2 ^ 16 + t ≡ t = omega arith in
    let low : ℕ = crc % 2 ^ 8 * 2 ^ 8 in
    rw hi (
      omega (
        arith,
        bit_xor_fields 16 (crc / 2 ^ 8) 0 low t (omega arith) small,
        ap (λ (x : ℕ). bit_xor x (0 * 2 ^ 16 + t)) a,
        ap (λ (x : ℕ). bit_xor (crc * 2 ^ 8) x) b,
        bit_xor-lt 16 low t (omega arith) small,
      ))
  where
    entry-lt : (i : ℕ) → i < 256 → get_or crc16_table i 0 < 2 ^ 16
    entry-lt i h = rw (crc16_table_lem i h) (shift_bits-lt 8 (i * 2 ^ 8) (omega arith))

-- The table-driven update is the division, bit by bit, of the checksum with the byte added at its
-- upper end.
pub add_data_divides :
    (crc d : ℕ) → crc < 2 ^ 16 → d < 2 ^ 8 → add_data crc d ≡ shift_bits 8 (bit_xor crc (d * 2 ^ 8))
add_data_divides crc d hc hd =
    let hi : ℕ = crc / 2 ^ 8 in
    let lo : ℕ = crc % 2 ^ 8 in
    let t : ℕ = bit_xor hi d in
    let ht : t < 2 ^ 8 = bit_xor-lt 8 hi d (omega arith) hd in
    let whole : hi * 2 ^ 8 + lo ≡ crc = omega arith in
    let up : d * 2 ^ 8 + 0 ≡ d * 2 ^ 8 = omega arith in
    let sum : bit_xor crc (d * 2 ^ 8) ≡ bit_xor (t * 2 ^ 8) lo = omega (
      arith,
      bit_xor_fields 8 hi d lo 0 (omega arith) (omega arith),
      ap (λ (x : ℕ). bit_xor x (d * 2 ^ 8 + 0)) whole,
      ap (bit_xor crc) up,
      bit_xor_zero lo,
      bit_xor_low 8 t lo (omega arith),
    ) in
    add_data_bytes crc d hc hd
    ∙ ap (bit_xor (lo * 2 ^ 8)) (crc16_table_lem t ht)
    ∙ bit_xor_comm (lo * 2 ^ 8) (shift_bits 8 (t * 2 ^ 8))
    ∙ sym (shift_bits-xor 8 (t * 2 ^ 8) lo (omega arith) (omega arith))
    ∙ ap (shift_bits 8) (sym sum)

-- The division of a whole message by the polynomial: byte after byte, bit after bit.
unfoldable pub divide : ℕ → List ℕ → ℕ
divide crc [] = crc
divide crc (d ∷ ds) = divide (shift_bits 8 (bit_xor crc (d * 2 ^ 8))) ds

-- The checksum of a message of bytes, from any 16-bit value on, is the remainder that the division
-- of the message leaves.
pub add_all-divide :
    (crc : ℕ) (ds : List ℕ) → crc < 2 ^ 16 → All (λ d. d < 256) ds → add_all crc ds ≡ divide crc ds
unfolding add_all divide
add_all-divide crc [] hc hs = refl
add_all-divide crc (d ∷ ds) hc hs =
    rw (← add_data_divides crc d hc hs.0)
      (add_all-divide (add_data crc d) ds (add_data-lt crc d) hs.1)
