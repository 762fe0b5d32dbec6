-- ===== src/Rlink/Crc16/Detection.antt =====
-- What the checksum detects: the update loses nothing, so one changed byte always shows.
use w.Base.{ℕ, suc, ◌+◌, ◌*◌, ◌/◌, ◌%◌, ◌^◌, ◌<◌, bit_xor, ◌≡◌, refl, sym, ap, ◌∙◌, true}
use w.Base.{◌==◌, ==_iff, if◌then◌else◌, get_or, List, [], ◌∷◌, ◌++◌, All, arith}
use w.Base.Bits.{all_below, all_below_sound}
use w.Base.Bits.Xor.{bit_xor_cancel, bit_xor_comm, bit_xor_fields, bit_xor-lt, bit_xor_zero_left}
use w.Rlink.Crc16.{crc16_table, add_data, add_all}
use w.Rlink.Crc16.Division.{add_data-lt, add_data_bytes}

-- The index of the entry with a given low byte.
find_low : ℕ → List ℕ → ℕ
find_low x [] = 0
find_low x (t ∷ ts) = let rest = find_low x ts in if t % 2 ^ 8 == x then 0 else suc rest

low_bytes_checked :
    all_below 256 (λ i. find_low (get_or crc16_table i 0 % 2 ^ 8) crc16_table == i) ≡ true
unfolding all_below find_low
low_bytes_checked = refl

-- The low bytes of the entries are all different.
low_byte_injective :
    (i j : ℕ)
    → i < 256
    → j < 256
    → get_or crc16_table i 0 % 2 ^ 8 ≡ get_or crc16_table j 0 % 2 ^ 8
    → i ≡ j
low_byte_injective i j hi hj e =
    sym (found i hi) ∙ ap (λ (x : ℕ). find_low x crc16_table) e ∙ found j hj
  where
    found : (i : ℕ) → i < 256 → find_low (get_or crc16_table i 0 % 2 ^ 8) crc16_table ≡ i
    found i h = (==_iff _ _).0 (
        all_below_sound 256 (λ i. find_low (get_or crc16_table i 0 % 2 ^ 8) crc16_table == i) i
          low_bytes_checked h)

xor_low_byte : (a t : ℕ) → bit_xor (a * 2 ^ 8) t % 2 ^ 8 ≡ t % 2 ^ 8
xor_low_byte a t =
    let ea : a * 2 ^ 8 + 0 ≡ a * 2 ^ 8 = omega arith in
    let et : t / 2 ^ 8 * 2 ^ 8 + t % 2 ^ 8 ≡ t = omega arith in
    omega (
      arith,
      bit_xor_fields 8 a (t / 2 ^ 8) 0 (t % 2 ^ 8) (omega arith) (omega arith),
      ap (λ (x : ℕ). bit_xor x (t / 2 ^ 8 * 2 ^ 8 + t % 2 ^ 8)) ea,
      ap (bit_xor (a * 2 ^ 8)) et,
      bit_xor_zero_left (t % 2 ^ 8),
    )

-- Equal checksums come from equal table indices and equal low bytes.
same_update :
    (c d c' d' : ℕ)
    → c < 2 ^ 16
    → c' < 2 ^ 16
    → d < 256
    → d' < 256
    → add_data c d ≡ add_data c' d'
    → (bit_xor (c / 2 ^ 8) d ≡ bit_xor (c' / 2 ^ 8) d') × (c % 2 ^ 8 ≡ c' % 2 ^ 8)
same_update c d c' d' hc hc' hd hd' e = (index, low)
  where
    t : ℕ
    t = get_or crc16_table (bit_xor (c / 2 ^ 8) d) 0

    t' : ℕ
    t' = get_or crc16_table (bit_xor (c' / 2 ^ 8) d') 0

    whole : bit_xor (c % 2 ^ 8 * 2 ^ 8) t ≡ bit_xor (c' % 2 ^ 8 * 2 ^ 8) t'
    whole = sym (add_data_bytes c d hc hd) ∙ e ∙ add_data_bytes c' d' hc' hd'

    index : bit_xor (c / 2 ^ 8) d ≡ bit_xor (c' / 2 ^ 8) d'
    index =
        low_byte_injective _ _ (bit_xor-lt 8 (c / 2 ^ 8) d (omega arith) hd)
          (bit_xor-lt 8 (c' / 2 ^ 8) d' (omega arith) hd')
          (sym (xor_low_byte (c % 2 ^ 8) t)
            ∙ ap (λ (x : ℕ). x % 2 ^ 8) whole
            ∙ xor_low_byte (c' % 2 ^ 8) t')

    same_entry : t ≡ t'
    same_entry = ap (λ (i : ℕ). get_or crc16_table i 0) index

    low : c % 2 ^ 8 ≡ c' % 2 ^ 8
    low = omega (
      arith,
      sym (bit_xor_cancel (c % 2 ^ 8 * 2 ^ 8) t)
          ∙ ap (λ (x : ℕ). bit_xor x t) whole
          ∙ ap (bit_xor (bit_xor (c' % 2 ^ 8 * 2 ^ 8) t')) same_entry
          ∙ bit_xor_cancel (c' % 2 ^ 8 * 2 ^ 8) t',
    )

left_cancel : (a b c : ℕ) → bit_xor a b ≡ bit_xor a c → b ≡ c
left_cancel a b c e =
    sym (bit_xor_cancel b a)
    ∙ ap (λ (x : ℕ). bit_xor x a) (bit_xor_comm b a ∙ e ∙ bit_xor_comm a c)
    ∙ bit_xor_cancel c a

right_cancel : (a b c : ℕ) → bit_xor a c ≡ bit_xor b c → a ≡ b
right_cancel a b c e = sym (bit_xor_cancel a c) ∙ ap (λ (x : ℕ). bit_xor x c) e ∙ bit_xor_cancel b c

add_data_injective :
    (c c' d : ℕ) → c < 2 ^ 16 → c' < 2 ^ 16 → d < 256 → add_data c d ≡ add_data c' d → c ≡ c'
add_data_injective c c' d hc hc' hd e =
    let both = same_update c d c' d hc hc' hd hd e in
    omega (arith, both.1, right_cancel (c / 2 ^ 8) (c' / 2 ^ 8) d both.0)

add_all_injective :
    (c c' : ℕ) (ds : List ℕ)
    → c < 2 ^ 16
    → c' < 2 ^ 16
    → All (λ d. d < 256) ds
    → add_all c ds ≡ add_all c' ds
    → c ≡ c'
unfolding add_all
add_all_injective c c' [] hc hc' hs e = e
add_all_injective c c' (d ∷ ds) hc hc' hs e = add_data_injective c c' d hc hc' hs.0 (
    add_all_injective (add_data c d) (add_data c' d) ds (add_data-lt c d) (add_data-lt c' d) hs.1 e)

-- Two messages of bytes that differ at one place at most and have the same checksum are the same:
-- the changed byte `d'` is the byte `d` that was sent.
pub one_byte_detected :
    (crc : ℕ) (before : List ℕ) (d d' : ℕ) (after : List ℕ)
    → crc < 2 ^ 16
    → d < 256
    → d' < 256
    → All (λ x. x < 256) after
    → add_all crc (before ++ d ∷ after) ≡ add_all crc (before ++ d' ∷ after)
    → d ≡ d'
unfolding add_all
one_byte_detected crc [] d d' after hc hd hd' hs e =
    left_cancel (crc / 2 ^ 8) d d'
      (same_update crc d crc d' hc hc hd hd' (
        add_all_injective (add_data crc d) (add_data crc d') after (add_data-lt crc d)
          (add_data-lt crc d') hs e)).0
one_byte_detected crc (b ∷ before) d d' after hc hd hd' hs e =
    one_byte_detected (add_data crc b) before d d' after (add_data-lt crc b) hd hd' hs e
