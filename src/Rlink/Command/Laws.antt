-- ===== src/Rlink/Command/Laws.antt =====
-- Laws of single commands.
use w.Base.{ℕ, ◌+◌, ◌*◌, ◌/◌, ◌%◌, ◌^◌, ◌<◌, bit_and, bit_or, ◌≡◌, refl, ap, ◌∙◌}
use w.Base.{true, ◌==◌, ==_iff}
use w.Base.{arith}
use w.Base.Bits.{all_below, all_below_sound}
use w.Base.Bits.Or.{bit_or_high, bit_or_step}
use w.Rlink.Command.{Command}
use w.Rlink.Command.{command, seq_number, set_seq_number}
use w.Rlink.Command.Flag

low_bits_checked : all_below 256 (λ q. bit_and q 7 == q % 8) ≡ true
unfolding all_below
low_bits_checked = refl

pub command-low : (c : Command) → c.request < 256 → command c ≡ c.request % 8
unfolding command
command-low c h =
    (==_iff _ _).0 (all_below_sound 256 (λ q. bit_and q 7 == q % 8) c.request low_bits_checked h)

-- A sequence number, cut to five bits, goes into the request byte and leaves the command code there.
pub set_seq_number_lem :
    (snum : ℕ) (c : Command)
    → snum < 256
    → c.request < 256
    → (command (set_seq_number snum c) ≡ command c)
      × (seq_number (set_seq_number snum c) ≡ snum % 32)
      × ((set_seq_number snum c).request < 256)
unfolding set_seq_number seq_number
set_seq_number_lem snum c hs hc =
    let code = command-low c hc in
    let v : (set_seq_number snum c).request ≡ (snum * 2 ^ 3 + c.request % 8) % 2 ^ 8 =
      unfold command in
      ap (λ (t : ℕ). bit_or (snum * 2 ^ 3) t % 2 ^ 8) code
      ∙ ap (λ (t : ℕ). t % 2 ^ 8) (bit_or_high 3 snum (c.request % 8) (omega arith)) in
    (
      omega (arith, command-low (set_seq_number snum c) (omega (arith, v)), v, code),
      omega (arith, v),
      omega (arith, v),
    )

-- Whether a command is done: bit 2 of its flags.
abbrev pub IsDone : Command → Type 0
IsDone c = c.flags / 4 % 2 ≡ 1

pub done_set : (x : ℕ) → bit_or x Flag.done / 4 % 2 ≡ 1
done_set x = omega (arith, bit_or_step x 4, bit_or_step (x / 2) 2, bit_or_step (x / 2 / 2) 1)

pub done_kept : (x m : ℕ) → x / 4 % 2 ≡ 1 → bit_or x m / 4 % 2 ≡ 1
done_kept x m h =
    omega (arith, bit_or_step x m, bit_or_step (x / 2) (m / 2), bit_or_step (x / 2 / 2) (m / 2 / 2))
