-- ===== src/Rlink/Connect/State.antt =====
-- The state of RlinkConnect.cpp that encoding and decoding work on.
use w.Base.{ℕ, ◌+◌, ◌%◌, ◌^◌, Bool, List, get_or, set, if◌then◌else◌}
use w.Rlink.Stats.{Stats, inc}
use w.Rlink.Packet.Snd.{Snd}
use w.Rlink.Packet.Rcv.{Rcv}

pub record Link : Type 0 where
  pub snd : Snd
  pub rcv : Rcv
  pub seq_numbers : List ℕ
  pub stats : Stats

abbrev pub count : ℕ → ℕ → Link → Link
count i n l = record l { stats = inc i n l.stats }

abbrev pub on_snd : (Snd → Snd) → Link → Link
on_snd f l = record l { snd = f l.snd }

-- `fSeqNumber[ccode]++` on a `uint8_t`.
abbrev pub bump_seq : ℕ → Link → Link
bump_seq ccode l = record l {
  seq_numbers = set l.seq_numbers ccode ((get_or l.seq_numbers ccode 0 + 1) % 2 ^ 8);
}

-- `if (b) fStats.Inc(i)`.
abbrev pub counts_if : Bool → ℕ → Link → Link
counts_if b i l = if b then count i 1 l else l
