-- ===== src/Rw11/Tape/Recovery.antt =====
-- How `Rewind` makes a tape good again after a format error.
use w.Base.{ℕ, ◌^◌, ◌<◌, ◌≡◌, refl}
use w.Base.{true, List, [], length}
use w.Base.{arith}
use w.Rw11.Tape.Calls.{Files, Tape, tally}
use w.Rw11.Tape.Code
use w.Rw11.Tape.Stat
use w.Rw11.Tape.Position.{Works}
use w.Rw11.Tape.Moves.{Ends}
use w.Rw11.Tape.Read.{rewind, at_bot}
use w.Rw11.Tape.Calls.{update_pos, moved_to, start, seek}

-- `Rewind` of a tape in a file that works as documented and is smaller than 2^63 bytes makes the tape
-- good, after a format error too: it returns true, and the tape stands in front of all bytes of the
-- file, which the next write will cut off.
pub rewind-At :
    {File : Type 0} {fs : Files File} {open_at : List ℕ → ℕ → File} (sys : Works fs open_at)
    (b : List ℕ) (p : ℕ) (t : Tape File)
    → t.file ≡ open_at b p
    → t.size ≡ length b
    → length b < 2 ^ 63
    → Ends open_at Code.ok 0 [] t.pad_odd true [] b (rewind fs t)
unfolding rewind tally seek at_bot update_pos moved_to
rewind-At {open_at = open_at} sys b p t f s h = record {
  tape = at_bot (update_pos (start 0) (record (tally Stat.n_rewind 1 t) { file = open_at b 0 }));
  returns = rw (f, sys.seek_start 0 b p (omega arith)) refl;
  at = record {
    file_at = refl;
    size_is = omega (arith, s);
    position_is = refl;
    is_good = refl;
    padding = refl;
    pending = refl;
    small = omega (arith, h);
  };
}
