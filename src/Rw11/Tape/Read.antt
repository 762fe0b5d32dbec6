-- ===== src/Rw11/Tape/Read.antt =====
-- `ReadRecord` and `Rewind` of Rw11VirtTapeTap.cpp.
use w.Base.{ℕ, Bool, true, false, Option, none, some}
use w.Base.{List, [], ltb, leb, ◌==◌, if◌then◌else◌}
use w.Base.Int.{pos, ◌+ℤ◌}
use w.Rw11.Tape.Calls.{Files, Tape, Attempt, good, Result, start, forward, backward}
use w.Rw11.Tape.Calls.{set_bad, bad_tape, finish, or_bad, ◌then_on◌, tally, inc_pos_record}
use w.Rw11.Tape.Calls.{check_size_forw, byte_padding, seek, read_bytes, parse_meta}
use w.Rw11.Tape.Calls.{meta_eof, meta_eom, number_of}
use w.Rw11.Tape.Code
use w.Rw11.Tape.Stat

module _ {File : Type 0} where
  -- The tape is over: `fEom` is set.
  unfoldable pub at_eom : ℕ → Tape File → Result File
  at_eom n t = finish Code.eom n [] (record t { eom = true })

  -- An end of file mark has been passed forwards.
  unfoldable pub passed_eof : ℕ → Tape File → Result File
  passed_eof n t =
      finish Code.eof n [] (record t { pos_file = t.pos_file +ℤ pos 1; pos_record = pos 0 })

  -- The flags and counts of a record that has been read.
  unfoldable pub deliver : ℕ → Bool → ℕ → List ℕ → Tape File → Result File
  deliver rlen perr n ds t =
      let t1 = inc_pos_record (pos 1) t in
      let t2 = if perr then tally Stat.n_read_perr 1 t1 else t1 in
      let t3 = if ltb n rlen then tally Stat.n_read_lerr 1 t2 else t2 in
      finish (if ltb n rlen then Code.rec_len_err else (if perr then Code.bad_parity else Code.ok))
        n ds (tally Stat.n_read_byt n t3)

  -- The state of a tape that stands at its start.
  unfoldable pub at_bot : Tape File → Tape File
  at_bot t = record t {
    bot = true;
    eot = false;
    eom = false;
    pos_file = pos 0;
    pos_record = pos 0;
    bad = false;
    trunc_pend = true;
  }

  module _ (fs : Files File) where
    -- The word in front of a record, which must be in the file.
    unfoldable pub read_metabeg : Tape File → Attempt File ℕ
    read_metabeg t =
        check_size_forw 4 t
        then_on (λ _ t1. read_bytes fs 4 t1 then_on (λ ds t2. good (number_of ds) t2))

    unfoldable pub read_metaend : Tape File → Attempt File ℕ
    read_metaend t =
        check_size_forw 4 t
        then_on (λ _ t1. read_bytes fs 4 t1 then_on (λ ds t2. good (number_of ds) t2))

    -- `if (ndone < rlenpad) Seek(rlenpad, +1)`.
    unfoldable pub skip_rest : ℕ → ℕ → Tape File → Attempt File Unit
    skip_rest n rlenpad t = if ltb n rlenpad then seek fs (forward rlenpad) t else good tt t

    -- The data of a record of `rlen` bytes, and the word behind it.
    unfoldable pub read_data : ℕ → ℕ → ℕ → Bool → Tape File → Result File
    read_data nbyt metabeg rlen perr t =
        let rlenpad = byte_padding rlen t in
        let n = if leb rlen nbyt then rlen else nbyt in
        or_bad 0 [] (check_size_forw rlenpad t) (λ _ t1. or_bad n [] (read_bytes fs n t1) (λ ds t2.
          or_bad n ds (skip_rest n rlenpad t2) (λ _ t3. or_bad n ds (read_metaend t3) (λ metaend t4.
            if metabeg == metaend then deliver rlen perr n ds t4 else set_bad 0 ds t4))))

    unfoldable pub read_parsed : ℕ → ℕ → Option (ℕ × Bool) → Tape File → Result File
    read_parsed nbyt metabeg none t = set_bad 0 [] t
    read_parsed nbyt metabeg (some (rlen, perr)) t = read_data nbyt metabeg rlen perr t

    unfoldable pub read_tagged : ℕ → ℕ → Tape File → Result File
    read_tagged nbyt m t =
        if m == meta_eof
        then passed_eof 0 (tally Stat.n_read_eof 1 t)
        else (if m == meta_eom
            then or_bad 0 [] (seek fs (backward 4) t)
                (λ _ t1. at_eom 0 (tally Stat.n_read_eom 1 t1))
            else read_parsed nbyt m (parse_meta m) t)

    unfoldable pub read_record : ℕ → Tape File → Result File
    read_record nbyt t0 =
        let t = tally Stat.n_read_rec 1 t0 in
        if t.bad
        then bad_tape t
        else (if t.position == t.size
            then at_eom 0 t
            else or_bad 0 [] (read_metabeg t) (λ m t1. read_tagged nbyt m t1))

    unfoldable pub rewind : Tape File → Result File
    rewind t =
        or_bad 0 [] (seek fs (start 0) (tally Stat.n_rewind 1 t))
          (λ _ t1. finish Code.ok 0 [] (at_bot t1))
