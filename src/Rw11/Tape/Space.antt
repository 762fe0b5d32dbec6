-- ===== src/Rw11/Tape/Space.antt =====
-- `SpaceForw` and `SpaceBack` of Rw11VirtTapeTap.cpp.
use w.Base.{ℕ, zero, suc, ◌+◌, Bool, true, false, Option, none, some}
use w.Base.{[], ◌==◌, if◌then◌else◌}
use w.Base.Int.{pos, negsuc, ◌+ℤ◌}
use w.Rw11.Tape.Calls.{Files, Tape, Attempt, good, fail, Result, forward, backward}
use w.Rw11.Tape.Calls.{set_bad, bad_tape, finish, or_bad, ◌then_on◌, tally, inc_pos_record}
use w.Rw11.Tape.Calls.{check_size_forw, check_size_back, byte_padding, seek, read_bytes, parse_meta}
use w.Rw11.Tape.Calls.{meta_eof, meta_eom, number_of}
use w.Rw11.Tape.Code
use w.Rw11.Tape.Stat
use w.Rw11.Tape.Read.{at_eom, passed_eof, read_metabeg}

module _ {File : Type 0} (fs : Files File) where
  -- Over the data of a record and the word behind it.
  unfoldable pub pass_forw : Option (ℕ × Bool) → Tape File → Attempt File Unit
  pass_forw none t = fail t
  pass_forw (some (rlen, _)) t = check_size_forw (4 + byte_padding rlen t) t then_on (λ _ t1.
      seek fs (forward (4 + byte_padding rlen t)) t1
      then_on (λ _ t2. good tt (inc_pos_record (pos 1) t2)))

  -- One pass of the loop, `n` records into it; `again` is the rest of the loop.
  unfoldable pub forw_pass : ℕ → (Tape File → Result File) → Tape File → Result File
  forw_pass n again t =
      if t.position == t.size
      then at_eom n t
      else or_bad n [] (read_metabeg fs t) (λ m t1.
        if m == meta_eof
        then passed_eof n t1
        else (if m == meta_eom
            then or_bad n [] (seek fs (backward 4) t1) (λ _ t2. at_eom n t2)
            else or_bad n [] (pass_forw (parse_meta m) t1) (λ _ t2. again t2)))

  unfoldable pub forw_loop : ℕ → ℕ → Tape File → Result File
  forw_loop zero n t = finish Code.ok n [] t
  forw_loop (suc k) n t = forw_pass n (λ t1. forw_loop k (suc n) t1) t

  unfoldable pub space_forw : ℕ → Tape File → Result File
  space_forw nrec t0 =
      let t = tally Stat.n_spa_forw 1 t0 in if t.bad then bad_tape t else forw_loop nrec 0 t

  -- The word behind the last record; the tape stands behind it again.
  unfoldable pub read_back : Tape File → Attempt File ℕ
  read_back t = check_size_back 4 t then_on (λ _ t1.
      seek fs (backward 4) t1
      then_on (λ _ t2. read_bytes fs 4 t2 then_on (λ ds t3. good (number_of ds) t3)))

  unfoldable pub pass_back : Option (ℕ × Bool) → Tape File → Attempt File Unit
  pass_back none t = fail t
  pass_back (some (rlen, _)) t = check_size_back (8 + byte_padding rlen t) t then_on (λ _ t1.
      seek fs (backward (8 + byte_padding rlen t)) t1
      then_on (λ _ t2. good tt (inc_pos_record (negsuc 0) t2)))

  unfoldable pub passed_bot : ℕ → Tape File → Result File
  passed_bot n t = finish Code.bot n [] (record t { pos_file = pos 0; pos_record = pos 0 })

  unfoldable pub back_over_eof : ℕ → Tape File → Result File
  back_over_eof n t = or_bad n [] (seek fs (backward 4) t) (λ _ t1.
      finish Code.eof n []
        (record t1 { pos_file = t1.pos_file +ℤ negsuc 0; pos_record = negsuc 0 }))

  unfoldable pub back_pass : ℕ → (Tape File → Result File) → Tape File → Result File
  back_pass n again t =
      if t.position == 0
      then passed_bot n t
      else or_bad n [] (read_back t) (λ m t1.
        if m == meta_eof
        then back_over_eof n t1
        else (if m == meta_eom
            then set_bad n [] t1
            else or_bad n [] (pass_back (parse_meta m) t1) (λ _ t2. again t2)))

  unfoldable pub back_loop : ℕ → ℕ → Tape File → Result File
  back_loop zero n t = finish Code.ok n [] t
  back_loop (suc k) n t = back_pass n (λ t1. back_loop k (suc n) t1) t

  unfoldable pub space_back : ℕ → Tape File → Result File
  space_back nrec t0 =
      let t = tally Stat.n_spa_back 1 t0 in
      if t.bad then bad_tape t else back_loop nrec 0 (record t { eom = false; trunc_pend = true })
