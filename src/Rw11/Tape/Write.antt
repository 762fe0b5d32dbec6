-- ===== src/Rw11/Tape/Write.antt =====
-- `WriteRecord` and `WriteEof` of Rw11VirtTapeTap.cpp.
use w.Base.{ℕ, ◌%◌, ◌^◌, true, false, ◌&&◌}
use w.Base.{List, [], ◌∷◌, length, ◌==◌, if◌then◌else◌}
use w.Base.Int.{pos, ◌+ℤ◌}
use w.Rw11.Tape.Calls.{Files, Tape, Attempt, good, Result}
use w.Rw11.Tape.Calls.{bad_tape, finish, or_bad, tally, inc_pos_record}
use w.Rw11.Tape.Calls.{meta_eof, meta_eom, bytes_of, write_bytes}
use w.Rw11.Tape.Code
use w.Rw11.Tape.Stat

module _ {File : Type 0} (fs : Files File) where
  -- A byte behind a record of odd length, if the format asks for it.
  unfoldable pub write_padding : ℕ → Tape File → Attempt File Unit
  write_padding n t =
      if t.pad_odd && (n % 2 == 1) then write_bytes fs (0 ∷ []) false t else good tt t

  unfoldable pub write_record : List ℕ → Tape File → Result File
  write_record ds t0 =
      let n = length ds in
      let t = tally Stat.n_write_byt n (tally Stat.n_write_rec 1 t0) in
      let m = bytes_of (n % 2 ^ 32) in
      if t.bad
      then bad_tape t
      else or_bad 0 [] (write_bytes fs m false (record t { eom = false })) (λ _ t1.
        or_bad 0 [] (write_bytes fs ds false t1) (λ _ t2. or_bad 0 [] (write_padding n t2) (λ _ t3.
          or_bad 0 [] (write_bytes fs m false t3) (λ _ t4.
            or_bad 0 [] (write_bytes fs (bytes_of meta_eom) true t4)
              (λ _ t5. finish Code.ok 0 [] (inc_pos_record (pos 1) t5))))))

  -- `WriteEof` has no operation code: `ok` stands for true, `bad_format` for false.
  unfoldable pub write_eof : Tape File → Result File
  write_eof t0 =
      let t = tally Stat.n_write_eof 1 t0 in
      if t.bad
      then bad_tape t
      else or_bad 0 [] (write_bytes fs (bytes_of meta_eof) false (record t { eom = false }))
          (λ _ t1. or_bad 0 [] (write_bytes fs (bytes_of meta_eom) true t1) (λ _ t2.
            finish Code.ok 0 []
              (record t2 { pos_file = t2.pos_file +ℤ pos 1; pos_record = pos 0 })))
