-- ===== src/Rw11/Tape/Tests.antt =====
-- A tape in a file that is kept in memory: the system calls as a concrete function.
use w.Base.{ℕ, ◌+◌, ◌-◌, ◌≡◌, refl, true, false, Option, none, some}
use w.Base.{
  List, [], ◌∷◌, ◌++◌, length, take, drop, All, arith, leb, le→leb, if_true, if◌then◌else◌,
}
use w.Base.Int.{pos}
use w.Rw11.Tape.Code
use w.Rw11.Tape.Calls.{Files, Tape, Offset, start, forward, backward, bytes_of, meta_eom}
use w.Rw11.Tape.Read.{read_record, rewind}
use w.Rw11.Tape.Write.{write_record}
use w.Rw11.Tape.Space.{space_forw, space_back}
use w.Rw11.Tape.Format.{Record, Fits, block, blocks}
use w.Rw11.Tape.Position.{Works, At}
use w.Rw11.Tape.Moves.{Ends}
use w.Rw11.Tape.Forward.{space_forw-blocks}
use w.Rw11.Tape.Backward.{space_back-blocks}
use w.Rw11.Tape.Records.{plain, write_record-block}
use w.Rw11.Tape.Reading.{read_record-block}
use w.Rw11.Tape.RoundTrip.{write_all, read_all, Readable, write-space-read}
use w.Rw11.Tape.Mismatch.{Spoils, mismatched, read_record-Spoils}
use w.Rw11.Tape.Recovery.{rewind-At}

record MemoryFile : Type 0 where
  contents : List ℕ
  offset : ℕ

abbrev open_at : List ℕ → ℕ → MemoryFile
open_at b p = record { contents = b; offset = p }

abbrev seek_memory : Offset → MemoryFile → Option MemoryFile
seek_memory (start n) f = some (open_at f.contents n)
seek_memory (forward n) f = some (open_at f.contents (f.offset + n))
seek_memory (backward n) f =
    if leb n f.offset then some (open_at f.contents (f.offset - n)) else none

abbrev memory : Files MemoryFile
memory = record {
  seek_file = seek_memory;
  read_file = λ n f. some (take n (drop f.offset f.contents), open_at f.contents (f.offset + n));
  write_file = λ ds f. some (
      open_at (take f.offset f.contents ++ ds ++ drop (f.offset + length ds) f.contents)
        (f.offset + length ds));
  truncate_file = λ n f. some (open_at (take n f.contents) f.offset);
}

memory-Works : Works memory open_at
memory-Works = record {
  seek_start = λ n b p h. refl;
  seek_forward = λ n b p h. refl;
  seek_backward = λ n b p h. if_true (some (open_at b (p - n))) none (le→leb n p h);
  reads = λ n b p h. refl;
  writes = λ ds b p h k. refl;
  truncates = λ n b p h. refl;
}

abbrev tape_with : MemoryFile → ℕ → ℕ → Tape MemoryFile
tape_with f n p = record {
  file = f;
  size = n;
  position = p;
  bad = false;
  pad_odd = true;
  trunc_pend = true;
  capacity = 100;
  bot = true;
  eot = false;
  eom = false;
  pos_file = pos 0;
  pos_record = pos 0;
  stats = [];
}

abbrev even_record : Record
even_record = record { data_bytes = 1 ∷ 2 ∷ 3 ∷ 4 ∷ []; parity_error = true }

abbrev odd_record : Record
odd_record = plain (5 ∷ [])

even-Fits : Fits even_record
even-Fits = record { nonempty = omega arith; short = omega arith }

odd-Fits : Fits odd_record
odd-Fits = record { nonempty = omega arith; short = omega arith }

abbrev records : List Record
records = even_record ∷ odd_record ∷ []

records-Fits : All Fits records
records-Fits = (even-Fits, (odd-Fits, tt))

abbrev filled : List ℕ
filled = blocks true records ++ (9 ∷ [])

abbrev recorded : Tape MemoryFile
recorded = tape_with (open_at filled 0) 23 0

recorded-At : At open_at true true [] filled recorded
unfolding bytes_of
recorded-At = record {
  file_at = refl;
  size_is = refl;
  position_is = refl;
  is_good = refl;
  padding = refl;
  pending = refl;
  small = omega arith;
}

abbrev at_end : Tape MemoryFile
at_end = tape_with (open_at (blocks true records) 22) 22 22

at_end-At : At open_at true true (blocks true records) [] at_end
unfolding bytes_of
at_end-At = record {
  file_at = refl;
  size_is = refl;
  position_is = refl;
  is_good = refl;
  padding = refl;
  pending = refl;
  small = omega arith;
}

space_forw-blocks_example :
    Ends open_at Code.ok 2 [] true true
      (blocks true records)
      (9 ∷ [])
      (space_forw memory 2 recorded)
space_forw-blocks_example =
    space_forw-blocks memory-Works records [] (9 ∷ []) recorded records-Fits recorded-At

space_back-blocks_example :
    Ends open_at Code.ok 2 [] true true [] (blocks true records ++ []) (space_back memory 2 at_end)
space_back-blocks_example =
    space_back-blocks memory-Works records [] [] at_end records-Fits at_end-At

write_record-block_example :
    Ends open_at Code.ok 0 [] true false
      (block true odd_record)
      (bytes_of meta_eom)
      (write_record memory (5 ∷ []) recorded)
write_record-block_example =
    write_record-block memory-Works true (5 ∷ []) [] filled recorded odd-Fits (omega arith)
      (omega arith) recorded-At

read_record-block_example :
    Ends open_at Code.bad_parity 4
      (1 ∷ 2 ∷ 3 ∷ 4 ∷ [])
      true
      true
      (block true even_record)
      (block true odd_record ++ (9 ∷ []))
      (read_record memory 10 recorded)
unfolding bytes_of
read_record-block_example =
    read_record-block memory-Works even_record 10 [] (block true odd_record ++ (9 ∷ [])) recorded
      even-Fits (omega arith) refl recorded-At

-- A record of four bytes whose second length word is 5.
abbrev spoiled : List ℕ
spoiled = mismatched even_record 5 ++ (9 ∷ [])

abbrev spoiled_tape : Tape MemoryFile
spoiled_tape = tape_with (open_at spoiled 0) 13 0

spoiled-At : At open_at true true [] spoiled spoiled_tape
unfolding bytes_of
spoiled-At = record {
  file_at = refl;
  size_is = refl;
  position_is = refl;
  is_good = refl;
  padding = refl;
  pending = refl;
  small = omega arith;
}

read_record-Spoils_example : Spoils memory open_at true spoiled (read_record memory 10 spoiled_tape)
read_record-Spoils_example =
    read_record-Spoils memory-Works even_record 10 5 [] (9 ∷ []) spoiled_tape even-Fits
      (omega arith) refl (omega arith) (λ e. absurd (omega arith)) spoiled-At

abbrev to_write : List (List ℕ)
to_write = (1 ∷ 2 ∷ []) ∷ (3 ∷ 4 ∷ 5 ∷ 6 ∷ []) ∷ []

to_write-Readable : All (Readable true 8) to_write
to_write-Readable = (
  record {
    fits = record { nonempty = omega arith; short = omega arith };
    room = omega arith;
    even = refl;
  },
  (
    record {
      fits = record { nonempty = omega arith; short = omega arith };
      room = omega arith;
      even = refl;
    },
    tt,
  ),
)

write-space-read_example :
    read_all memory 8 2 (space_back memory 2 (write_all memory to_write recorded)).tape ≡ to_write
write-space-read_example =
    write-space-read memory-Works 8 to_write true [] filled recorded to_write-Readable (omega arith)
      (omega arith) recorded-At

abbrev broken : Tape MemoryFile
broken = record recorded { bad = true }

rewind-At_example : Ends open_at Code.ok 0 [] true true [] filled (rewind memory broken)
unfolding bytes_of
rewind-At_example = rewind-At memory-Works filled 0 broken refl refl (omega arith)
