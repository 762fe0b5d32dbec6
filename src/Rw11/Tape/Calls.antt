-- ===== src/Rw11/Tape/Calls.antt =====
-- The tape's state and the calls that all of its operations are made of: `Seek`, `Read`, `Write`,
-- the checks of the position, `ParseMeta`. The text of an error message is not kept.
use w.Base.{ℕ, zero, suc, ◌+◌, ◌-◌, ◌*◌, ◌/◌, ◌%◌, ◌^◌, Bool, true, false, not, Option, none, some}
use w.Base.{List, [], ◌∷◌, length, ltb, leb, ◌==◌, if◌then◌else◌}
use w.Base.Int.{ℤ, pos, negsuc, ◌+ℤ◌}
use w.Rlink.Stats.{Stats, inc}
use w.Rw11.Tape.Code

-- `lseek` from the start of the file, or relative to the position.
pub data Offset : Type 0 where
  start : ℕ → Offset
  forward : ℕ → Offset
  backward : ℕ → Offset

-- The calls of RfileFd: `none` is the return of an error, and `read` may return fewer bytes than
-- are asked for.
pub record Files (File : Type 0) : Type 0 where
  pub seek_file : Offset → File → Option File
  pub read_file : ℕ → File → Option (List ℕ × File)
  pub write_file : List ℕ → File → Option File
  pub truncate_file : ℕ → File → Option File

pub record Tape (File : Type 0) : Type 0 where
  pub file : File
  pub size : ℕ
  pub position : ℕ
  pub bad : Bool
  pub pad_odd : Bool
  pub trunc_pend : Bool
  pub capacity : ℕ
  pub bot : Bool
  pub eot : Bool
  pub eom : Bool
  pub pos_file : ℤ
  pub pos_record : ℤ
  pub stats : Stats

-- A call that returns true with a value, or false; the tape may have changed in both cases.
pub data Attempt (File A : Type 0) : Type 0 where
  good : A → Tape File → Attempt File A
  fail : Tape File → Attempt File A

-- What an operation returns: its result, `opcode`, `ndone`, and the bytes put into `data`.
pub record Result (File : Type 0) : Type 0 where
  pub tape : Tape File
  pub success : Bool
  pub opcode : ℕ
  pub n_done : ℕ
  pub data_read : List ℕ

abbrev pub meta_eof : ℕ
meta_eof = 0

abbrev pub meta_eom : ℕ
meta_eom = 2 ^ 32 - 1

-- The four bytes of a `uint32_t`, the lowest first, as they lie in memory.
unfoldable pub bytes_of : ℕ → List ℕ
bytes_of m = m % 256 ∷ m / 256 % 256 ∷ m / 65536 % 256 ∷ m / 16777216 % 256 ∷ []

-- The bytes of a variable that a short read has left unset count as 0.
unfoldable pub number_of : List ℕ → ℕ
number_of [] = 0
number_of (x ∷ xs) = x + 256 * number_of xs

-- The new position wraps around as a `size_t` does.
unfoldable pub moved_to : Offset → ℕ → ℕ
moved_to (start n) p = n
moved_to (forward n) p = (p + n) % 2 ^ 64
moved_to (backward n) p = (p + (2 ^ 64 - n)) % 2 ^ 64

module _ {File : Type 0} where
  -- `return SetBad()`, with the operation code that each operation starts with.
  unfoldable pub set_bad : ℕ → List ℕ → Tape File → Result File
  set_bad n ds t = record {
    tape = record t { bad = true };
    success = false;
    opcode = Code.bad_format;
    n_done = n;
    data_read = ds;
  }

  -- `return BadTapeMsg(...)`.
  unfoldable pub bad_tape : Tape File → Result File
  bad_tape t = record {
    tape = t;
    success = false;
    opcode = Code.bad_format;
    n_done = 0;
    data_read = [];
  }

  unfoldable pub finish : ℕ → ℕ → List ℕ → Tape File → Result File
  finish code n ds t = record {
    tape = t;
    success = true;
    opcode = code;
    n_done = n;
    data_read = ds;
  }

  -- `if (!call) return SetBad();`, with what `ndone` and `data` are by then.
  abbrev pub or_bad :
      {A : Type 0} → ℕ → List ℕ → Attempt File A → (A → Tape File → Result File) → Result File
  or_bad n ds (good a t) next = next a t
  or_bad n ds (fail t) next = set_bad n ds t

  -- `if (!call) return false;`.
  infixl 5 ◌then_on◌
  abbrev pub ◌then_on◌ :
      {A B : Type 0} → Attempt File A → (A → Tape File → Attempt File B) → Attempt File B
  (good a t) then_on next = next a t
  (fail t) then_on next = fail t

  unfoldable pub tally : ℕ → ℕ → Tape File → Tape File
  tally i n t = record t { stats = inc i n t.stats }

  unfoldable pub inc_pos_record : ℤ → Tape File → Tape File
  inc_pos_record delta t = record t { pos_record = moved t.pos_record }
    where
      moved : ℤ → ℤ
      moved (pos n) = pos n +ℤ delta
      moved (negsuc zero) = negsuc zero
      moved (negsuc (suc n)) = negsuc (suc n) +ℤ delta

  unfoldable pub update_pos : Offset → Tape File → Tape File
  update_pos o t =
      let p = moved_to o t.position in
      record t {
        position = p;
        bot = p == 0;
        eot = if t.capacity == 0 then false else ltb t.capacity p;
      }

  unfoldable pub check_size_forw : ℕ → Tape File → Attempt File Unit
  check_size_forw n t = if leb ((t.position + n) % 2 ^ 64) t.size then good tt t else fail t

  unfoldable pub check_size_back : ℕ → Tape File → Attempt File Unit
  check_size_back n t = if leb n t.position then good tt t else fail t

  unfoldable pub byte_padding : ℕ → Tape File → ℕ
  byte_padding n t = if t.pad_odd then (n + 1) / 2 * 2 % 2 ^ 16 else n

  -- `if (fPos > fSize) fSize = fPos`.
  unfoldable pub grown : Tape File → Tape File
  grown t = record t { size = if ltb t.size t.position then t.position else t.size }

  module _ (fs : Files File) where
    unfoldable pub seek : Offset → Tape File → Attempt File Unit
    seek o t = moved (fs.seek_file o t.file)
      where
        moved : Option File → Attempt File Unit
        moved none = fail t
        moved (some f) = good tt (update_pos o (record t { file = f }))

    unfoldable pub read_bytes : ℕ → Tape File → Attempt File (List ℕ)
    read_bytes n t = taken (fs.read_file n t.file)
      where
        taken : Option (List ℕ × File) → Attempt File (List ℕ)
        taken none = fail t
        taken (some (ds, f)) = good ds (update_pos (forward n) (record t { file = f }))

    -- The truncation in `Write`.
    unfoldable pub cut : Tape File → Attempt File Unit
    cut t = if t.trunc_pend then done (fs.truncate_file t.position t.file) else good tt t
      where
        done : Option File → Attempt File Unit
        done none = fail t
        done (some f) = good tt (record t { file = f; trunc_pend = false; size = t.position })

    unfoldable pub put_bytes : List ℕ → Tape File → Attempt File Unit
    put_bytes ds t = written (fs.write_file ds t.file)
      where
        written : Option File → Attempt File Unit
        written none = fail t
        written (some f) =
            good tt (grown (update_pos (forward (length ds)) (record t { file = f })))

    unfoldable pub write_bytes : List ℕ → Bool → Tape File → Attempt File Unit
    write_bytes ds back t = cut t then_on (λ _ t1.
        put_bytes ds t1
        then_on (λ _ t2. if back then seek (backward (length ds)) t2 else good tt t2))

-- `ParseMeta`: the record length and the parity error flag, or nothing for a bad tag.
unfoldable pub parse_meta : ℕ → Option (ℕ × Bool)
parse_meta m =
    if m / 2 ^ 16 % 2 ^ 15 == 0 then some (m % 2 ^ 16, not (m / 2 ^ 31 % 2 == 0)) else none
