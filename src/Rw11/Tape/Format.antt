-- ===== src/Rw11/Tape/Format.antt =====
-- The "tap" format, written down independently of Rw11VirtTapeTap.cpp: a record is its data between
-- two words with the length and the parity error mark.
use w.Base.{ℕ, ◌+◌, ◌-◌, ◌%◌, ◌^◌, ◌<◌, ◌≤◌, ◌≡◌, refl, Bool, true, false, ◌&&◌}
use w.Base.{some, List, [], ◌∷◌, ◌++◌, length, if◌then◌else◌, ◌==◌, length-append, arith}
use w.Rw11.Tape.Calls.{bytes_of, number_of, parse_meta, byte_padding, Tape}

pub record Record : Type 0 where
  pub data_bytes : List ℕ
  pub parity_error : Bool

-- A record that the format can hold: an empty one would look like an end of file mark.
pub record Fits (r : Record) : Type 0 where
  pub nonempty : 0 < length r.data_bytes
  pub short : length r.data_bytes < 2 ^ 16 - 1

abbrev pub tag : Record → ℕ
tag r = length r.data_bytes + (if r.parity_error then 2 ^ 31 else 0)

-- A record of odd length is filled up, if the format asks for it.
abbrev pub filling : Bool → ℕ → List ℕ
filling pad n = if pad && (n % 2 == 1) then 0 ∷ [] else []

-- What follows the first word: the data and the second word.
abbrev pub block_tail : Bool → Record → List ℕ
block_tail pad r = r.data_bytes ++ filling pad (length r.data_bytes) ++ bytes_of (tag r)

abbrev pub block : Bool → Record → List ℕ
block pad r = bytes_of (tag r) ++ block_tail pad r

abbrev pub blocks : Bool → List Record → List ℕ
blocks pad [] = []
blocks pad (r ∷ rs) = block pad r ++ blocks pad rs

pub length-bytes_of : (m : ℕ) → length (bytes_of m) ≡ 4
unfolding bytes_of
length-bytes_of m = refl

-- A word of the file comes back as the number it was.
pub number-bytes : (m : ℕ) → m < 2 ^ 32 → number_of (bytes_of m) ≡ m
unfolding number_of bytes_of
number-bytes m h = omega arith

flag_weight-cases : (b : Bool) → (n : ℕ) → n + (if b then 2 ^ 31 else 0) ≤ n + 2 ^ 31
flag_weight-cases b n = ground arith

pub tag-lt : (r : Record) → Fits r → tag r < 2 ^ 31 + 2 ^ 16
tag-lt r f = omega (arith, f.short, flag_weight-cases r.parity_error (length r.data_bytes))

pub tag-word : (r : Record) → Fits r → tag r < 2 ^ 32
tag-word r f = omega (arith, tag-lt r f)

pub tag-pos : (r : Record) → Fits r → 0 < tag r
tag-pos r f = ground (arith, f.nonempty)

parse_meta-of :
    (n : ℕ) (b : Bool) → n < 2 ^ 16 → parse_meta (n + (if b then 2 ^ 31 else 0)) ≡ some (n, b)
unfolding parse_meta
parse_meta-of n true h = ground arith
parse_meta-of n false h = ground arith

pub parse_meta-tag :
    (r : Record) → Fits r → parse_meta (tag r) ≡ some (length r.data_bytes, r.parity_error)
parse_meta-tag r f = parse_meta-of (length r.data_bytes) r.parity_error (omega (arith, f.short))

pub length-filling_le : (pad : Bool) (n : ℕ) → length (filling pad n) ≤ 1
length-filling_le pad n = ground arith

pub byte_padding-filling :
    {File : Type 0} (pad : Bool) (t : Tape File) (n : ℕ)
    → t.pad_odd ≡ pad
    → n < 2 ^ 16 - 1
    → byte_padding n t ≡ n + length (filling pad n)
unfolding byte_padding
byte_padding-filling pad t n e h = ground (arith, e)

pub length-block_tail :
    (pad : Bool) (r : Record)
    → length (block_tail pad r)
      ≡ 4 + (length r.data_bytes + length (filling pad (length r.data_bytes)))
unfolding bytes_of
length-block_tail pad r =
    let n = length r.data_bytes in
    omega (
      arith,
      length-append (r.data_bytes ++ filling pad n) (bytes_of (tag r)),
      length-append r.data_bytes (filling pad n),
    )

pub length-block :
    (pad : Bool) (r : Record)
    → length (block pad r) ≡ 8 + (length r.data_bytes + length (filling pad (length r.data_bytes)))
unfolding bytes_of
length-block pad r = omega (arith, length-block_tail pad r)
