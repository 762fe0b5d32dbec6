-- ===== src/Rw11/Disk/Pattern.antt =====
-- `ReadPattern` of tools/src/librw11/Rw11VirtDiskRam.cpp: what a block holds that was never written.
use w.Base.{ℕ, zero, suc, ◌+◌, ◌-◌, ◌*◌, ◌/◌, ◌%◌, ◌^◌, Bool, Option, none, some}
use w.Base.{List, [], ◌∷◌, ◌++◌, length, take, replicate, ◌==◌, ltb, leb, ◌&&◌, ◌||◌, if◌then◌else◌}
use w.Rw11.Disk.{Disk}

-- What the pattern depends on.
pub record Geometry : Type 0 where
  pub blk_size : ℕ
  pub n_block : ℕ
  pub n_cyl : ℕ
  pub n_head : ℕ
  pub n_sect : ℕ

abbrev pub geometry : Disk → Geometry
geometry d = record {
  blk_size = d.blk_size;
  n_block = d.n_block;
  n_cyl = d.n_cyl;
  n_head = d.n_head;
  n_sect = d.n_sect;
}

pub data Pattern : Type 0 where
  zeros ones dead test : Pattern

-- The bytes of `uint16_t` values, as they lie in memory.
abbrev pub word_bytes : List ℕ → List ℕ
word_bytes [] = []
word_bytes (w ∷ ws) = w % 256 ∷ w / 256 % 256 ∷ word_bytes ws

-- What one pass of a loop writes.
unfoldable pub pattern_words : Pattern → ℕ → ℕ → Geometry → List ℕ
pattern_words Pattern.zeros lba addr d = 0 ∷ []
pattern_words Pattern.ones lba addr d = 0xffff ∷ []
pattern_words Pattern.dead lba addr d = 0xdead ∷ 0xbeaf ∷ []
pattern_words Pattern.test lba addr d =
    addr % 2 ^ 16
    ∷ addr / 2 ^ 16 % 2 ^ 16
    ∷ lba / (d.n_sect * d.n_head) % 2 ^ 16
    ∷ lba / d.n_sect % d.n_head % 2 ^ 16
    ∷ lba % d.n_sect % 2 ^ 16
    ∷ d.n_cyl % 2 ^ 16
    ∷ d.n_head % 2 ^ 16
    ∷ d.n_sect % 2 ^ 16
    ∷ []

-- `while (p < pend)`, with `left` bytes between the pointers; each pass writes two bytes at least.
unfoldable pub fill : Pattern → ℕ → Geometry → ℕ → ℕ → ℕ → List ℕ
fill pat lba d zero left addr = []
fill pat lba d (suc fuel) left addr =
    let bytes = word_bytes (pattern_words pat lba addr d) in
    let rest = fill pat lba d fuel (left - length bytes) ((addr + 16) % 2 ^ 64) in
    if left == 0 then [] else bytes ++ rest

-- The decimal digits of a number, as `operator<<` prints it.
unfoldable pub digits : ℕ → ℕ → List ℕ → List ℕ
digits zero n acc = acc
digits (suc fuel) n acc =
    let more = digits fuel (n / 10) ((48 + n % 10) ∷ acc) in
    if ltb n 10 then (48 + n) ∷ acc else more

unfoldable pub decimal : ℕ → List ℕ
decimal n = digits 20 n []

-- The instructions in front of the text.
abbrev pub boot_code : List ℕ
boot_code =
    0x15c0 ∷ 0x0016 ∷ 0x8bc8 ∷ 0x0306 ∷ 0x8bdf ∷ 0xff74 ∷ 0x80fd ∷ 0x941f ∷ 0xff76 ∷ 0x01f8 ∷ 0x0000
    ∷ []

-- The lines of the message.
abbrev frame_line : List ℕ
frame_line =
    43 ∷ 43 ∷ 61 ∷ 61 ∷ 61 ∷ 61 ∷ 61 ∷ 61 ∷ 61 ∷ 61 ∷ 61 ∷ 61 ∷ 61 ∷ 61 ∷ 61 ∷ 61 ∷ 61 ∷ 61 ∷ 61
    ∷ 61 ∷ 61 ∷ 61 ∷ 61 ∷ 61 ∷ 61 ∷ 61 ∷ 61 ∷ 61 ∷ 61 ∷ 61 ∷ 61 ∷ 61 ∷ 61 ∷ 61 ∷ 61 ∷ 61 ∷ 61 ∷ 61
    ∷ 61 ∷ 61 ∷ 43 ∷ 43 ∷ 13 ∷ 10 ∷ []

-- `|| This is not a hardware bootable disk ||`
abbrev message_line : List ℕ
message_line =
    124 ∷ 124 ∷ 32 ∷ 84 ∷ 104 ∷ 105 ∷ 115 ∷ 32 ∷ 105 ∷ 115 ∷ 32 ∷ 110 ∷ 111 ∷ 116 ∷ 32 ∷ 97 ∷ 32
    ∷ 104 ∷ 97 ∷ 114 ∷ 100 ∷ 119 ∷ 97 ∷ 114 ∷ 101 ∷ 32 ∷ 98 ∷ 111 ∷ 111 ∷ 116 ∷ 97 ∷ 98 ∷ 108 ∷ 101
    ∷ 32 ∷ 100 ∷ 105 ∷ 115 ∷ 107 ∷ 32 ∷ 124 ∷ 124 ∷ 13 ∷ 10 ∷ []

-- `Virtual disk: CHS=`
abbrev chs_label : List ℕ
chs_label =
    86 ∷ 105 ∷ 114 ∷ 116 ∷ 117 ∷ 97 ∷ 108 ∷ 32 ∷ 100 ∷ 105 ∷ 115 ∷ 107 ∷ 58 ∷ 32 ∷ 67 ∷ 72 ∷ 83 ∷ 61
    ∷ []

-- ` blocks=`
abbrev blocks_label : List ℕ
blocks_label = 32 ∷ 98 ∷ 108 ∷ 111 ∷ 99 ∷ 107 ∷ 115 ∷ 61 ∷ []

-- ` name=`
abbrev name_label : List ℕ
name_label = 32 ∷ 110 ∷ 97 ∷ 109 ∷ 101 ∷ 61 ∷ []

-- `CPU WILL HALT`
abbrev halt_line : List ℕ
halt_line = 67 ∷ 80 ∷ 85 ∷ 32 ∷ 87 ∷ 73 ∷ 76 ∷ 76 ∷ 32 ∷ 72 ∷ 65 ∷ 76 ∷ 84 ∷ 13 ∷ 10 ∷ []

abbrev newline : List ℕ
newline = 13 ∷ 10 ∷ []

-- `path` is `fUrl.Path()`.
unfoldable pub boot_text : List ℕ → Geometry → List ℕ
boot_text path d =
    newline
    ++ frame_line
    ++ message_line
    ++ frame_line
    ++ newline
    ++ chs_label
    ++ decimal d.n_cyl
    ++ (44 ∷ [])
    ++ decimal d.n_head
    ++ (44 ∷ [])
    ++ decimal d.n_sect
    ++ blocks_label
    ++ decimal d.n_block
    ++ (40 ∷ [])
    ++ decimal d.blk_size
    ++ (41 ∷ [])
    ++ name_label
    ++ path
    ++ newline
    ++ halt_line
    ++ newline

-- The text is cut at the end of the block, and the last byte is 0.
unfoldable pub boot_block : List ℕ → Geometry → List ℕ
boot_block path d =
    let room = d.blk_size - 22 - 1 in
    let text = take room (boot_text path d) in
    word_bytes boot_code ++ (text ++ replicate (room - length text) 0) ++ (0 ∷ [])

-- `none` is a write behind the end of the block, or a division by zero.
unfoldable pub read_pattern : Bool → Pattern → List ℕ → ℕ → Geometry → Option (List ℕ)
read_pattern noboot pat path lba d =
    let bs = d.blk_size in
    if (lba == 0) && noboot
    then (if leb bs 22 then none else some (boot_block path d))
    else (if (d.n_sect == 0) || (d.n_head == 0)
        then none
        else (let bytes = fill pat lba d bs bs (lba * bs % 2 ^ 64) in
            if length bytes == bs then some bytes else none))
