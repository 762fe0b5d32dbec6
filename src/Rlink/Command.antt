-- ===== src/Rlink/Command.antt =====
-- tools/src/librlink/RlinkCommand.{cpp,ipp}: one command of a list, with its result.
-- `block_ext` is the memory of the caller behind `fpBlockExt`, as far as `fBlockExtSize` goes; `none`
-- is the null pointer. `data_word` is `fData`, `expect` is `fupExpect`. An exception is `none`.
pub mod Code
pub mod Flag
pub mod Expect
pub mod Laws
use w.Base.{ℕ, ◌*◌, ◌/◌, ◌%◌, ◌^◌, bit_and, bit_or, bit_xor, Bool, true, false, not, ◌||◌}
use w.Base.{Option, none, some, List, [], length, replicate, ltb, ◌==◌, if◌then◌else◌, ◌>>=◌}

pub record Command : Type 0 where
  pub request : ℕ
  pub address : ℕ
  pub data_word : ℕ
  pub block : List ℕ
  pub block_ext : Option (List ℕ)
  pub block_done : ℕ
  pub status : ℕ
  pub flags : ℕ
  pub rcv_size : ℕ
  pub expect_status_set : Bool
  pub expect_status_val : ℕ
  pub expect_status_msk : ℕ
  pub expect : Option Expect.Expect

unfoldable pub create : Command
create = record {
  request = 0;
  address = 0;
  data_word = 0;
  block = [];
  block_ext = none;
  block_done = 0;
  status = 0;
  flags = 0;
  rcv_size = 0;
  expect_status_set = false;
  expect_status_val = 0;
  expect_status_msk = 0;
  expect = none;
}

unfoldable pub set_command : ℕ → ℕ → ℕ → Command → Option Command
set_command cmd addr d c =
    if ltb Code.init cmd
    then none
    else some (record c {
      request = cmd;
      address = addr;
      data_word = d;
      block_ext = none;
      block_done = 0;
      status = 0;
      flags = Flag.setup;
      rcv_size = 0;
      expect = none;
    })

-- The sizes of a block that are refused.
abbrev pub bad_size : ℕ → Bool
bad_size n = (n == 0) || ltb 65535 n

unfoldable pub set_block_write : List ℕ → Command → Option Command
set_block_write b c =
    if bad_size (length b)
    then none
    else some (record c { block = b; block_ext = none; block_done = 0 })

unfoldable pub set_block_read : ℕ → Command → Option Command
set_block_read size c =
    if bad_size size
    then none
    else some (record c { block = replicate size 0; block_ext = none; block_done = 0 })

-- `none` in place of the block is a null pointer.
unfoldable pub set_block_ext : Option (List ℕ) → Command → Option Command
set_block_ext p c = do
  b ← p
  if bad_size (length b) then none else some (record c { block_ext = some b; block_done = 0 })

unfoldable pub cmd_rreg : ℕ → Command → Option Command
cmd_rreg addr c = set_command Code.rreg addr 0 c

unfoldable pub cmd_wreg : ℕ → ℕ → Command → Option Command
cmd_wreg addr d c = set_command Code.wreg addr d c

unfoldable pub cmd_labo : Command → Option Command
cmd_labo c = set_command Code.labo 0 0 c

unfoldable pub cmd_attn : Command → Option Command
cmd_attn c = set_command Code.attn 0 0 c

unfoldable pub cmd_init : ℕ → ℕ → Command → Option Command
cmd_init addr d c = set_command Code.init addr d c

unfoldable pub cmd_rblk : ℕ → ℕ → Command → Option Command
cmd_rblk addr size c = do c' ← set_command Code.rblk addr 0 c; set_block_read size c'

unfoldable pub cmd_rblk_ext : ℕ → Option (List ℕ) → Command → Option Command
cmd_rblk_ext addr p c = do c' ← set_command Code.rblk addr 0 c; set_block_ext p c'

unfoldable pub cmd_wblk : ℕ → List ℕ → Command → Option Command
cmd_wblk addr b c = do c' ← set_command Code.wblk addr 0 c; set_block_write b c'

unfoldable pub cmd_wblk_ext : ℕ → Option (List ℕ) → Command → Option Command
cmd_wblk_ext addr p c = do c' ← set_command Code.wblk addr 0 c; set_block_ext p c'

-- The sequence number takes the upper five bits of the request byte.
unfoldable pub set_seq_number : ℕ → Command → Command
set_seq_number snum c = record c { request = bit_or (snum * 2 ^ 3) (bit_and c.request 7) % 2 ^ 8 }

abbrev pub set_address : ℕ → Command → Command
set_address addr c = record c { address = addr }

abbrev pub set_data : ℕ → Command → Command
set_data d c = record c { data_word = d }

abbrev pub set_block_done : ℕ → Command → Command
set_block_done n c = record c { block_done = n }

abbrev pub set_status : ℕ → Command → Command
set_status s c = record c { status = s }

abbrev pub set_rcv_size : ℕ → Command → Command
set_rcv_size n c = record c { rcv_size = n }

abbrev pub set_flag_bit : ℕ → Command → Command
set_flag_bit mask c = record c { flags = bit_or c.flags mask }

abbrev pub clear_flag_bit : ℕ → Command → Command
clear_flag_bit mask c = record c { flags = bit_and c.flags (bit_xor mask 0xffff_ffff) }

abbrev pub set_expect : Option Expect.Expect → Command → Command
set_expect e c = record c { expect = e }

unfoldable pub ensure_expect : Command → Command
ensure_expect c = elim c.expect [ none ↦ record c { expect = some Expect.create } | some e ↦ c ]

abbrev pub set_expect_status : ℕ → ℕ → Command → Command
set_expect_status stat msk c = record c {
  expect_status_set = true;
  expect_status_val = stat;
  expect_status_msk = msk;
}

abbrev pub set_expect_status_default : ℕ → ℕ → Command → Command
set_expect_status_default stat msk c = record c {
  expect_status_set = false;
  expect_status_val = stat;
  expect_status_msk = msk;
}

unfoldable pub command : Command → ℕ
command c = bit_and c.request 7

unfoldable pub seq_number : Command → ℕ
seq_number c = c.request / 2 ^ 3

-- The words behind `BlockPointer`, `BlockSize` of them.
abbrev pub words_of : List ℕ → Option (List ℕ) → List ℕ
words_of b none = b
words_of b (some x) = x

unfoldable pub block_words : Command → List ℕ
block_words c = words_of c.block c.block_ext

unfoldable pub block_size : Command → ℕ
unfolding block_words
block_size c = length (block_words c)

-- Stores through `BlockPointer`.
unfoldable pub store_words : List ℕ → Command → Command
store_words ws c = elim c.block_ext [
  | none ↦ record c { block = ws }
  | some x ↦ record c { block_ext = some ws }
]

unfoldable pub block_done_all : Command → Bool
block_done_all c = c.block_done == block_size c

abbrev pub test_flag_any : ℕ → Command → Bool
test_flag_any mask c = not (bit_and c.flags mask == 0)

-- The comparison is with all flags, as in the source.
unfoldable pub test_flag_all : ℕ → Command → Bool
test_flag_all mask c = bit_and c.flags mask == c.flags

unfoldable pub status_check : Command → Bool
status_check c = bit_and c.status c.expect_status_msk == c.expect_status_val

abbrev pub status_is_checked : Command → Bool
status_is_checked c = not (c.expect_status_msk == 0)
