-- ===== src/Rw11/Disk.antt =====
-- tools/src/librw11/Rw11VirtDisk.{hpp,cpp,ipp}: what all virtual disks have in common. The kinds of
-- disks are the child modules. A byte buffer of the caller is the list of its bytes.
pub mod Stat
pub mod Buffer
pub mod BlockMap
pub mod File
pub mod Over
pub mod Pattern
pub mod Ram
pub mod Tests
pub mod View
use w.Base.{ℕ, Bool, List}
use w.Rlink.Stats.{Stats, inc}

pub record Disk : Type 0 where
  pub wprot : Bool
  pub blk_size : ℕ
  pub n_block : ℕ
  pub n_cyl : ℕ
  pub n_head : ℕ
  pub n_sect : ℕ
  pub stats : Stats

unfoldable setup : ℕ → ℕ → ℕ → ℕ → ℕ → Disk → Disk
setup blksize nblock ncyl nhead nsect d = record d {
  blk_size = blksize;
  n_block = nblock;
  n_cyl = ncyl;
  n_head = nhead;
  n_sect = nsect;
}

abbrev pub count : ℕ → ℕ → Disk → Disk
count i n d = record d { stats = inc i n d.stats }

-- A call that returns true, with a value, or false; the disk may have changed in both cases.
pub data Attempt (A D : Type 0) : Type 0 where
  good : A → D → Attempt A D
  fail : D → Attempt A D
