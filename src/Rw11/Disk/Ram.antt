-- ===== src/Rw11/Disk/Ram.antt =====
-- tools/src/librw11/Rw11VirtDiskRam.cpp: a disk in memory. `none` is behaviour that is undefined. The
-- keys of the block map are `uint32_t`.
pub mod Laws
pub mod Views
use w.Base.{
  ℕ, ◌%◌, ◌^◌, suc, zero, ◌+◌, Bool, Option, none, some, List, [], ◌++◌, drop, ◌>>=◌, if◌then◌else◌,
}
use w.Rw11.Disk.{Disk, count}
use w.Rw11.Disk.Stat
use w.Rw11.Disk.Pattern.{Pattern, read_pattern, geometry}
use w.Rw11.Disk.Buffer.{Buffer}
use w.Rw11.Disk.BlockMap.{BlockMap, find_block, store_block, has_block}

pub record RamDisk : Type 0 where
  pub disk : Disk
  pub path : List ℕ
  pub no_boot : Bool
  pub pat_typ : Pattern
  pub blk_map : BlockMap

abbrev pub tally : ℕ → ℕ → RamDisk → RamDisk
tally i n d = record d { disk = count i n d.disk }

unfoldable pub pattern_at : ℕ → RamDisk → Option (List ℕ)
pattern_at k d = read_pattern d.no_boot d.pat_typ d.path k (geometry d.disk)

abbrev pub read_block : ℕ → RamDisk → Option Buffer → Option (List ℕ × RamDisk)
read_block k d none = do ds ← pattern_at k d; some (ds, d)
read_block k d (some b) = some (b.bytes, tally Stat.ram_read 1 d)

-- The loop of `Read` from block `k` on.
unfoldable pub read_blocks : ℕ → ℕ → RamDisk → Option (List ℕ × RamDisk)
read_blocks k zero d = some ([], d)
read_blocks k (suc n) d = do
  (ds, d1) ← read_block k d (find_block (k % 2 ^ 32) d.blk_map)
  (es, d2) ← read_blocks (k + 1) n d1
  some (ds ++ es, d2)

unfoldable pub read : ℕ → ℕ → RamDisk → Option (List ℕ × RamDisk)
read lba nblk d = read_blocks lba nblk (tally Stat.n_read_blk nblk (tally Stat.n_read 1 d))

-- The loop of `Write`; each block that is there already counts all blocks of the call.
unfoldable pub write_blocks : ℕ → ℕ → ℕ → List ℕ → RamDisk → RamDisk
write_blocks k zero nblk ds d = d
write_blocks k (suc n) nblk ds d =
    let counted =
      if has_block (find_block (k % 2 ^ 32) d.blk_map)
      then tally Stat.ram_write_over nblk d
      else d in
    write_blocks (k + 1) n nblk (drop d.disk.blk_size ds)
      (record counted { blk_map = store_block d.disk.blk_size (k % 2 ^ 32) ds d.blk_map })

unfoldable pub write : ℕ → ℕ → List ℕ → RamDisk → RamDisk
write lba nblk ds d =
    write_blocks lba nblk nblk ds (tally Stat.n_write_blk nblk (tally Stat.n_write 1 d))
