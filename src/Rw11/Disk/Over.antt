-- ===== src/Rw11/Disk/Over.antt =====
-- tools/src/librw11/Rw11VirtDiskOver.cpp: a disk that keeps what is written in memory, until a
-- flush writes it to the file below. The keys of the block map are `uint32_t`.
pub mod Laws
pub mod Changes
use w.Base.{
  ℕ, ◌%◌, ◌^◌, suc, zero, ◌+◌, ◌*◌, Bool, true, false, Option, none, some, List, [], ◌∷◌, ◌++◌,
  drop,
}
use w.Base.{leb, if◌then◌else◌}
use w.Rw11.Tape.Calls.{Files}
use w.Rw11.Disk.{Disk, Attempt, good, fail, count}
use w.Rw11.Disk.Stat
use w.Rw11.Disk.Buffer.{Buffer}
use w.Rw11.Disk.BlockMap.{BlockMap, find_block, lower_bound, store_block}
use w.Rw11.Disk.File.{FileDisk}
use w.Rw11.Disk.File

pub record OverDisk (Handle : Type 0) : Type 0 where
  pub below : FileDisk Handle
  pub blk_map : BlockMap

-- No block of the map at `lba` or behind it, below `lba_end`.
abbrev pub no_match : Option ℕ → ℕ → Bool
no_match none lba_end = true
no_match (some k) lba_end = leb lba_end k

-- The loop of `Write`.
unfoldable pub write_blocks : ℕ → ℕ → ℕ → List ℕ → BlockMap → BlockMap
write_blocks blksize lba zero ds m = m
write_blocks blksize lba (suc n) ds m =
    write_blocks blksize (lba + 1) n (drop blksize ds) (store_block blksize (lba % 2 ^ 32) ds m)

module _ {Handle : Type 0} where
  abbrev pub tally : ℕ → ℕ → OverDisk Handle → OverDisk Handle
  tally i n d = record d { below = record d.below { disk = count i n d.below.disk } }

  abbrev pub blk_size : OverDisk Handle → ℕ
  blk_size d = d.below.disk.blk_size

  -- A call of the class below.
  abbrev pub from_below :
      {A : Type 0} → BlockMap → Attempt A (FileDisk Handle) → Attempt A (OverDisk Handle)
  from_below m (good a f) = good a (record { below = f; blk_map = m })
  from_below m (fail f) = fail (record { below = f; blk_map = m })

  -- The rest of a read in pieces.
  abbrev pub then_read :
      Attempt (List ℕ) (OverDisk Handle)
      → (OverDisk Handle → Attempt (List ℕ) (OverDisk Handle))
      → Attempt (List ℕ) (OverDisk Handle)
  then_read (fail d) loop = fail d
  then_read (good ds d) loop = joined ds (loop d)
    where
      joined : List ℕ → Attempt (List ℕ) (OverDisk Handle) → Attempt (List ℕ) (OverDisk Handle)
      joined ds (good es d) = good (ds ++ es) d
      joined ds (fail d) = fail d

  unfoldable pub write : ℕ → ℕ → List ℕ → OverDisk Handle → Attempt Unit (OverDisk Handle)
  write lba nblk ds d =
      let d1 = tally Stat.over_write_blk nblk (tally Stat.over_write 1 d) in
      good tt (record d1 { blk_map = write_blocks (blk_size d) lba nblk ds d.blk_map })

  module _ (fs : Files Handle) where
    abbrev pub read_block : ℕ → OverDisk Handle → Option Buffer → Attempt (List ℕ) (OverDisk Handle)
    read_block k d none =
        from_below d.blk_map (File.read fs k 1 (tally Stat.over_read_blk_fp 1 d).below)
    read_block k d (some b) = good b.bytes (tally Stat.over_read_blk_o 1 d)

    -- The loop of `Read` from block `k` on.
    unfoldable pub read_blocks : ℕ → ℕ → OverDisk Handle → Attempt (List ℕ) (OverDisk Handle)
    read_blocks k zero d = good [] d
    read_blocks k (suc n) d =
        then_read (read_block k d (find_block (k % 2 ^ 32) d.blk_map)) (read_blocks (k + 1) n)

    unfoldable pub read : ℕ → ℕ → OverDisk Handle → Attempt (List ℕ) (OverDisk Handle)
    read lba nblk d =
        let d1 = tally Stat.over_read 1 d in
        if no_match (lower_bound (lba % 2 ^ 32) d.blk_map) (lba + nblk)
        then from_below d.blk_map
            (File.read fs lba nblk (tally Stat.over_read_blk_ff nblk d1).below)
        else read_blocks lba nblk d1

    abbrev pub after_write :
        Attempt Unit (FileDisk Handle)
        → (FileDisk Handle → Attempt Unit (FileDisk Handle))
        → Attempt Unit (FileDisk Handle)
    after_write (fail f) loop = fail f
    after_write (good u f) loop = loop f

    -- The loop of `Flush`.
    unfoldable pub flush_blocks : BlockMap → FileDisk Handle → Attempt Unit (FileDisk Handle)
    flush_blocks [] f = good tt f
    flush_blocks ((k, b) ∷ m) f = after_write (File.write fs k 1 b.bytes f) (flush_blocks m)

    abbrev cleared : BlockMap → Attempt Unit (FileDisk Handle) → Attempt Unit (OverDisk Handle)
    cleared m (fail f) = fail (record { below = f; blk_map = m })
    cleared m (good u f) = good u (record { below = f; blk_map = [] })

    unfoldable pub flush : OverDisk Handle → Attempt Unit (OverDisk Handle)
    flush d =
        if d.below.disk.wprot
        then fail d
        else cleared d.blk_map (flush_blocks d.blk_map (tally Stat.over_flush 1 d).below)
