-- ===== src/Rw11/Disk/File.antt =====
-- tools/src/librw11/Rw11VirtDiskFile.cpp: a disk in a file. Positions and lengths are `size_t`; a
-- position from 2^63 on is no offset of `lseek`, and what the seek then does is left to the file.
pub mod Store
pub mod Update
pub mod Laws
use w.Base.{ℕ, ◌+◌, ◌-◌, ◌*◌, ◌%◌, ◌^◌, Option, none, some, List, ◌++◌, length, take, replicate}
use w.Base.{ltb, leb, if◌then◌else◌}
use w.Rw11.Tape.Calls.{Files, start}
use w.Rw11.Disk.{Disk, Attempt, good, fail, count}
use w.Rw11.Disk.Stat

pub record FileDisk (File : Type 0) : Type 0 where
  pub disk : Disk
  pub file : File
  pub size : ℕ

module _ {File : Type 0} (fs : Files File) where
  -- What is read is filled up with zeros.
  abbrev filled : ℕ → FileDisk File → Option (List ℕ × File) → Attempt (List ℕ) (FileDisk File)
  filled nbyt d none = fail d
  filled nbyt d (some (ds, f)) = good (ds ++ replicate (nbyt - length ds) 0) (record d { file = f })

  abbrev read_at : ℕ → FileDisk File → Option File → Attempt (List ℕ) (FileDisk File)
  read_at nbyt d none = fail d
  read_at nbyt d (some f) = filled nbyt (record d { file = f }) (fs.read_file nbyt f)

  unfoldable pub read : ℕ → ℕ → FileDisk File → Attempt (List ℕ) (FileDisk File)
  read lba nblk d =
      let d1 = record d { disk = count Stat.n_read_blk nblk (count Stat.n_read 1 d.disk) } in
      let seekpos = d.disk.blk_size * lba % 2 ^ 64 in
      let nbyt = d.disk.blk_size * nblk % 2 ^ 64 in
      if leb d.size seekpos
      then good (replicate nbyt 0) d1
      else read_at nbyt d1 (fs.seek_file (start seekpos) d.file)

  -- `if (seekpos+nbyt > fSize) fSize = seekpos+nbyt`.
  abbrev written : ℕ → FileDisk File → Option File → Attempt Unit (FileDisk File)
  written end_pos d none = fail d
  written end_pos d (some f) =
      good tt (record d { file = f; size = if ltb d.size end_pos then end_pos else d.size })

  abbrev write_at : ℕ → List ℕ → FileDisk File → Option File → Attempt Unit (FileDisk File)
  write_at end_pos ds d none = fail d
  write_at end_pos ds d (some f) = written end_pos (record d { file = f }) (fs.write_file ds f)

  unfoldable pub write : ℕ → ℕ → List ℕ → FileDisk File → Attempt Unit (FileDisk File)
  write lba nblk ds d =
      let d1 = record d { disk = count Stat.n_write_blk nblk (count Stat.n_write 1 d.disk) } in
      let seekpos = d.disk.blk_size * lba % 2 ^ 64 in
      let nbyt = d.disk.blk_size * nblk % 2 ^ 64 in
      write_at ((seekpos + nbyt) % 2 ^ 64) (take nbyt ds) d1 (fs.seek_file (start seekpos) d.file)
