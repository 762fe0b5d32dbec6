-- ===== src/Rw11/Disk/Tests.antt =====
-- Disks on a file that is kept in memory: the system calls as a concrete function.
use w.Base.{ℕ, ◌+◌, ◌-◌, ◌≡◌, refl, true, false, Option, some}
use w.Base.{List, [], ◌∷◌, length, take, drop, replicate, arith}
use w.Rw11.Tape.Calls.{Files, Offset, start, forward, backward}
use w.Rw11.Disk.{Disk}
use w.Rw11.Disk.BlockMap.{BlockMap}
use w.Rw11.Disk.BlockMap.Laws.{IsMap, overlay}
use w.Rw11.Disk.View.{blocks, updated, file_view}
use w.Rw11.Disk.File
use w.Rw11.Disk.File.{FileDisk}
use w.Rw11.Disk.File.Store.{overwritten}
use w.Rw11.Disk.File.Laws.{Works, IsFile, Leaves, read-blocks}
use w.Rw11.Disk.File.Update.{write-updated}
use w.Rw11.Disk.Over
use w.Rw11.Disk.Over.{OverDisk}
use w.Rw11.Disk.Over.Laws.{IsOver, Keeps, read-Keeps}
use w.Rw11.Disk.Over.Changes.{Shows, write-Shows, flush-Shows}
use w.Rw11.Disk.Pattern.{Pattern}
use w.Rw11.Disk.Ram
use w.Rw11.Disk.Ram.{RamDisk}
use w.Rw11.Disk.Ram.Laws.{HasPatterns, pattern_view}
use w.Rw11.Disk.Ram.Views.{read-view, write-view}

record MemoryFile : Type 0 where
  contents : List ℕ
  offset : ℕ

abbrev open_at : List ℕ → ℕ → MemoryFile
open_at b p = record { contents = b; offset = p }

abbrev seek_memory : Offset → MemoryFile → Option MemoryFile
seek_memory (start n) f = some (open_at f.contents n)
seek_memory (forward n) f = some (open_at f.contents (f.offset + n))
seek_memory (backward n) f = some (open_at f.contents (f.offset - n))

abbrev memory : Files MemoryFile
memory = record {
  seek_file = seek_memory;
  read_file = λ n f.
      (let ds = take n (drop f.offset f.contents) in
        some (ds, open_at f.contents (f.offset + length ds)));
  write_file = λ ds f. some (open_at (overwritten f.offset ds f.contents) (f.offset + length ds));
  truncate_file = λ n f. some (open_at (take n f.contents) f.offset);
}

memory-Works : Works memory open_at
memory-Works = record {
  seeks = λ n b p h. refl;
  reads = λ n b p. refl;
  writes = λ ds b p h k. refl;
}

-- Blocks of four bytes, and a file that ends in the middle of its second block.
abbrev contents : List ℕ
contents = 1 ∷ 2 ∷ 3 ∷ 4 ∷ 5 ∷ 6 ∷ []

abbrev base : Disk
base = record {
  wprot = false;
  blk_size = 4;
  n_block = 100;
  n_cyl = 5;
  n_head = 2;
  n_sect = 10;
  stats = [];
}

abbrev in_file : FileDisk MemoryFile
in_file = record { disk = base; file = open_at contents 0; size = 6 }

in_file-IsFile : IsFile open_at contents in_file
in_file-IsFile = record { position = 0; file_is = refl; size_is = refl; small = omega arith }

read-blocks_example :
    Leaves open_at contents
      (blocks (file_view 4 contents) 1 2)
      in_file
      (File.read memory 1 2 in_file)
read-blocks_example =
    read-blocks memory open_at memory-Works 4 1 2 contents in_file in_file-IsFile refl (omega arith)

abbrev data_out : List ℕ
data_out = 11 ∷ 12 ∷ 13 ∷ 14 ∷ 15 ∷ 16 ∷ 17 ∷ 18 ∷ []

write-updated_example :
    (b' : List ℕ) × Leaves open_at b' tt in_file (File.write memory 3 2 data_out in_file)
    × ((k : ℕ) → file_view 4 b' k ≡ updated 4 3 2 data_out (file_view 4 contents) k)
write-updated_example =
    write-updated memory open_at memory-Works 4 3 2 data_out contents in_file in_file-IsFile refl
      (omega arith) (omega arith) (omega arith)

abbrev in_memory : BlockMap
in_memory =
    (1, record { bytes = 21 ∷ 22 ∷ 23 ∷ 24 ∷ []; n_write = 1 })
    ∷ (5, record { bytes = 31 ∷ 32 ∷ 33 ∷ 34 ∷ []; n_write = 2 })
    ∷ []

in_memory-IsMap : IsMap 4 in_memory
in_memory-IsMap = (
  ((omega arith, tt), (tt, tt)),
  (
    record { sized = refl; in_range = omega arith },
    (record { sized = refl; in_range = omega arith }, tt),
  ),
)

abbrev over : OverDisk MemoryFile
over = record { below = in_file; blk_map = in_memory }

over-IsOver : IsOver open_at 4 contents in_memory over
over-IsOver = record { is_file = in_file-IsFile; map_is = refl; block_size = refl }

read-Keeps_example :
    Keeps open_at 4 contents in_memory
      (blocks (overlay (file_view 4 contents) in_memory) 0 3)
      (Over.read memory 0 3 over)
read-Keeps_example =
    read-Keeps memory open_at memory-Works 4 contents in_memory 0 3 over in_memory-IsMap.0
      over-IsOver (omega arith) (omega arith)

write-Shows_example :
    (s : Shows open_at 4
      (updated 4 1 2 data_out (overlay (file_view 4 contents) in_memory))
      (Over.write 1 2 data_out over))
    × (s.file ≡ contents)
write-Shows_example =
    write-Shows open_at 4 1 2 data_out contents in_memory over in_memory-IsMap over-IsOver
      (omega arith) (omega arith) (omega arith)

flush-Shows_example :
    (s : Shows open_at 4 (overlay (file_view 4 contents) in_memory) (Over.flush memory over))
    × (s.blk_map ≡ [])
flush-Shows_example =
    flush-Shows memory open_at memory-Works 4 contents in_memory over in_memory-IsMap
      (omega arith, (omega arith, tt)) over-IsOver refl

abbrev ram : RamDisk
ram = record {
  disk = record base { blk_size = 32 };
  path = 120 ∷ [];
  no_boot = true;
  pat_typ = Pattern.test;
  blk_map = (2, record { bytes = replicate 32 7; n_write = 1 }) ∷ [];
}

ram-HasPatterns : HasPatterns ram
ram-HasPatterns = record {
  units = 2;
  block_size = refl;
  boot_fits = omega arith;
  sectors = omega arith;
  heads = omega arith;
}

read-view_example :
    (after : RamDisk) × (Ram.read 0 3 ram
      ≡ some (blocks (overlay (pattern_view ram) ram.blk_map) 0 3, after))
    × ((k : ℕ)
        → overlay (pattern_view after) after.blk_map k ≡ overlay (pattern_view ram) ram.blk_map k)
read-view_example = read-view 0 3 ram ram-HasPatterns (omega arith)

write-view_example :
    IsMap 32 (Ram.write 2 1 (replicate 32 9) ram).blk_map
    × ((k : ℕ)
        → overlay
            (pattern_view (Ram.write 2 1 (replicate 32 9) ram))
            (Ram.write 2 1 (replicate 32 9) ram).blk_map
            k
          ≡ updated 32 2 1 (replicate 32 9) (overlay (pattern_view ram) ram.blk_map) k)
write-view_example =
    write-view 2 1 (replicate 32 9) ram
      ((tt, tt), (record { sized = refl; in_range = omega arith }, tt)) (omega arith) (omega arith)
      (omega arith)
