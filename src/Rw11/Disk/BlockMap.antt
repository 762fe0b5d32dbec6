-- ===== src/Rw11/Disk/BlockMap.antt =====
-- The `std::map` from block numbers to buffers of Rw11VirtDiskOver.hpp and Rw11VirtDiskRam.hpp: a
-- list in ascending order of the block numbers, as the map is gone through.
pub mod Laws
pub mod Kept
use w.Base.{ℕ, Bool, true, false, Option, none, some, List, [], ◌∷◌, ◌==◌, ltb, leb, if◌then◌else◌}
use w.Rw11.Disk.Buffer.{Buffer, write}
use w.Rw11.Disk.Buffer

abbrev pub BlockMap : Type 0
BlockMap = List (ℕ × Buffer)

unfoldable pub find_block : ℕ → BlockMap → Option Buffer
find_block k [] = none
find_block k ((j, b) ∷ m) = let rest = find_block k m in if k == j then some b else rest

-- The key of the first entry that is not below `k`.
unfoldable pub lower_bound : ℕ → BlockMap → Option ℕ
lower_bound k [] = none
lower_bound k ((j, b) ∷ m) = let rest = lower_bound k m in if leb k j then some j else rest

-- `emplace` of a key that is not in the map.
unfoldable pub emplace : ℕ → Buffer → BlockMap → BlockMap
emplace k b [] = (k, b) ∷ []
emplace k b ((j, c) ∷ m) =
    let rest = emplace k b m in if ltb k j then (k, b) ∷ (j, c) ∷ m else (j, c) ∷ rest

-- A call through the iterator of an entry.
unfoldable pub on_block : (Buffer → Buffer) → ℕ → BlockMap → BlockMap
on_block f k [] = []
on_block f k ((j, b) ∷ m) =
    let rest = on_block f k m in if k == j then (j, f b) ∷ m else (j, b) ∷ rest

abbrev pub has_block : Option Buffer → Bool
has_block none = false
has_block (some b) = true

-- The entry of a block, made if there is none, takes the bytes.
unfoldable pub store_block : ℕ → ℕ → List ℕ → BlockMap → BlockMap
store_block blksize k ds m =
    let there = if has_block (find_block k m) then m else emplace k (Buffer.create blksize) m in
    on_block (write ds) k there
