-- ===== src/Rw11/Disk/Stat.antt =====
-- The counters of Rw11VirtDisk.hpp, Rw11VirtDiskOver.hpp and Rw11VirtDiskRam.hpp, by their index
-- (`Rw11Virt::kDimStat` is 0).
use w.Base.{ℕ}

abbrev pub n_read : ℕ
n_read = 0

abbrev pub n_read_blk : ℕ
n_read_blk = 1

abbrev pub n_write : ℕ
n_write = 2

abbrev pub n_write_blk : ℕ
n_write_blk = 3

abbrev pub over_read : ℕ
over_read = 4

abbrev pub over_read_blk_ff : ℕ
over_read_blk_ff = 5

abbrev pub over_read_blk_fp : ℕ
over_read_blk_fp = 6

abbrev pub over_read_blk_o : ℕ
over_read_blk_o = 7

abbrev pub over_write : ℕ
over_write = 8

abbrev pub over_write_blk : ℕ
over_write_blk = 9

abbrev pub over_flush : ℕ
over_flush = 10

abbrev pub ram_read : ℕ
ram_read = 4

abbrev pub ram_write_over : ℕ
ram_write_over = 5
