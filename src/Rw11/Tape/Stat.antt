-- ===== src/Rw11/Tape/Stat.antt =====
-- The counters of Rw11VirtTape.hpp, by their index (`Rw11Virt::kDimStat` is 0).
use w.Base.{ℕ}

abbrev pub n_read_rec : ℕ
n_read_rec = 0

abbrev pub n_read_byt : ℕ
n_read_byt = 1

abbrev pub n_read_eof : ℕ
n_read_eof = 2

abbrev pub n_read_eom : ℕ
n_read_eom = 3

abbrev pub n_read_perr : ℕ
n_read_perr = 4

abbrev pub n_read_lerr : ℕ
n_read_lerr = 5

abbrev pub n_write_rec : ℕ
n_write_rec = 6

abbrev pub n_write_byt : ℕ
n_write_byt = 7

abbrev pub n_write_eof : ℕ
n_write_eof = 8

abbrev pub n_spa_forw : ℕ
n_spa_forw = 9

abbrev pub n_spa_back : ℕ
n_spa_back = 10

abbrev pub n_rewind : ℕ
n_rewind = 11
