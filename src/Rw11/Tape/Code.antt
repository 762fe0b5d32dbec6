-- ===== src/Rw11/Tape/Code.antt =====
-- `OpCode` of Rw11VirtTape.hpp.
use w.Base.{ℕ}

abbrev pub ok : ℕ
ok = 0

abbrev pub bot : ℕ
bot = 1

abbrev pub eof : ℕ
eof = 2

abbrev pub eom : ℕ
eom = 3

abbrev pub rec_len_err : ℕ
rec_len_err = 4

abbrev pub bad_parity : ℕ
bad_parity = 5

abbrev pub bad_format : ℕ
bad_format = 6
