-- ===== src/Rlink/Packet/Ec.antt =====
-- The codes of an escape in RlinkPacketBuf.hpp; `clobber` is the answer for a damaged code byte.
use w.Base.{ℕ}

abbrev pub sop : ℕ
sop = 0

abbrev pub eop : ℕ
eop = 1

abbrev pub nak : ℕ
nak = 2

abbrev pub attn : ℕ
attn = 3

abbrev pub xon : ℕ
xon = 4

abbrev pub xoff : ℕ
xoff = 5

abbrev pub fill : ℕ
fill = 6

abbrev pub esc : ℕ
esc = 7

abbrev pub clobber : ℕ
clobber = 0xff
