-- ===== src/Rlink/Packet/Flag.antt =====
-- The flag bits of RlinkPacketBuf.hpp.
use w.Base.{ℕ}

abbrev pub sop_seen : ℕ
sop_seen = 1

abbrev pub eop_seen : ℕ
eop_seen = 2

abbrev pub nak_seen : ℕ
nak_seen = 4

abbrev pub attn_seen : ℕ
attn_seen = 8

abbrev pub err_tout : ℕ
err_tout = 65536

abbrev pub err_io : ℕ
err_io = 131072

abbrev pub err_frame : ℕ
err_frame = 262144

abbrev pub err_clobber : ℕ
err_clobber = 524288
