-- ===== src/Rlink/Command/Flag.antt =====
-- The state flags of RlinkCommand.hpp.
use w.Base.{ℕ}

abbrev pub setup : ℕ
setup = 0x1

abbrev pub send : ℕ
send = 0x2

abbrev pub done : ℕ
done = 0x4

abbrev pub labo : ℕ
labo = 0x8

abbrev pub pkt_beg : ℕ
pkt_beg = 0x10

abbrev pub pkt_end : ℕ
pkt_end = 0x20

abbrev pub err_nak : ℕ
err_nak = 0x100

abbrev pub err_dec : ℕ
err_dec = 0x200

abbrev pub chk_stat : ℕ
chk_stat = 0x1000

abbrev pub chk_data : ℕ
chk_data = 0x2000

abbrev pub chk_done : ℕ
chk_done = 0x4000
