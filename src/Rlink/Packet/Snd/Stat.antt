-- ===== src/Rlink/Packet/Snd/Stat.antt =====
-- The counters of RlinkPacketBufSnd.hpp, by index.
use w.Base.{ℕ}

abbrev pub n_tx_pkt_byt : ℕ
n_tx_pkt_byt = 0

abbrev pub n_tx_esc : ℕ
n_tx_esc = 1

abbrev pub n_tx_xesc : ℕ
n_tx_xesc = 2
