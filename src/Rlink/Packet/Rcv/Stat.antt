-- ===== src/Rlink/Packet/Rcv/Stat.antt =====
-- The counters of RlinkPacketBufRcv.hpp, by index; a NAK code `n` counts at `n_rx_nak_ccrc + n`.
use w.Base.{ℕ}

abbrev pub n_rx_pkt_byt : ℕ
n_rx_pkt_byt = 0

abbrev pub n_rx_drop : ℕ
n_rx_drop = 1

abbrev pub n_rx_sop : ℕ
n_rx_sop = 2

abbrev pub n_rx_eop : ℕ
n_rx_eop = 3

abbrev pub n_rx_nak : ℕ
n_rx_nak = 4

abbrev pub n_rx_attn : ℕ
n_rx_attn = 5

abbrev pub n_rx_esc : ℕ
n_rx_esc = 6

abbrev pub n_rx_clobber : ℕ
n_rx_clobber = 7

abbrev pub n_rx_nak_ccrc : ℕ
n_rx_nak_ccrc = 8
