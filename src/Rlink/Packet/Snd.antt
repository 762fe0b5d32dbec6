-- ===== src/Rlink/Packet/Snd.antt =====
-- tools/src/librlink/RlinkPacketBufSnd.{cpp,ipp}: a packet is built with its checksum and sent as
-- raw bytes. `RlinkPort::Write` is the argument `write`: the count of bytes that it wrote, or `none`
-- for a negative return. The text of an error message is not kept.
pub mod Stat
use w.Base.{ℕ, ◌+◌, ◌/◌, ◌%◌, ◌^◌, Bool, true, false, ◌&&◌, Option, none, some}
use w.Base.{List, [], ◌∷◌, ◌++◌, length, ◌==◌, if◌then◌else◌}
use w.Rlink.Crc16
use w.Rlink.Stats.{Stats, inc}
use w.Rlink.Packet.{sym_esc, sym_xon, sym_xoff, code_byte}
use w.Rlink.Packet.Ec

pub record Snd : Type 0 where
  pub pkt_buf : List ℕ
  pub crc : ℕ
  pub flags : ℕ
  pub stats : Stats
  pub xon_escape : Bool
  pub raw_buf : List ℕ

-- The default constructor.
unfoldable pub create : Snd
create = record {
  pkt_buf = [];
  crc = Crc16.clear;
  flags = 0;
  stats = 0 ∷ 0 ∷ 0 ∷ [];
  xon_escape = false;
  raw_buf = [];
}

unfoldable pub init : Snd → Snd
init s = record s { pkt_buf = []; raw_buf = []; crc = Crc16.clear; flags = 0 }

unfoldable pub set_xon_escape : Bool → Snd → Snd
set_xon_escape xon s = record s { xon_escape = xon }

-- `PutWithCrc(uint8_t)`.
unfoldable pub put_byte : ℕ → Snd → Snd
put_byte d s = record s { pkt_buf = s.pkt_buf ++ (d ∷ []); crc = Crc16.add_data s.crc d }

-- `PutWithCrc(uint16_t)`: the low byte first.
unfoldable pub put_word : ℕ → Snd → Snd
put_word d s =
    let datl = d % 2 ^ 8 in
    let dath = d / 2 ^ 8 % 2 ^ 8 in
    record s {
      pkt_buf = (s.pkt_buf ++ (datl ∷ [])) ++ (dath ∷ []);
      crc = Crc16.add_data (Crc16.add_data s.crc datl) dath;
    }

-- `PutWithCrc(const uint16_t*, size_t)`.
unfoldable pub put_words : List ℕ → Snd → Snd
put_words [] s = s
put_words (d ∷ ds) s = put_words ds (put_word d s)

unfoldable pub put_crc : Snd → Snd
put_crc s = record s {
  pkt_buf = (s.pkt_buf ++ (s.crc % 2 ^ 8 ∷ [])) ++ (s.crc / 2 ^ 8 % 2 ^ 8 ∷ []);
}

unfoldable pub put_raw_esc : ℕ → List ℕ → List ℕ
put_raw_esc ec raw = (raw ++ (sym_esc ∷ [])) ++ (code_byte ec ∷ [])

-- The variables of the loop in `SndPacket`.
pub record Escaping : Type 0 where
  pub raw : List ℕ
  pub nesc : ℕ
  pub nxesc : ℕ

unfoldable pub escape_byte : Bool → ℕ → Escaping → Escaping
escape_byte xon c e =
    if c == sym_esc
    then record e { raw = put_raw_esc Ec.esc e.raw; nesc = e.nesc + 1 }
    else (if xon && (c == sym_xon)
        then record e { raw = put_raw_esc Ec.xon e.raw; nxesc = e.nxesc + 1 }
        else (if xon && (c == sym_xoff)
            then record e { raw = put_raw_esc Ec.xoff e.raw; nxesc = e.nxesc + 1 }
            else record e { raw = e.raw ++ (c ∷ []) }))

unfoldable pub escape_loop : Bool → List ℕ → Escaping → Escaping
escape_loop xon [] e = e
escape_loop xon (c ∷ cs) e = escape_loop xon cs (escape_byte xon c e)

abbrev pub Port : Type 0
Port = List ℕ → Option ℕ

unfoldable pub snd_raw : Port → List ℕ → Bool
snd_raw write raw = elim (write raw) [ none ↦ false | some irc ↦ irc == length raw ]

-- What `SndPacket` leaves in the buffers before it calls `SndRaw`.
unfoldable pub frame_packet : Snd → Snd
frame_packet s =
    let start : Escaping = record { raw = put_raw_esc Ec.sop []; nesc = 0; nxesc = 0 } in
    let e = escape_loop s.xon_escape s.pkt_buf start in
    record s {
      raw_buf = put_raw_esc Ec.eop e.raw;
      stats = inc Stat.n_tx_xesc e.nxesc (inc Stat.n_tx_esc e.nesc s.stats);
    }

unfoldable pub snd_packet : Port → Snd → Bool × Snd
unfolding frame_packet
snd_packet write s =
    let s' = frame_packet s in
    if snd_raw write s'.raw_buf
    then (true, record s' { stats = inc Stat.n_tx_pkt_byt (length s'.pkt_buf) s'.stats })
    else (false, s')

-- `Init` clears the packet buffer; then the raw buffer is filled directly.
unfoldable pub snd_direct : Port → List ℕ → Snd → Bool × Snd
unfolding init
snd_direct write raw s = (snd_raw write raw, record (init s) { raw_buf = raw })

unfoldable pub snd_oob : Port → ℕ → ℕ → Snd → Bool × Snd
snd_oob write addr d = snd_direct write (
    sym_esc
    ∷ sym_esc
    ∷ addr % 2 ^ 4
    ∷ addr / 2 ^ 4 % 2 ^ 4
    ∷ d % 2 ^ 4
    ∷ d / 2 ^ 4 % 2 ^ 4
    ∷ d / 2 ^ 8 % 2 ^ 4
    ∷ d / 2 ^ 12 % 2 ^ 4
    ∷ 0
    ∷ 0
    ∷ [])

unfoldable pub snd_keep : Port → Snd → Bool × Snd
snd_keep write = snd_direct write (sym_esc ∷ sym_esc ∷ [])

unfoldable pub snd_attn : Port → Snd → Bool × Snd
snd_attn write = snd_direct write (put_raw_esc Ec.attn [])

unfoldable pub snd_nak : Port → Snd → Bool × Snd
snd_nak write = snd_direct write (put_raw_esc Ec.nak [])

unfoldable pub snd_unjam : Port → Snd → Bool × Snd
snd_unjam write = snd_direct write (put_raw_esc Ec.eop [])
