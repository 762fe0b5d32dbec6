-- ===== src/Rlink/Packet/Rcv.antt =====
-- tools/src/librlink/RlinkPacketBufRcv.{cpp,hpp,ipp}: the receive buffer and its state machine.
-- `raw` holds the bytes of `fRawBuf` from `fRawBufDone` up to `fRawBufSize`, so the two indices are
-- equal exactly when it is empty. `fNakIndex` is an option, `none` for -1. A thrown exception is
-- `none`, and so is a loop that runs out of fuel; `Process` shows that neither happens.
pub mod Stat
use w.Base.{ℕ, zero, suc, ◌+◌, ◌-◌, ◌*◌, ◌/◌, ◌^◌, bit_and, bit_or, Bool, true, false, not, ◌&&◌}
use w.Base.{◌||◌, Option, none, some, List, [], ◌∷◌, ◌++◌, length, is_empty, get_elem?, leb, ◌==◌}
use w.Base.{if◌then◌else◌, ◌>>=◌}
use w.Rlink.Crc16
use w.Rlink.Stats.{Stats, inc}
use w.Rlink.Packet.{sym_esc, sym_fill, sym_xon, sym_xoff, nc_inval, complement, ecode}
use w.Rlink.Packet.Ec
use w.Rlink.Packet.Flag

pub data RcvState : Type 0 where
  idle fill done error : RcvState

pub data PktState : Type 0 where
  pend resp attn bad : PktState

pub record Rcv : Type 0 where
  pub pkt_buf : List ℕ
  pub crc : ℕ
  pub flags : ℕ
  pub stats : Stats
  pub raw : List ℕ
  pub state : RcvState
  pub n_done : ℕ
  pub esc_seen : Bool
  pub nak_index : Option ℕ
  pub nak_code : ℕ
  pub drop_data : List ℕ

unfoldable pub create : Rcv
create = record {
  pkt_buf = [];
  crc = Crc16.clear;
  flags = 0;
  stats = 0 ∷ 0 ∷ 0 ∷ 0 ∷ 0 ∷ 0 ∷ 0 ∷ 0 ∷ 0 ∷ 0 ∷ 0 ∷ 0 ∷ 0 ∷ 0 ∷ 0 ∷ 0 ∷ 0 ∷ [];
  raw = [];
  state = idle;
  n_done = 0;
  esc_seen = false;
  nak_index = none;
  nak_code = 0;
  drop_data = [];
}

abbrev pub test_flag : ℕ → Rcv → Bool
test_flag mask r = not (bit_and r.flags mask == 0)

-- The results of `RlinkPort::Read`: bytes, a timeout, the end of the input, another error.
pub data ReadResult : Type 0 where
  bytes : List ℕ → ReadResult
  tout eof failed : ReadResult

-- `timeout_is_zero` is `timeout.IsZero()`. `none` is the exception for data still pending.
unfoldable pub read_data : Bool → ReadResult → Rcv → Option Rcv
read_data timeout_is_zero res r =
    if is_empty r.raw
    then some (elim res [
      | bytes [] ↦ record r { raw = []; flags = bit_or r.flags Flag.err_io }
      | bytes (c ∷ cs) ↦ record r { raw = c ∷ cs }
      | tout ↦
          if timeout_is_zero
          then record r { raw = [] }
          else record r { raw = []; flags = bit_or r.flags Flag.err_tout }
      | _ ↦ record r { raw = []; flags = bit_or r.flags Flag.err_io }
    ])
    else none

-- The counter that `GetEcode` steps for a code.
unfoldable pub ecode_stat : ℕ → ℕ
ecode_stat ec =
    if ec == Ec.sop
    then Stat.n_rx_sop
    else (if ec == Ec.eop
        then Stat.n_rx_eop
        else (if ec == Ec.nak
            then Stat.n_rx_nak
            else (if ec == Ec.attn
                then Stat.n_rx_attn
                else (if ec == Ec.clobber then Stat.n_rx_clobber else Stat.n_rx_esc))))

-- `GetEcode` on a code byte: the escape is over, and the code is counted.
unfoldable pub take_code : ℕ → List ℕ → Rcv → Rcv
take_code c cs r = record r {
  raw = cs;
  esc_seen = false;
  stats = inc (ecode_stat (ecode c)) 1 r.stats;
}

-- The result is the code with the byte it was read from, which the caller finds at
-- `fRawBuf[fRawBufDone-1]`; `none` is the exception for a bad state.
unfoldable pub get_ecode : Rcv → Option (ℕ × ℕ × Rcv)
get_ecode r =
    if r.esc_seen
    then (elim r.raw [ [] ↦ none | c ∷ cs ↦ some (ecode c, c, take_code c cs r) ])
    else none

unfoldable pub drop_byte : ℕ → Rcv → Rcv
drop_byte c r = record r {
  drop_data = r.drop_data ++ (c ∷ []);
  stats = inc Stat.n_rx_drop 1 r.stats;
}

-- The `switch` of `ProcessDataIdle`; `true` is a `return`.
unfoldable pub idle_code : ℕ → ℕ → Rcv → Bool × Rcv
idle_code ec c r =
    if ec == Ec.sop
    then (true, record r { flags = bit_or r.flags Flag.sop_seen; state = fill })
    else (if ec == Ec.attn
        then (true, record r { flags = bit_or r.flags Flag.attn_seen; state = fill })
        else (
          false,
          record r {
            drop_data = (r.drop_data ++ (sym_esc ∷ [])) ++ (c ∷ []);
            stats = inc Stat.n_rx_drop 2 r.stats;
          },
        ))

-- The inner loops over plain data, up to the next escape.
unfoldable pub idle_plain : List ℕ → Rcv → Rcv
idle_plain [] r = record r { raw = [] }
idle_plain (c ∷ cs) r =
    if c == sym_esc then record r { raw = cs; esc_seen = true } else idle_plain cs (drop_byte c r)

unfoldable pub push_byte : ℕ → Rcv → Rcv
push_byte c r = record r { pkt_buf = r.pkt_buf ++ (c ∷ []) }

unfoldable pub fill_plain : List ℕ → Rcv → Rcv
fill_plain [] r = record r { raw = [] }
fill_plain (c ∷ cs) r =
    if c == sym_esc then record r { raw = cs; esc_seen = true } else fill_plain cs (push_byte c r)

-- The NAK code byte is looked at if one more byte is there behind it.
unfoldable pub nak_code_ahead : List ℕ → ℕ
nak_code_ahead [] = nc_inval
nak_code_ahead (nc ∷ []) = nc_inval
nak_code_ahead (nc ∷ x ∷ xs) =
    let ncpos = bit_and nc 7 in
    if (bit_and nc 0xc0 == 0x80) && (bit_and (complement nc / 8) 7 == ncpos)
    then ncpos
    else nc_inval

unfoldable pub frame_error : Rcv → Rcv
frame_error r = record r { flags = bit_or r.flags Flag.err_frame; state = error }

unfoldable pub first_nak : Rcv → Rcv
first_nak r =
    let nc = nak_code_ahead r.raw in
    record r {
      flags = bit_or r.flags Flag.nak_seen;
      nak_index = some (length r.pkt_buf);
      nak_code = nc;
      stats = inc (Stat.n_rx_nak_ccrc + nc) 1 r.stats;
    }

unfoldable pub end_packet : Rcv → Rcv
end_packet r = record r {
  flags = bit_or r.flags Flag.eop_seen;
  state = done;
  stats = inc Stat.n_rx_pkt_byt (length r.pkt_buf) r.stats;
}

unfoldable pub clobbered : Rcv → Rcv
clobbered r = record r { flags = bit_or r.flags Flag.err_clobber; state = error }

-- The `switch` of `ProcessDataFill`; `true` is a `return`.
unfoldable pub fill_code : ℕ → Rcv → Bool × Rcv
fill_code ec r =
    if ec == Ec.eop
    then (true, end_packet r)
    else (if ec == Ec.nak
        then (if test_flag (bit_or Flag.attn_seen Flag.nak_seen) r
            then (true, frame_error r)
            else (false, first_nak r))
        else (if ec == Ec.xon
            then (false, push_byte sym_xon r)
            else (if ec == Ec.xoff
                then (false, push_byte sym_xoff r)
                else (if ec == Ec.fill
                    then (false, push_byte sym_fill r)
                    else (if ec == Ec.esc
                        then (false, push_byte sym_esc r)
                        else (if ec == Ec.clobber
                            then (true, clobbered r)
                            else (true, frame_error r)))))))

-- After the `switch`: return, or go on with the plain data.
abbrev pub and_then : (Rcv → Rcv) → Bool × Rcv → Bool × Rcv
and_then plain (true, r) = (true, r)
and_then plain (false, r) = (false, plain r)

-- The bodies of the outer loops.
unfoldable pub idle_round : Rcv → Option (Bool × Rcv)
idle_round r =
    if r.esc_seen
    then (do
      (ec, c, r') ← get_ecode r
      some (and_then (λ s. idle_plain s.raw s) (idle_code ec c r')))
    else some (false, idle_plain r.raw r)

unfoldable pub fill_round : Rcv → Option (Bool × Rcv)
fill_round r =
    if r.esc_seen
    then (do (ec, c, r') ← get_ecode r; some (and_then (λ s. fill_plain s.raw s) (fill_code ec r')))
    else some (false, fill_plain r.raw r)

abbrev pub go_on : (Rcv → Option Rcv) → Option (Bool × Rcv) → Option Rcv
go_on loop none = none
go_on loop (some (true, r)) = some r
go_on loop (some (false, r)) = loop r

-- `while (fRawBufDone < fRawBufSize)` over a body that may return.
unfoldable pub while_raw : (Rcv → Option (Bool × Rcv)) → ℕ → Rcv → Option Rcv
while_raw body zero r = if is_empty r.raw then some r else none
while_raw body (suc fuel) r = elim (is_empty r.raw) [
  | true ↦ some r
  | false ↦ go_on (while_raw body fuel) (body r)
]

-- Each round takes a byte at least, so the length of the input is enough fuel.
unfoldable pub process_idle : Rcv → Option Rcv
process_idle r = while_raw idle_round (length r.raw) r

unfoldable pub process_fill : Rcv → Option Rcv
process_fill r = while_raw fill_round (length r.raw) r

abbrev pub not_returned : Option Rcv → Option (Bool × Rcv)
not_returned none = none
not_returned (some r) = some (false, r)

-- The `switch (fRcvState)` of `ProcessData`.
unfoldable pub dispatch : RcvState → Rcv → Option (Bool × Rcv)
dispatch idle r = not_returned (process_idle r)
dispatch fill r = not_returned (process_fill r)
dispatch done r = some (true, r)
dispatch error r = some (true, r)

abbrev pub process_round : Rcv → Option (Bool × Rcv)
process_round r = dispatch r.state r

-- The Boolean is the result: whether there were data to process.
unfoldable pub process_data : Rcv → Option (Bool × Rcv)
process_data r =
    if is_empty r.raw
    then some (false, r)
    else (do r' ← while_raw process_round (length r.raw) r; some (true, r'))

unfoldable pub accept_packet : Rcv → Rcv
accept_packet r = record r {
  pkt_buf = [];
  crc = Crc16.clear;
  flags = 0;
  state = idle;
  n_done = 0;
  nak_index = none;
  nak_code = 0;
  drop_data = [];
}

unfoldable pub flush_raw : Rcv → Rcv
flush_raw r = record r { raw = []; esc_seen = false }

abbrev pub pkt_state_of : RcvState → Bool → PktState
pkt_state_of idle sop = pend
pkt_state_of fill sop = pend
pkt_state_of done sop = if sop then resp else attn
pkt_state_of error sop = bad

unfoldable pub packet_state : Rcv → PktState
packet_state r = pkt_state_of r.state (test_flag Flag.sop_seen r)

abbrev pub nak_at : Option ℕ → ℕ → Bool
nak_at none n = false
nak_at (some i) n = n == i

unfoldable pub check_nak : Rcv → Bool
check_nak r = nak_at r.nak_index r.n_done

-- `fPktBuf.size()-fNDone` does not wrap, since no more bytes are taken than there are.
unfoldable pub check_size : ℕ → Rcv → Bool
check_size n r = leb n (length r.pkt_buf - r.n_done)

-- A read behind the end of the packet is undefined in the source: `none`.
unfoldable pub next_byte : Rcv → Option (ℕ × Rcv)
next_byte r = do c ← get_elem? r.pkt_buf r.n_done; some (c, record r { n_done = r.n_done + 1 })

abbrev pub crc_byte : ℕ → Rcv → Rcv
crc_byte c r = record r { crc = Crc16.add_data r.crc c }

-- `GetWithCrc(uint8_t&)`.
unfoldable pub get_byte : Rcv → Option (ℕ × Rcv)
get_byte r = do (c, r') ← next_byte r; some (c, crc_byte c r')

-- `GetWithCrc(uint16_t&)`: the low byte first.
unfoldable pub get_word : Rcv → Option (ℕ × Rcv)
get_word r = do
  (datl, r1) ← next_byte r
  (dath, r2) ← next_byte r1
  some (bit_or datl (dath * 2 ^ 8), crc_byte dath (crc_byte datl r2))

-- `GetWithCrc(uint16_t*, size_t)`.
unfoldable pub get_words : ℕ → Rcv → Option (List ℕ × Rcv)
get_words zero r = some ([], r)
get_words (suc n) r = do (d, r1) ← get_word r; (ds, r2) ← get_words n r1; some (d ∷ ds, r2)

unfoldable pub check_crc : Rcv → Option (Bool × Rcv)
check_crc r = do
  (datl, r1) ← next_byte r
  (dath, r2) ← next_byte r1
  some (bit_or datl (dath * 2 ^ 8) == r2.crc, r2)
