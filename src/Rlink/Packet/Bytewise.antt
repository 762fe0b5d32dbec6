-- ===== src/Rlink/Packet/Bytewise.antt =====
-- An independent description of the receive buffer: a machine that takes one byte at a time. What
-- the loops of RlinkPacketBufRcv.cpp do is stated in terms of it.
use w.Base.{Bool, true, false, ℕ, List, [], ◌∷◌, ◌==◌, if◌then◌else◌}
use w.Rlink.Packet.{sym_esc, ecode}
use w.Rlink.Packet.Rcv.{Rcv, RcvState, take_code, drop_byte, push_byte, idle_code, fill_code}

abbrev pub is_active : RcvState → Bool
is_active RcvState.idle = true
is_active RcvState.fill = true
is_active RcvState.done = false
is_active RcvState.error = false

abbrev pub second : Bool × Rcv → Rcv
second (b, r) = r

-- A byte outside of an escape: the start of one, or data.
unfoldable pub plain_step : RcvState → ℕ → Rcv → Rcv
plain_step RcvState.idle c r = drop_byte c r
plain_step _ c r = push_byte c r

unfoldable pub code_step : RcvState → ℕ → Rcv → Rcv
code_step RcvState.idle c r = second (idle_code (ecode c) c r)
code_step _ c r = second (fill_code (ecode c) r)

-- One byte, with the bytes behind it, which a NAK looks at.
unfoldable pub step : ℕ → List ℕ → Rcv → Rcv
step c cs r =
    if r.esc_seen
    then code_step r.state c (take_code c cs r)
    else (if c == sym_esc
        then record r { raw = cs; esc_seen = true }
        else plain_step r.state c (record r { raw = cs }))

-- All bytes in turn, up to the end of a packet.
unfoldable pub feed : List ℕ → Rcv → Rcv
feed [] r = record r { raw = [] }
feed (c ∷ cs) r =
    let rest = feed cs (step c cs r) in
    if is_active r.state then rest else record r { raw = c ∷ cs }
