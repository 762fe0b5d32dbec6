-- ===== src/Rlink/Connect/Packets.antt =====
-- The packets that reach RlinkConnect.cpp: responses, attention notifies, spurious ones
-- (`ProcessAttnNotify`, `ProcessUnsolicitedData`, `HandleUnsolicitedData`, `ReadResponse`,
-- `AcceptResponse`, `WaitAttn`). Logging is left out, and so are the mutex and the time stamp of the
-- last notify. A time is its count of nanoseconds.
pub mod Progress
pub mod Ends
pub mod Response
use w.Base.{ℕ, zero, suc, ◌+◌, ◌-◌, Bool, true, false, not, ◌&&◌, Option, none, some, List, [], ◌∷◌}
use w.Base.{◌++◌, length, bit_or, ◌==◌, ltb, if◌then◌else◌, ◌>>=◌}
use w.Rlink.Packet.Rcv.{Rcv, PktState, ReadResult, read_data, process_data, packet_state}
use w.Rlink.Packet.Rcv.{accept_packet}
use w.Rlink.Connect.State.{Link}
use w.Rlink.Connect.Decode.{decode_attn_notify, with_rcv}

-- Whether a server is attached, and active, and the caller in its thread.
pub data Server : Type 0 where
  absent passive active_inside active_outside : Server

abbrev pub server_active : Server → Bool
server_active Server.active_inside = true
server_active Server.active_outside = true
server_active _ = false

abbrev pub is_inside : Server → Bool
is_inside Server.active_inside = true
is_inside _ = false

abbrev pub is_outside : Server → Bool
is_outside Server.active_outside = true
is_outside _ = false

-- `signaled` are the patterns that `RlinkServer::SignalAttnNotify` was called with, in order; `timeout` is the time
-- that `ReadResponse` may take.
pub record Connect : Type 0 where
  pub link : Link
  pub is_open : Bool
  pub server : Server
  pub signaled : List ℕ
  pub attn_noti_patt : ℕ
  pub timeout : ℕ

abbrev pub on_rcv : (Rcv → Rcv) → Connect → Connect
on_rcv f c = record c { link = with_rcv (f c.link.rcv) c.link }

abbrev pub put_rcv : Rcv → Connect → Connect
put_rcv r c = record c { link = with_rcv r c.link }

unfoldable pub note_attn : ℕ → Connect → Connect
note_attn apat c =
    if server_active c.server
    then record c { signaled = c.signaled ++ (apat ∷ []) }
    else record c { attn_noti_patt = bit_or c.attn_noti_patt apat }

-- What follows the decoding in `ProcessAttnNotify`.
abbrev pub after_notify : Connect → Bool × ℕ × Link → Connect
after_notify c (ok, apat, l) =
    let accepted = record c { link = with_rcv (accept_packet l.rcv) l } in
    if ok && not (apat == 0) then note_attn apat accepted else accepted

unfoldable pub process_attn_notify : Connect → Option Connect
process_attn_notify c = do decoded ← decode_attn_notify c.link; some (after_notify c decoded)

-- One packet in a loop over the packets in the input: the loop is left with a result, or goes on.
pub data Next (A : Type 0) : Type 0 where
  leave : A → Next A
  again : Next A

module _ {A : Type 0} where
  abbrev pub next_packet :
      (Connect → Option (A × Connect)) → Option (Next A × Connect) → Option (A × Connect)
  next_packet loop none = none
  next_packet loop (some (leave a, c)) = some (a, c)
  next_packet loop (some (again, c)) = loop c

  abbrev pub on_packet :
      (PktState → Connect → Option (Next A × Connect))
      → A
      → (Connect → Option (A × Connect))
      → Connect
      → Option (Bool × Rcv)
      → Option (A × Connect)
  on_packet body over loop c none = none
  on_packet body over loop c (some (true, r)) =
      next_packet loop (body (packet_state r) (put_rcv r c))
  on_packet body over loop c (some (false, r)) = some (over, put_rcv r c)

  -- `while (fRcvPkt.ProcessData()) { ... }`; `over` is the result when the input is used up. `none`
  -- is an exception, or fuel that does not last.
  unfoldable pub while_packets :
      (PktState → Connect → Option (Next A × Connect)) → A → ℕ → Connect → Option (A × Connect)
  while_packets body over zero c = none
  while_packets body over (suc fuel) c =
      on_packet body over (while_packets body over fuel) c (process_data c.link.rcv)

-- Each packet takes a byte of the input at least, but for one that is complete from the start.
abbrev pub packet_fuel : Connect → ℕ
packet_fuel c = length c.link.rcv.raw + 2

unfoldable pub drop_packet : Connect → Connect
drop_packet c = on_rcv accept_packet c

abbrev pub notified : {A : Type 0} → Option Connect → Option (Next A × Connect)
notified none = none
notified (some c) = some (again, c)

-- The bodies of the three loops: true is a complete response.
unfoldable pub response_body : PktState → Connect → Option (Next Bool × Connect)
response_body PktState.pend c = some (leave false, c)
response_body PktState.attn c = notified (process_attn_notify c)
response_body PktState.resp c = some (leave true, c)
response_body PktState.bad c = some (again, drop_packet c)

unfoldable pub unsolicited_body : PktState → Connect → Option (Next Bool × Connect)
unsolicited_body PktState.pend c = some (leave false, c)
unsolicited_body PktState.attn c = notified (process_attn_notify c)
unsolicited_body _ c = some (again, drop_packet c)

unfoldable pub process_unsolicited_data : Connect → Option Connect
process_unsolicited_data c = do
  (_, c') ← while_packets unsolicited_body false (packet_fuel c) c
  some c'

unfoldable pub accept_response : Connect → Option Connect
accept_response c = process_unsolicited_data (drop_packet c)

-- `ReadData` with its return value: `some true` for bytes, `some false` for an error or a timeout
-- that counts as one.
abbrev pub got_bytes : ReadResult → Bool
got_bytes (ReadResult.bytes (b ∷ bs)) = true
got_bytes _ = false

-- A return of 0 by a read without time to wait: a timeout, or the end of the input.
abbrev pub returns_zero : ReadResult → Bool
returns_zero ReadResult.tout = true
returns_zero ReadResult.eof = true
returns_zero (ReadResult.bytes []) = true
returns_zero _ = false

unfoldable pub handle_unsolicited_data : ReadResult → Connect → Option Connect
handle_unsolicited_data res c =
    if is_inside c.server && c.is_open
    then (do
      r ← read_data true res c.link.rcv
      if returns_zero res then some (put_rcv r c) else process_unsolicited_data (put_rcv r c))
    else none

-- What happens at the port: the result of a read, and the clock behind it.
pub record Arrival : Type 0 where
  pub input : ReadResult
  pub clock : ℕ

-- The packets of one read; a response ends `ReadResponse`.
abbrev pub after_packets :
    (Connect → Option (Bool × Connect)) → Option (Bool × Connect) → Option (Bool × Connect)
after_packets loop none = none
after_packets loop (some (true, c)) = some (true, c)
after_packets loop (some (false, c)) = loop c

abbrev pub after_read :
    Bool → Connect → (Connect → Option (Bool × Connect)) → Option (Bool × Connect)
after_read false c loop = some (false, c)
after_read true c loop = after_packets loop (while_packets response_body false (packet_fuel c) c)

-- `ReadResponse` up to the time `end_time`. `none` is an exception, or a port that has nothing
-- further to say.
unfoldable pub read_response : ℕ → ℕ → List Arrival → Connect → Option (Bool × Connect)
read_response end_time now [] c = if ltb now end_time then none else some (false, drop_packet c)
read_response end_time now (x ∷ xs) c =
    if ltb now end_time
    then (do
      r ← if c.is_open then read_data false x.input c.link.rcv else none
      after_read (got_bytes x.input) (put_rcv r c) (read_response end_time x.clock xs))
    else some (false, drop_packet c)

-- The return values 0, 1, -1 and -2 of `WaitAttn`.
pub data Waited : Type 0 where
  pending waited timed_out io_error : Waited

-- With the pattern of attentions and the time waited.
abbrev pub WaitResult : Type 0
WaitResult = Waited × ℕ × ℕ

abbrev harvest : Waited → ℕ → Connect → WaitResult × Connect
harvest how time c = ((how, c.attn_noti_patt, time), record c { attn_noti_patt = 0 })

-- The body of the loop over packets: `time` is the time waited so far.
unfoldable pub wait_body : ℕ → PktState → Connect → Option (Next (Option WaitResult) × Connect)
wait_body time PktState.pend c = some (leave none, c)
wait_body time PktState.attn c = do
  c' ← process_attn_notify c
  if c'.attn_noti_patt == 0
      then some (again, c')
      else (let h = harvest waited time c' in some (leave (some h.0), h.1))
wait_body time _ c = some (again, drop_packet c)

abbrev pub wait_on :
    (Connect → Option (WaitResult × Connect))
    → Option (Option WaitResult × Connect)
    → Option (WaitResult × Connect)
wait_on loop none = none
wait_on loop (some (some w, c)) = some (w, c)
wait_on loop (some (none, c)) = loop c

unfoldable pub wait_loop : ℕ → ℕ → ℕ → List Arrival → Connect → Option (WaitResult × Connect)
wait_loop begin end_time now [] c = if ltb now end_time then none else some ((timed_out, 0, 0), c)
wait_loop begin end_time now (x ∷ xs) c =
    if ltb now end_time
    then (do
      r ← if c.is_open then read_data false x.input c.link.rcv else none
      elim x.input [
        | ReadResult.tout ↦ some ((timed_out, 0, 0), put_rcv r c)
        | ReadResult.failed ↦ some ((io_error, 0, 0), put_rcv r c)
        | _ ↦ wait_on (wait_loop begin end_time x.clock xs) (
            while_packets (wait_body (x.clock - begin)) none (packet_fuel (put_rcv r c))
              (put_rcv r c))
      ])
    else some ((timed_out, 0, 0), c)

-- `timeout` is 0 for a poll; `now` is the clock at the call.
unfoldable pub wait_attn : ℕ → ℕ → List Arrival → Connect → Option (WaitResult × Connect)
wait_attn timeout now xs c =
    if is_outside c.server
    then none
    else (if not (c.attn_noti_patt == 0)
        then some (harvest pending 0 c)
        else (if timeout == 0
            then some ((pending, 0, 0), c)
            else wait_loop now (now + timeout) now xs c))
