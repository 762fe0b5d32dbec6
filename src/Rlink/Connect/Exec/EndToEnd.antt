-- ===== src/Rlink/Connect/Exec/EndToEnd.antt =====
-- The whole way of a list of commands through RlinkConnect.cpp: requests out, responses in.
use w.Base.{
  ℕ, suc, ◌+◌, ◌-◌, ◌<◌, ◌≤◌, ◌≡◌, refl, sym, ap, ◌∙◌, subst, Bool, true, false, not, ◌||◌, ◌&&◌,
}
use w.Base.{Option, none, some, List, [], ◌∷◌, ◌++◌, append-nil, length, is_empty, take, drop, map}
use w.Base.{All, ◌==◌, ==_refl, ltb, leb, if◌then◌else◌, if_true, if_false, bind_some, arith}
use w.Base.{lt→ltb, le→ltb}
use w.Rlink.Packet.Snd.{Snd, Port, snd_raw, snd_packet, frame_packet}
use w.Rlink.Packet.Rcv.{
  Rcv, ReadResult, PktState, read_data, accept_packet, process_data, packet_state,
}
use w.Rlink.Packet.RoundTrip.{process-frame, frame_packet-framed}
use w.Rlink.Command.{Command, command, test_flag_any, clear_flag_bit, set_expect_status_default}
use w.Rlink.Command.Flag
use w.Rlink.Command.Code
use w.Rlink.CommandList.{CommandList, size}
use w.Rlink.Context.{Context}
use w.Rlink.Connect.Stat
use w.Rlink.Connect.State.{Link, count}
use w.Rlink.Connect.Encode.{encode_request, mark_first, mark_last}
use w.Rlink.Connect.Decode.{decode_response}
use w.Rlink.Connect.Answers.{
  Asked, responses, commands_of, Ready, Outcome, decode_response-responses,
}
use w.Rlink.Connect.Request.{sent_commands, next_seqs, encode_request-requests}
use w.Rlink.Connect.Packets.{Connect, Server, is_outside, Arrival, read_response, accept_response}
use w.Rlink.Connect.Packets.{
  put_rcv, while_packets, response_body, packet_fuel, on_packet, next_packet,
}
use w.Rlink.Connect.Packets.{drop_packet, after_read, after_packets, got_bytes}
use w.Rlink.Connect.Packets.Ends.{process_unsolicited_data-ends}
use w.Rlink.Connect.Exec.{
  part, put_part, all_decoded, receive_part, exec_part, cleaned, prepare_one,
}
use w.Rlink.Connect.Exec.{prepare_all, after_part, exec, tally, old_flags}

-- A receive buffer that waits for a packet, with nothing left from before.
pub record IsFresh (q : Rcv) : Type 0 where
  pub accepted : accept_packet q ≡ q
  pub no_raw : q.raw ≡ []
  pub no_esc : q.esc_seen ≡ false

take-all : {A : Type 0} (xs : List A) → take (length xs) xs ≡ xs
take-all [] = refl
take-all (x ∷ xs) = ap (◌∷◌ x) (take-all xs)

drop-all : {A : Type 0} (xs : List A) → drop (length xs) xs ≡ []
drop-all [] = refl
drop-all (x ∷ xs) = drop-all xs

put_part-whole :
    (iend : ℕ) (new cs : List Command) → length cs ≡ suc iend → put_part 0 iend new cs ≡ new
put_part-whole iend new cs h =
    ap (λ (n : ℕ). new ++ drop n cs) (omega (arith, h))
    ∙ ap (λ (t : List Command). new ++ t) (drop-all cs)
    ∙ append-nil new

part-whole : (iend : ℕ) (cs : List Command) → length cs ≡ suc iend → part 0 iend cs ≡ cs
part-whole iend cs h = ap (λ (n : ℕ). take n cs) (omega (arith, h)) ∙ take-all cs

-- The bytes of a framed packet, with anything behind them.
abbrev pub wire : Snd → List ℕ → List ℕ
wire s rest = (frame_packet s).raw_buf ++ rest

-- `ReadResponse` finds the packet at the first read.
record Found (s : Snd) (q : Rcv) (c : Connect) (res : Option (Bool × Connect)) : Type 0 where
  out : Rcv
  returns : res ≡ some (true, put_rcv out c)
  pkt_buf : out.pkt_buf ≡ s.pkt_buf
  no_nak : out.nak_index ≡ none
  from_start : out.n_done ≡ 0
  crc_clear : out.crc ≡ 0

on_response :
    (fuel : ℕ) (c : Connect) (out : Rcv)
    → process_data c.link.rcv ≡ some (true, out)
    → packet_state out ≡ PktState.resp
    → while_packets response_body false (suc fuel) c ≡ some (true, put_rcv out c)
unfolding while_packets response_body
on_response fuel c out e r =
    ap (on_packet response_body false (while_packets response_body false fuel) c) e
    ∙ ap
        (λ (st : PktState).
          next_packet (while_packets response_body false fuel) (response_body st (put_rcv out c)))
        r

loop-Found :
    (s : Snd) (rest : List ℕ) (c : Connect)
    → IsFresh c.link.rcv
    → Found s c.link.rcv c (
        while_packets response_body false
          (packet_fuel (put_rcv (record c.link.rcv { raw = wire s rest }) c))
          (put_rcv (record c.link.rcv { raw = wire s rest }) c))
loop-Found s rest c f =
    let q = c.link.rcv in
    let c1 : Connect = put_rcv (record q { raw = wire s rest }) c in
    let (out, e, g) = process-frame s q rest f.no_esc in
    record {
      out = out;
      returns =
          ap (λ (n : ℕ). while_packets response_body false n c1) (omega arith)
          ∙ on_response (length (wire s rest) + 1) c1 out
              (ap (λ (r : Rcv). process_data (record r { raw = wire s rest })) (sym f.accepted) ∙ e)
              g.complete;
      pkt_buf = g.pkt_buf;
      no_nak = g.no_nak;
      from_start = g.from_start;
      crc_clear = g.crc_clear;
    }

wire-is_empty : (s : Snd) (rest : List ℕ) → is_empty (wire s rest) ≡ false
wire-is_empty s rest = ap (λ (t : List ℕ). is_empty (t ++ rest)) (frame_packet-framed s)

read_data-bytes :
    (raw : List ℕ) (q : Rcv)
    → q.raw ≡ []
    → is_empty raw ≡ false
    → read_data false (ReadResult.bytes raw) q ≡ some (record q { raw = raw })
unfolding read_data
read_data-bytes [] q h e = absurd (cc e)
read_data-bytes (x ∷ xs) q h e = if_true _ _ (ap is_empty h)

got_bytes-bytes : (raw : List ℕ) → is_empty raw ≡ false → got_bytes (ReadResult.bytes raw) ≡ true
got_bytes-bytes [] e = absurd (cc e)
got_bytes-bytes (x ∷ xs) e = refl

read_response-Found :
    (s : Snd) (rest : List ℕ) (end_time now clock : ℕ) (xs : List Arrival) (c : Connect)
    → now < end_time
    → c.is_open ≡ true
    → IsFresh c.link.rcv
    → Found s c.link.rcv c (
        read_response end_time now
          (record { input = ReadResult.bytes (wire s rest); clock = clock } ∷ xs)
          c)
unfolding read_response
read_response-Found s rest end_time now clock xs c h o f =
    let g = loop-Found s rest c f in
    let c1 : Connect = put_rcv (record c.link.rcv { raw = wire s rest }) c in
    record {
      out = g.out;
      returns =
          if_true _ _ (lt→ltb now end_time h)
          ∙ bind_some _ _ (
              if_true _ _ o
              ∙ read_data-bytes (wire s rest) c.link.rcv f.no_raw (wire-is_empty s rest))
          ∙ ap (λ (b : Bool). after_read b c1 (read_response end_time clock xs))
              (got_bytes-bytes (wire s rest) (wire-is_empty s rest))
          ∙ ap (after_packets (read_response end_time clock xs)) g.returns;
      pkt_buf = g.pkt_buf;
      no_nak = g.no_nak;
      from_start = g.from_start;
      crc_clear = g.crc_clear;
    }

-- The list of the answers, and the state behind it.
record ReceivedAll (ps : List Asked) (res : Option (Bool × CommandList × Connect)) : Type 0 where
  list : CommandList
  after : Connect
  returns : res ≡ some (true, list, after)
  outcome : Outcome ps list.commands
  used_up : after.link.rcv.raw ≡ []

receive_part-Received :
    (ps : List Asked) (s : Snd) (rest : List ℕ) (now clock : ℕ) (xs : List Arrival) (iend : ℕ)
    (cl : CommandList) (c : Connect)
    → length ps ≡ suc iend
    → length cl.commands ≡ suc iend
    → cl.labo_index ≡ none
    → 0 < c.timeout
    → c.is_open ≡ true
    → IsFresh c.link.rcv
    → All Ready ps
    → s.pkt_buf ≡ responses 0 ps
    → ReceivedAll ps (
        receive_part now
          (record { input = ReadResult.bytes (wire s rest); clock = clock } ∷ xs)
          0
          iend
          (commands_of ps)
          cl
          c)
unfolding receive_part accept_response
receive_part-Received ps s rest now clock xs iend cl c hn hl labo ht ho hf ready sent =
    let g = read_response-Found s rest (now + c.timeout) now clock xs c (omega arith) ho hf in
    let left =
      ap (λ (n : ℕ). drop n g.out.pkt_buf) g.from_start
      ∙ g.pkt_buf
      ∙ sent
      ∙ ap (λ (n : ℕ). responses n ps) (sym g.crc_clear)
      ∙ sym (append-nil (responses g.out.crc ps)) in
    let (d, e, n, outcome, after) =
      decode_response-responses ps 0 (put_rcv g.out c).link [] ready g.no_nak left in
    let (c2, e2, used) =
      process_unsolicited_data-ends (drop_packet (record (put_rcv g.out c) { link = d.link })) in
    let count_right : all_decoded d.n_cmd (iend - 0 + 1) ≡ true =
      ap (λ (o : Option ℕ). all_decoded o (iend - 0 + 1)) n
      ∙ all_counted (length ps) (iend - 0 + 1) (omega arith) in
    record {
      list = _;
      after = c2;
      returns =
          bind_some _ _ g.returns
          ∙ bind_some _ _ (
              ap (λ (o : Option ℕ). decode_response (commands_of ps) 0 o (put_rcv g.out c).link)
                labo
              ∙ e)
          ∙ if_true _ _ count_right
          ∙ bind_some _ _ e2;
      outcome = subst (Outcome ps) (sym (put_part-whole iend d.commands cl.commands hl)) outcome;
      used_up = used;
    }
  where
    all_counted : (a b : ℕ) → a ≡ b → (a == b) ≡ true
    all_counted a b h = ground arith

length-sent_commands :
    (seqs : List ℕ) (cs : List Command) → length (sent_commands seqs cs) ≡ length cs
length-sent_commands seqs [] = refl
length-sent_commands seqs (c ∷ cs) = ap suc (length-sent_commands (next_seqs seqs c) cs)

length-mark_first : (cs : List Command) → length (mark_first cs) ≡ length cs
length-mark_first [] = refl
length-mark_first (c ∷ cs) = refl

length-mark_last : (cs : List Command) → length (mark_last cs) ≡ length cs
length-mark_last [] = refl
length-mark_last (c ∷ []) = refl
length-mark_last (c ∷ d ∷ cs) = ap suc (length-mark_last (d ∷ cs))

length-commands_of : (ps : List Asked) → length (commands_of ps) ≡ length ps
length-commands_of [] = refl
length-commands_of ((c, a) ∷ ps) = ap suc (length-commands_of ps)

-- The commands of a list as they wait for their responses.
abbrev pub waiting : List ℕ → List Command → List Command
waiting seqs cs = mark_last (mark_first (sent_commands seqs cs))

length-waiting : (seqs : List ℕ) (cs : List Command) → length (waiting seqs cs) ≡ length cs
length-waiting seqs cs =
    length-mark_last (mark_first (sent_commands seqs cs))
    ∙ length-mark_first (sent_commands seqs cs)
    ∙ length-sent_commands seqs cs

-- A port that takes all that is written to it.
unfoldable pub Accepts : Port → Type 0
Accepts write = (raw : List ℕ) → write raw ≡ some (length raw)

snd_raw-Accepts : (write : Port) (raw : List ℕ) → Accepts write → snd_raw write raw ≡ true
unfolding snd_raw Accepts
snd_raw-Accepts write raw h =
    ap (λ (o : Option ℕ). elim o [ none ↦ false | some irc ↦ irc == length raw ]) (h raw)
    ∙ ==_refl (length raw)

snd_packet-Accepts :
    (write : Port) (s : Snd) → Accepts write → (t : Snd) × (snd_packet write s ≡ (true, t))
unfolding snd_packet
snd_packet-Accepts write s h = (_, if_true _ _ (snd_raw-Accepts write (frame_packet s).raw_buf h))

-- `ExecPart` on a whole list that is not empty: the list is sent, the commands of `ps` wait for
-- their responses, and a packet with the responses arrives.
exec_part-Received :
    (write : Port) (ps : List Asked) (s : Snd) (rest : List ℕ) (now clock : ℕ) (xs : List Arrival)
    (iend : ℕ) (cl : CommandList) (c : Connect)
    → Accepts write
    → length cl.commands ≡ suc iend
    → cl.labo_index ≡ none
    → 0 < c.timeout
    → c.is_open ≡ true
    → IsFresh c.link.rcv
    → All (λ c. command c < 7) cl.commands
    → commands_of ps ≡ waiting c.link.seq_numbers cl.commands
    → All Ready ps
    → s.pkt_buf ≡ responses 0 ps
    → ReceivedAll ps (
        exec_part write now
          (record { input = ReadResult.bytes (wire s rest); clock = clock } ∷ xs)
          0
          iend
          cl
          c)
unfolding exec_part
exec_part-Received write ps s rest now clock xs iend cl c hw hl labo ht ho hf valid waits ready
      sent =
    let l0 : Link = count Stat.n_exec_part 1 c.link in
    let (l, e, pkt, rcv) = encode_request-requests cl.commands l0 valid in
    let (t, f) = snd_packet-Accepts write l.snd hw in
    let cs = waiting c.link.seq_numbers cl.commands in
    let cl1 : CommandList = record cl { commands = put_part 0 iend cs cl.commands } in
    let c1 : Connect = record c { link = record l { snd = t } } in
    let hn : length ps ≡ suc iend =
      sym (length-commands_of ps)
      ∙ ap length waits
      ∙ length-waiting c.link.seq_numbers cl.commands
      ∙ hl in
    let g =
      receive_part-Received ps s rest now clock xs iend cl1 c1 hn
        (ap length (put_part-whole iend cs cl.commands hl)
          ∙ length-waiting c.link.seq_numbers cl.commands
          ∙ hl)
        labo ht ho (subst IsFresh (sym rcv) hf) ready sent in
    record {
      list = g.list;
      after = g.after;
      returns =
          if_false _ _ (bounds iend (length cl.commands) hl)
          ∙ if_false _ _ (ap not ho)
          ∙ bind_some _ _
              (ap (λ (t : List Command). encode_request t l0) (part-whole iend cl.commands hl) ∙ e)
          ∙ ap
              (λ (sent : Bool × Snd).
                if not sent.0
                then some (false, cl1, record c { link = record l { snd = sent.1 } })
                else receive_part now
                    (record { input = ReadResult.bytes (wire s rest); clock = clock } ∷ xs) 0 iend
                    cs cl1 (record c { link = record l { snd = sent.1 } }))
              f
          ∙ ap
              (λ (ds : List Command).
                receive_part now
                  (record { input = ReadResult.bytes (wire s rest); clock = clock } ∷ xs) 0 iend ds
                  cl1 c1)
              (sym waits)
          ∙ g.returns;
      outcome = g.outcome;
      used_up = g.used_up;
    }
  where
    bounds : (i n : ℕ) → n ≡ suc i → (ltb i 0 || leb n i) ≡ false
    bounds i n h = ground arith

-- What `Exec` asks of a command.
pub record IsAccepted (server : Server) (c : Command) : Type 0 where
  pub is_set_up : test_flag_any Flag.setup c ≡ true
  pub has_code : command c < 7
  pub attn_inside : ((command c == Code.attn) && is_outside server) ≡ false

pub prepare_all-accepted :
    (server : Server) (x : Context) (cs : List Command)
    → All (IsAccepted server) cs
    → prepare_all server x cs ≡ some (map (cleaned x) cs)
unfolding prepare_all prepare_one
prepare_all-accepted server x [] hs = refl
prepare_all-accepted server x (c ∷ cs) (h, hs) =
    bind_some _ _ (
      if_false _ _ (ap not h.is_set_up)
      ∙ if_false _ _ (le→ltb Code.init (command c) (below h.has_code))
      ∙ if_false _ _ h.attn_inside)
    ∙ bind_some _ _ (prepare_all-accepted server x cs hs)
  where
    below : {n : ℕ} → n < 7 → n ≤ 6
    below h = omega arith

cleaned-codes :
    (server : Server) (x : Context) (cs : List Command)
    → All (IsAccepted server) cs
    → All (λ c. command c < 7) (map (cleaned x) cs)
unfolding command
cleaned-codes server x [] hs = tt
cleaned-codes server x (c ∷ cs) (h, hs) =
    (by_expect c.expect_status_set, cleaned-codes server x cs hs)
  where
    by_expect :
        (b : Bool)
        → command (
            let d = clear_flag_bit old_flags c in
            if b then d else set_expect_status_default x.status_val x.status_msk d)
          < 7
    by_expect true = h.has_code
    by_expect false = h.has_code

length-cleaned : (x : Context) (cs : List Command) → length (map (cleaned x) cs) ≡ length cs
length-cleaned x [] = refl
length-cleaned x (c ∷ cs) = ap suc (length-cleaned x cs)

-- `Exec` on an open port with a fresh receive buffer: when all commands are accepted, the port
-- takes the request packet, and what arrives first is a framed packet with the answers `ps` to the
-- commands as they are sent, with any bytes behind it, then `Exec` returns true, every command holds
-- its answer (those behind a list abort are marked as cancelled), the errors of the answers are
-- counted in the context, and no input is left.
pub exec-answers :
    (write : Port) (ps : List Asked) (s : Snd) (rest : List ℕ) (now clock : ℕ) (xs : List Arrival)
    (cl : CommandList) (x : Context) (c : Connect)
    → Accepts write
    → is_empty cl.commands ≡ false
    → 0 < c.timeout
    → c.is_open ≡ true
    → IsFresh c.link.rcv
    → All (IsAccepted c.server) cl.commands
    → commands_of ps ≡ waiting c.link.seq_numbers (map (cleaned x) cl.commands)
    → All Ready ps
    → s.pkt_buf ≡ responses 0 ps
    → (cl' : CommandList) × (c' : Connect) × (exec write now
          (record { input = ReadResult.bytes (wire s rest); clock = clock } ∷ xs)
          cl
          x
          c
        ≡ some (true, cl', tally cl'.commands x, c'))
      × Outcome ps cl'.commands
      × (c'.link.rcv.raw ≡ [])
unfolding exec
exec-answers write ps s rest now clock xs cl x c hw hc ht ho hf hs waits ready sent =
    let cs = map (cleaned x) cl.commands in
    let n : length cl.commands ≡ suc (length cl.commands - 1) = longer cl.commands hc in
    let g =
      exec_part-Received write ps s rest now clock xs (size cl - 1)
        (record { commands = cs; labo_index = none })
        (record c { link = count Stat.n_exec 1 c.link }) hw (length-cleaned x cl.commands ∙ n) refl
        ht ho hf (cleaned-codes c.server x cl.commands hs) waits ready sent in
    (
      g.list,
      g.after,
      if_false _ _ hc
          ∙ if_false _ _ (ap not ho)
          ∙ bind_some _ _ (prepare_all-accepted c.server x cl.commands hs)
          ∙ ap (after_part x) g.returns,
      g.outcome,
      g.used_up,
    )
  where
    longer : (cs : List Command) → is_empty cs ≡ false → length cs ≡ suc (length cs - 1)
    longer [] h = absurd (cc h)
    longer (c ∷ cs) h = omega arith
