-- ===== src/Rlink/Packet/RoundTrip.antt =====
-- A packet that RlinkPacketBufSnd.cpp frames, as RlinkPacketBufRcv.cpp reads it.
use w.Base.{ℕ, ◌≡◌, refl, sym, ap, subst, ◌∙◌, Bool, true, false, ◌&&◌, none}
use w.Base.{some, List, [], ◌∷◌, ◌++◌, append_assoc, append-nil, is_empty, ◌==◌}
use w.Base.{
  ==_iff, if◌then◌else◌, bit_or, bit_and, not, arith, Bool-cases, inl, inr, if_true, if_false,
}
use w.Rlink.Packet.{sym_esc, sym_xon, sym_xoff, code_byte, ecode}
use w.Rlink.Packet.Ec
use w.Rlink.Packet.Snd.{Snd, Escaping, put_raw_esc, escape_byte, escape_loop, frame_packet}
use w.Rlink.Packet.Rcv.{Rcv, RcvState, fill, idle, resp, take_code, push_byte, fill_code, idle_code}
use w.Rlink.Packet.Rcv.{end_packet, accept_packet, packet_state, process_data, pkt_state_of}
use w.Rlink.Packet.Bytewise.{is_active, feed, plain_step, code_step}
use w.Rlink.Packet.Process.{process_data-feed}
use w.Rlink.Packet.Process.Loop.{feed_start, feed_plain, feed_code}

right_of : (a b : Bool) → (a && b) ≡ true → b ≡ true
right_of a b h = ground arith

-- What stands for one byte of a packet in the raw data.
abbrev pub escaped : Bool → ℕ → List ℕ
escaped xon c =
    if c == sym_esc
    then sym_esc ∷ code_byte Ec.esc ∷ []
    else (if xon && (c == sym_xon)
        then sym_esc ∷ code_byte Ec.xon ∷ []
        else (if xon && (c == sym_xoff) then sym_esc ∷ code_byte Ec.xoff ∷ [] else c ∷ []))

abbrev pub escaped_all : Bool → List ℕ → List ℕ
escaped_all xon [] = []
escaped_all xon (c ∷ cs) = escaped xon c ++ escaped_all xon cs

escape_byte-raw :
    (xon : Bool) (c : ℕ) (e : Escaping) → (escape_byte xon c e).raw ≡ e.raw ++ escaped xon c
unfolding escape_byte put_raw_esc
escape_byte-raw xon c e = ground (
  arith,
  append_assoc e.raw (sym_esc ∷ []) (code_byte Ec.esc ∷ []),
  append_assoc e.raw (sym_esc ∷ []) (code_byte Ec.xon ∷ []),
  append_assoc e.raw (sym_esc ∷ []) (code_byte Ec.xoff ∷ []),
)

escape_loop-raw :
    (xon : Bool) (cs : List ℕ) (e : Escaping)
    → (escape_loop xon cs e).raw ≡ e.raw ++ escaped_all xon cs
unfolding escape_loop
escape_loop-raw xon [] e = sym (append-nil e.raw)
escape_loop-raw xon (c ∷ cs) e =
    escape_loop-raw xon cs (escape_byte xon c e)
    ∙ ap (λ (t : List ℕ). t ++ escaped_all xon cs) (escape_byte-raw xon c e)
    ∙ append_assoc e.raw (escaped xon c) (escaped_all xon cs)

-- The raw data of a packet: <SOP>, the escaped bytes, <EOP>.
abbrev pub framed : Bool → List ℕ → List ℕ
framed xon pkt =
    sym_esc ∷ code_byte Ec.sop ∷ (escaped_all xon pkt ++ (sym_esc ∷ code_byte Ec.eop ∷ []))

pub frame_packet-framed : (s : Snd) → (frame_packet s).raw_buf ≡ framed s.xon_escape s.pkt_buf
unfolding frame_packet put_raw_esc
frame_packet-framed s =
    append_assoc (escape_loop s.xon_escape s.pkt_buf start).raw (sym_esc ∷ [])
      (code_byte Ec.eop ∷ [])
    ∙ ap (λ (t : List ℕ). t ++ (sym_esc ∷ code_byte Ec.eop ∷ []))
        (escape_loop-raw s.xon_escape s.pkt_buf start)
  where
    start : Escaping
    start = record { raw = sym_esc ∷ code_byte Ec.sop ∷ []; nesc = 0; nxesc = 0 }

-- The packet under construction has got more bytes; nothing else but counters has changed.
record Filled (r : Rcv) (cs : List ℕ) (out : Rcv) : Type 0 where
  pkt : out.pkt_buf ≡ r.pkt_buf ++ cs
  state_kept : out.state ≡ r.state
  flags_kept : out.flags ≡ r.flags
  esc_kept : out.esc_seen ≡ r.esc_seen
  crc_kept : out.crc ≡ r.crc
  n_done_kept : out.n_done ≡ r.n_done
  nak_kept : out.nak_index ≡ r.nak_index
  drop_kept : out.drop_data ≡ r.drop_data

abbrev Takes : List ℕ → List ℕ → Rcv → Type 0
Takes raw cs r =
    (rest : List ℕ) → (out : Rcv) × (feed (raw ++ rest) r ≡ feed rest out) × Filled r cs out

module _ (r : Rcv) (st : r.state ≡ fill) (e : r.esc_seen ≡ false) where
  active : is_active r.state ≡ true
  active = rw st

  -- An escape with the code of a symbol puts the symbol into the packet.
  Takes-escape :
      (ec sy : ℕ)
      → ((q : Rcv) → fill_code (ecode (code_byte ec)) q ≡ (false, push_byte sy q))
      → Takes (sym_esc ∷ code_byte ec ∷ []) (sy ∷ []) r
  unfolding push_byte take_code code_step
  Takes-escape ec sy h rest =
      let r1 : Rcv = record r { raw = code_byte ec ∷ rest; esc_seen = true } in
      let r2 : Rcv = take_code (code_byte ec) rest r1 in
      (
        push_byte sy r2,
        feed_start sym_esc (code_byte ec ∷ rest) r active e refl
            ∙ feed_code (code_byte ec) rest r1 active refl
            ∙ ap (λ (s : RcvState). feed rest (code_step s (code_byte ec) r2)) st
            ∙ ap (λ (p : Bool × Rcv). feed rest p.1) (h r2),
        record {
          pkt = refl;
          state_kept = refl;
          flags_kept = refl;
          esc_kept = sym e;
          crc_kept = refl;
          n_done_kept = refl;
          nak_kept = refl;
          drop_kept = refl;
        },
      )

  Takes-plain : (c : ℕ) → (c == sym_esc) ≡ false → Takes (c ∷ []) (c ∷ []) r
  unfolding push_byte plain_step
  Takes-plain c h rest = (
    push_byte c (record r { raw = rest }),
    feed_plain c rest r active e h
        ∙ ap (λ (s : RcvState). feed rest (plain_step s c (record r { raw = rest }))) st,
    record {
      pkt = refl;
      state_kept = refl;
      flags_kept = refl;
      esc_kept = refl;
      crc_kept = refl;
      n_done_kept = refl;
      nak_kept = refl;
      drop_kept = refl;
    },
  )

  Takes-symbol :
      (ec sy c : ℕ)
      → (c == sy) ≡ true
      → ((q : Rcv) → fill_code (ecode (code_byte ec)) q ≡ (false, push_byte sy q))
      → {raw : List ℕ} → raw ≡ sym_esc ∷ code_byte ec ∷ []
      → Takes raw (c ∷ []) r
  Takes-symbol ec sy c h code e' =
      subst (λ (t : List ℕ). Takes t (c ∷ []) r) (sym e')
        (subst (λ (t : ℕ). Takes (sym_esc ∷ code_byte ec ∷ []) (t ∷ []) r) (sym ((==_iff c sy).0 h))
          (Takes-escape ec sy code))

  Takes-byte : (xon : Bool) (c : ℕ) → Takes (escaped xon c) (c ∷ []) r
  unfolding fill_code ecode code_byte
  Takes-byte xon c = elim (Bool-cases (c == sym_esc)) [
    | inl h ↦ Takes-symbol Ec.esc sym_esc c h (λ q. refl) (if_true _ _ h)
    | inr h ↦ elim (Bool-cases (xon && (c == sym_xon))) [
      | inl h1 ↦
          Takes-symbol Ec.xon sym_xon c (right_of xon (c == sym_xon) h1) (λ q. refl)
            (if_false _ _ h ∙ if_true _ _ h1)
      | inr h1 ↦ elim (Bool-cases (xon && (c == sym_xoff))) [
        | inl h2 ↦
            Takes-symbol Ec.xoff sym_xoff c (right_of xon (c == sym_xoff) h2) (λ q. refl)
              (if_false _ _ h ∙ if_false _ _ h1 ∙ if_true _ _ h2)
        | inr h2 ↦
            subst (λ (t : List ℕ). Takes t (c ∷ []) r)
              (sym (if_false _ _ h ∙ if_false _ _ h1 ∙ if_false _ _ h2)) (Takes-plain c h)
      ]
    ]
  ]

Filled-trans :
    (r m out : Rcv) (xs ys : List ℕ) → Filled r xs m → Filled m ys out → Filled r (xs ++ ys) out
Filled-trans r m out xs ys f g = record {
  pkt = g.pkt ∙ ap (λ (t : List ℕ). t ++ ys) f.pkt ∙ append_assoc r.pkt_buf xs ys;
  state_kept = g.state_kept ∙ f.state_kept;
  flags_kept = g.flags_kept ∙ f.flags_kept;
  esc_kept = g.esc_kept ∙ f.esc_kept;
  crc_kept = g.crc_kept ∙ f.crc_kept;
  n_done_kept = g.n_done_kept ∙ f.n_done_kept;
  nak_kept = g.nak_kept ∙ f.nak_kept;
  drop_kept = g.drop_kept ∙ f.drop_kept;
}

Takes-all :
    (xon : Bool) (cs : List ℕ) (r : Rcv)
    → r.state ≡ fill
    → r.esc_seen ≡ false
    → Takes (escaped_all xon cs) cs r
Takes-all xon [] r st e rest = (
  r,
  refl,
  record {
    pkt = sym (append-nil r.pkt_buf);
    state_kept = refl;
    flags_kept = refl;
    esc_kept = refl;
    crc_kept = refl;
    n_done_kept = refl;
    nak_kept = refl;
    drop_kept = refl;
  },
)
Takes-all xon (c ∷ cs) r st e rest =
    let first = Takes-byte r st e xon c (escaped_all xon cs ++ rest) in
    let f = first.2 in
    let later = Takes-all xon cs first.0 (f.state_kept ∙ st) (f.esc_kept ∙ e) rest in
    (
      later.0,
      ap (λ (t : List ℕ). feed t r) (append_assoc (escaped xon c) (escaped_all xon cs) rest)
          ∙ first.1
          ∙ later.1,
      Filled-trans r first.0 later.0 (c ∷ []) cs f later.2,
    )

-- What the receive buffer holds after it has read a packet.
pub record Received (q : Rcv) (pkt rest : List ℕ) (out : Rcv) : Type 0 where
  pub pkt_buf : out.pkt_buf ≡ pkt
  pub complete : packet_state out ≡ resp
  pub unread : out.raw ≡ rest
  pub nothing_dropped : out.drop_data ≡ []
  pub no_nak : out.nak_index ≡ none
  pub from_start : out.n_done ≡ 0
  pub crc_clear : out.crc ≡ 0

-- <SOP> opens a packet in an idle buffer.
opens :
    (r : Rcv) (rest : List ℕ)
    → r.state ≡ idle
    → r.esc_seen ≡ false
    → r.flags ≡ 0
    → (m : Rcv) × (feed (sym_esc ∷ code_byte Ec.sop ∷ rest) r ≡ feed rest m)
      × (m.state ≡ fill)
      × (m.esc_seen ≡ false)
      × (m.flags ≡ 1)
      × (m.pkt_buf ≡ r.pkt_buf)
      × (m.crc ≡ r.crc)
      × (m.n_done ≡ r.n_done)
      × (m.nak_index ≡ r.nak_index)
      × (m.drop_data ≡ r.drop_data)
unfolding take_code code_step idle_code ecode code_byte
opens r rest st e fl =
    let r1 : Rcv = record r { raw = code_byte Ec.sop ∷ rest; esc_seen = true } in
    let r2 : Rcv = take_code (code_byte Ec.sop) rest r1 in
    let active : is_active r.state ≡ true = rw st in
    (
      record r2 { flags = bit_or r2.flags 1; state = fill },
      feed_start sym_esc (code_byte Ec.sop ∷ rest) r active e refl
          ∙ feed_code (code_byte Ec.sop) rest r1 active refl
          ∙ ap (λ (s : RcvState). feed rest (code_step s (code_byte Ec.sop) r2)) st,
      refl,
      refl,
      ap (λ (t : ℕ). bit_or t 1) fl,
      refl,
      refl,
      refl,
      refl,
      refl,
    )

-- <EOP> completes it, and what follows stays unread.
closes :
    (r : Rcv) (rest : List ℕ)
    → r.state ≡ fill
    → r.esc_seen ≡ false
    → r.flags ≡ 1
    → (m : Rcv) × (feed (sym_esc ∷ code_byte Ec.eop ∷ rest) r ≡ m)
      × (packet_state m ≡ resp)
      × (m.raw ≡ rest)
      × (m.pkt_buf ≡ r.pkt_buf)
      × (m.crc ≡ r.crc)
      × (m.n_done ≡ r.n_done)
      × (m.nak_index ≡ r.nak_index)
      × (m.drop_data ≡ r.drop_data)
unfolding take_code code_step fill_code ecode code_byte end_packet packet_state
closes r rest st e fl =
    let r1 : Rcv = record r { raw = code_byte Ec.eop ∷ rest; esc_seen = true } in
    let r2 : Rcv = take_code (code_byte Ec.eop) rest r1 in
    let active : is_active r.state ≡ true = rw st in
    (
      record (end_packet r2) { raw = rest },
      feed_start sym_esc (code_byte Ec.eop ∷ rest) r active e refl
          ∙ feed_code (code_byte Ec.eop) rest r1 active refl
          ∙ ap (λ (s : RcvState). feed rest (code_step s (code_byte Ec.eop) r2)) st
          ∙ stays rest (end_packet r2) refl,
      ap (λ (f : ℕ). pkt_state_of RcvState.done (not (bit_and (bit_or f 2) 1 == 0))) fl,
      refl,
      refl,
      refl,
      refl,
      refl,
      refl,
    )
  where
    stays : (xs : List ℕ) (q : Rcv) → is_active q.state ≡ false → feed xs q ≡ record q { raw = xs }
    stays [] q h = unfold feed in refl
    stays (c ∷ cs) q h = unfold feed in if_false _ _ h

-- A receive buffer that has accepted its last packet, and then finds the raw data of a packet `s`
-- at the start of its input, takes the packet over unchanged, whatever its bytes are and whether or
-- not XON and XOFF are escaped; nothing is dropped, no NAK is seen, the checksum and the count of
-- taken bytes are at their start, and the input behind the packet stays unread.
pub process-frame :
    (s : Snd) (q : Rcv) (rest : List ℕ)
    → q.esc_seen ≡ false
    → (out : Rcv) × (process_data
          (record (accept_packet q) { raw = (frame_packet s).raw_buf ++ rest })
        ≡ some (true, out))
      × Received q s.pkt_buf rest out
unfolding accept_packet
process-frame s q rest e =
    let xon = s.xon_escape in
    let pkt = s.pkt_buf in
    let tail : List ℕ = sym_esc ∷ code_byte Ec.eop ∷ rest in
    let r : Rcv = record (accept_packet q) { raw = (frame_packet s).raw_buf ++ rest } in
    let shape : r.raw ≡ sym_esc ∷ code_byte Ec.sop ∷ (escaped_all xon pkt ++ tail) =
      ap (λ (t : List ℕ). t ++ rest) (frame_packet-framed s)
      ∙ ap (λ (t : List ℕ). sym_esc ∷ code_byte Ec.sop ∷ t)
          (append_assoc (escaped_all xon pkt) (sym_esc ∷ code_byte Ec.eop ∷ []) rest) in
    let o = opens r (escaped_all xon pkt ++ tail) refl e refl in
    let f = Takes-all xon pkt o.0 o.2 o.3 tail in
    let g = f.2 in
    let c = closes f.0 rest (g.state_kept ∙ o.2) (g.esc_kept ∙ o.3) (g.flags_kept ∙ o.4) in
    (
      c.0,
      process_data-feed r (ap is_empty shape)
          ∙ ap (λ (t : Rcv). some (true, t))
              (ap (λ (t : List ℕ). feed t r) shape ∙ o.1 ∙ f.1 ∙ c.1),
      record {
        pkt_buf = c.4 ∙ g.pkt ∙ ap (λ (t : List ℕ). t ++ pkt) o.5;
        complete = c.2;
        unread = c.3;
        nothing_dropped = c.8 ∙ g.drop_kept ∙ o.9;
        no_nak = c.7 ∙ g.nak_kept ∙ o.8;
        from_start = c.6 ∙ g.n_done_kept ∙ o.7;
        crc_clear = c.5 ∙ g.crc_kept ∙ o.6;
      },
    )
