-- ===== src/Rlink/Connect/Packets/Progress.antt =====
-- The loops over packets end: each packet takes input, and handling it throws nothing.
use w.Base.{ℕ, zero, suc, ◌+◌, ◌-◌, ◌<◌, ◌≤◌, ◌≡◌, refl, ap, ◌∙◌}
use w.Base.{Bool, true, false, not, ◌&&◌, Option, some, List, [], ◌∷◌, length}
use w.Base.{get_elem?, ◌==◌, leb, if◌then◌else◌, arith, Bool-cases, inl, inr}
use w.Base.{if_true, if_false, bind_some}
use w.Rlink.Packet.Rcv.{Rcv, accept_packet}
use w.Rlink.Packet.Rcv.{next_byte, get_word, check_crc, check_size}
use w.Rlink.Packet.Bytewise.{is_active}
use w.Rlink.Connect.State.{Link}
use w.Rlink.Connect.Decode.{decode_attn_notify, with_rcv}
use w.Rlink.Connect.Packets.{
  Connect, process_attn_notify, drop_packet, note_attn, after_notify, server_active,
}

elem_at {ℓ} :
    {A : Type ℓ} (xs : List A) (i : ℕ) → i < length xs → (x : A) × (get_elem? xs i ≡ some x)
elem_at [] i h = elim h [ ]
elem_at (x ∷ xs) zero h = (x, refl)
elem_at (x ∷ xs) (suc i) h = elem_at xs i (omega arith)

next_byte-some :
    (r : Rcv)
    → r.n_done < length r.pkt_buf
    → (c : ℕ) × (next_byte r ≡ some (c, record r { n_done = r.n_done + 1 }))
unfolding next_byte
next_byte-some r h = let (c, e) = elem_at r.pkt_buf r.n_done h in (c, rw e refl)

-- The same buffer, but for the count of taken bytes and the checksum.
pub record SameInput (r r' : Rcv) : Type 0 where
  raw : r'.raw ≡ r.raw
  pkt : r'.pkt_buf ≡ r.pkt_buf

get_word-some :
    (r : Rcv)
    → r.n_done + 2 ≤ length r.pkt_buf
    → (d : ℕ) × (r' : Rcv) × (get_word r ≡ some (d, r'))
      × (r'.n_done ≡ r.n_done + 2)
      × SameInput r r'
unfolding get_word
get_word-some r h =
    let (x, e) = next_byte-some r (omega arith) in
    let (y, f) = next_byte-some (record r { n_done = r.n_done + 1 }) (omega arith) in
    (_, _, bind_some _ _ e ∙ bind_some _ _ f, omega arith, record { raw = refl; pkt = refl })

check_crc-some :
    (r : Rcv)
    → r.n_done + 2 ≤ length r.pkt_buf
    → (b : Bool) × (r' : Rcv) × (check_crc r ≡ some (b, r')) × SameInput r r'
unfolding check_crc
check_crc-some r h =
    let (x, e) = next_byte-some r (omega arith) in
    let (y, f) = next_byte-some (record r { n_done = r.n_done + 1 }) (omega arith) in
    (_, _, bind_some _ _ e ∙ bind_some _ _ f, record { raw = refl; pkt = refl })

-- A step that ends, and leaves the input in the raw buffer as it is.
record Decodes (l : Link) (res : Option (Bool × ℕ × Link)) : Type 0 where
  out : Bool × ℕ × Link
  returns : res ≡ some out
  raw_kept : out.2.rcv.raw ≡ l.rcv.raw

decode_attn_notify-Decodes : (l : Link) → Decodes l (decode_attn_notify l)
unfolding decode_attn_notify check_size
decode_attn_notify-Decodes l = elim (Bool-cases (leb 4 (length l.rcv.pkt_buf - l.rcv.n_done))) [
  | inl h ↦
      let (d, r1, e, done, same) = get_word-some l.rcv (ground arith) in
      let (b, r2, f, same2) = check_crc-some r1 (ground (arith, ap length same.pkt)) in
      by_crc h d r1 r2 b e f (same2.raw ∙ same.raw)
  | inr h ↦ record { out = _; returns = if_true _ _ (ap not h); raw_kept = refl }
]
  where
    by_crc :
        leb 4 (length l.rcv.pkt_buf - l.rcv.n_done) ≡ true
        → (d : ℕ) (r1 r2 : Rcv) (b : Bool) → get_word l.rcv ≡ some (d, r1)
        → check_crc r1 ≡ some (b, r2)
        → r2.raw ≡ l.rcv.raw
        → Decodes l (decode_attn_notify l)
    by_crc h d r1 r2 true e f k = record {
      out = _;
      returns = if_false _ _ (ap not h) ∙ bind_some _ _ e ∙ bind_some _ _ f;
      raw_kept = k;
    }
    by_crc h d r1 r2 false e f k = record {
      out = _;
      returns = if_false _ _ (ap not h) ∙ bind_some _ _ e ∙ bind_some _ _ f;
      raw_kept = k;
    }

-- A packet is over: the input behind it is kept, and the buffer waits for the next.
pub record Ready (c c' : Connect) : Type 0 where
  pub raw_kept : c'.link.rcv.raw ≡ c.link.rcv.raw
  pub idle : is_active c'.link.rcv.state ≡ true
  pub port_kept : c'.is_open ≡ c.is_open

note_attn-rcv : (a : ℕ) (c : Connect) → (note_attn a c).link ≡ c.link
unfolding note_attn
note_attn-rcv a c = elim (Bool-cases (server_active c.server)) [
  | inl h ↦ ap (λ (d : Connect). d.link) (if_true _ _ h)
  | inr h ↦ ap (λ (d : Connect). d.link) (if_false _ _ h)
]

note_attn-is_open : (a : ℕ) (c : Connect) → (note_attn a c).is_open ≡ c.is_open
unfolding note_attn
note_attn-is_open a c = elim (Bool-cases (server_active c.server)) [
  | inl h ↦ ap (λ (d : Connect). d.is_open) (if_true _ _ h)
  | inr h ↦ ap (λ (d : Connect). d.is_open) (if_false _ _ h)
]

pub record Notifies (c : Connect) (res : Option Connect) : Type 0 where
  pub out : Connect
  pub returns : res ≡ some out
  pub ready : Ready c out

pub drop_packet-Ready : (c : Connect) → Ready c (drop_packet c)
unfolding drop_packet accept_packet
drop_packet-Ready c = record { raw_kept = refl; idle = refl; port_kept = refl }

pub process_attn_notify-Notifies : (c : Connect) → Notifies c (process_attn_notify c)
unfolding process_attn_notify accept_packet
process_attn_notify-Notifies c =
    let d = decode_attn_notify-Decodes c.link in
    record {
      out = after_notify c d.out;
      returns = bind_some _ _ d.returns;
      ready =
          noted (d.out.0 && not (d.out.1 == 0)) d.out.1
            (record c { link = with_rcv (accept_packet d.out.2.rcv) d.out.2 })
            (waiting d.out.2 d.raw_kept);
    }
  where
    waiting :
        (l : Link)
        → l.rcv.raw ≡ c.link.rcv.raw
        → Ready c (record c { link = with_rcv (accept_packet l.rcv) l })
    waiting l h = record { raw_kept = h; idle = refl; port_kept = refl }

    noted : (b : Bool) (a : ℕ) (d : Connect) → Ready c d → Ready c (if b then note_attn a d else d)
    noted true a d h = record {
      raw_kept = ap (λ (l : Link). l.rcv.raw) (note_attn-rcv a d) ∙ h.raw_kept;
      idle = ap (λ (l : Link). is_active l.rcv.state) (note_attn-rcv a d) ∙ h.idle;
      port_kept = note_attn-is_open a d ∙ h.port_kept;
    }
    noted false a d h = h
