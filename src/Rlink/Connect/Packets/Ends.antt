-- ===== src/Rlink/Connect/Packets/Ends.antt =====
-- The loops over packets of RlinkConnect.cpp end: each pass takes input, or closes a packet that
-- was complete before.
use w.Base.{ℕ, zero, suc, ◌<◌, ◌≤◌, ◌≡◌, refl, ap, ◌∙◌, Bool, true, false, Option, some}
use w.Base.{
  bind_some, List, [], ◌∷◌, length, is_empty, subst, arith, if◌then◌else◌, if_true, if_false, sym,
  Bool-cases, inl, inr,
}
use w.Rlink.Packet.Flag
use w.Rlink.Packet.Rcv.{
  Rcv, RcvState, PktState, process_data, packet_state, pkt_state_of, test_flag,
}
use w.Rlink.Packet.Bytewise.{feed, step, is_active}
use w.Rlink.Packet.Process.{process_data-feed}
use w.Rlink.Connect.Packets.{Connect, put_rcv, process_attn_notify}
use w.Rlink.Connect.Packets.{Next, leave, again, while_packets, packet_fuel, response_body}
use w.Rlink.Connect.Packets.{
  unsolicited_body, notified, on_packet, next_packet, process_unsolicited_data,
}
use w.Rlink.Connect.Packets.Progress.{Ready, drop_packet-Ready}
use w.Rlink.Connect.Packets.Progress.{process_attn_notify-Notifies}

-- The passes that are left: the bytes, and one more for a packet that is complete.
abbrev pub to_go_of : RcvState → List ℕ → ℕ
to_go_of st cs = if is_active st then length cs else suc (length cs)

abbrev pub to_go : Rcv → ℕ
to_go r = to_go_of r.state r.raw

feed-length : (cs : List ℕ) (r : Rcv) → length (feed cs r).raw ≤ length cs
unfolding feed
feed-length [] r = omega arith
feed-length (c ∷ cs) r =
    let h = feed-length cs (step c cs r) in by_state (is_active r.state) (feed cs (step c cs r)) h
  where
    by_state :
        (b : Bool) (rest : Rcv)
        → length rest.raw ≤ length cs
        → length (if b then rest else record r { raw = c ∷ cs }).raw ≤ suc (length cs)
    by_state true rest h = omega arith
    by_state false rest h = omega arith

feed-pend :
    (cs : List ℕ) (r : Rcv) → packet_state (feed cs r) ≡ PktState.pend → (feed cs r).raw ≡ []
unfolding feed packet_state
feed-pend [] r h = refl
feed-pend (c ∷ cs) r h = elim (Bool-cases (is_active r.state)) [
  | inl a ↦
      (ap (λ (t : Rcv). t.raw) (if_true _ _ a)
        ∙ feed-pend cs (step c cs r) (ap packet_state (sym (if_true _ _ a)) ∙ h))
  | inr a ↦ stuck r.state (test_flag Flag.sop_seen r) a (ap packet_state (sym (if_false _ _ a)) ∙ h)
]
  where
    stuck :
        {A : Type 0} (s : RcvState) (b : Bool)
        → is_active s ≡ false
        → pkt_state_of s b ≡ PktState.pend
        → A
    stuck RcvState.idle b h k = absurd cc
    stuck RcvState.fill b h k = absurd cc
    stuck RcvState.done true h k = absurd cc
    stuck RcvState.done false h k = absurd cc
    stuck RcvState.error b h k = absurd cc

-- One call of `ProcessData` that finds a packet, or uses the input up.
record Pass (r : Rcv) : Type 0 where
  out : Rcv
  returns : process_data r ≡ some (true, out)
  fewer : length out.raw < to_go r
  used_up : packet_state out ≡ PktState.pend → out.raw ≡ []

process_data-Pass : (r : Rcv) → is_empty r.raw ≡ false → Pass r
unfolding feed
process_data-Pass r h = record {
  out = feed r.raw r;
  returns = process_data-feed r h;
  fewer = fewer r.raw h;
  used_up = feed-pend r.raw r;
}
  where
    fewer : (cs : List ℕ) → is_empty cs ≡ false → length (feed cs r).raw < to_go_of r.state cs
    fewer [] h = absurd cc
    fewer (c ∷ cs) h =
        by_state (is_active r.state) (feed cs (step c cs r)) (feed-length cs (step c cs r))
      where
        by_state :
            (b : Bool) (rest : Rcv)
            → length rest.raw ≤ length cs
            → length (if b then rest else record r { raw = c ∷ cs }).raw
              < (if b then suc (length cs) else suc (suc (length cs)))
        by_state true rest h = omega arith
        by_state false rest h = omega arith

module _ {A : Type 0} (Good : A → Connect → Type 0) where
  -- How a body of the loop goes on: it leaves with a result that is good, or takes the packet.
  data Goes (c : Connect) : Option (Next A × Connect) → Type 0 where
    leaves : (a : A) (d : Connect) → Good a d → d.is_open ≡ c.is_open → Goes c (some (leave a, d))
    goes_on : (d : Connect) → Ready c d → Goes c (some (again, d))

  record Returns (c : Connect) (res : Option (A × Connect)) : Type 0 where
    out : A × Connect
    returns : res ≡ some out
    good : Good out.0 out.1
    port_kept : out.1.is_open ≡ c.is_open

  IsBody : (PktState → Connect → Option (Next A × Connect)) → Type 0
  IsBody body =
      (st : PktState) (c : Connect)
      → packet_state c.link.rcv ≡ st
      → (st ≡ PktState.pend → c.link.rcv.raw ≡ [])
      → Goes c (body st c)

  next_packet-Returns :
      (loop : Connect → Option (A × Connect)) (c : Connect) (res : Option (Next A × Connect))
      → Goes c res
      → ((d : Connect) → Ready c d → Returns c (loop d))
      → Returns c (next_packet loop res)
  next_packet-Returns loop c _ (leaves a d g p) k = record {
    out = (a, d);
    returns = refl;
    good = g;
    port_kept = p;
  }
  next_packet-Returns loop c _ (goes_on d r) k = k d r

  while_packets-Returns :
      (body : PktState → Connect → Option (Next A × Connect)) (over : A)
      → IsBody body
      → ((c : Connect) → c.link.rcv.raw ≡ [] → Good over c)
      → (fuel : ℕ) (c : Connect) → to_go c.link.rcv < fuel
      → Returns c (while_packets body over fuel c)
  unfolding while_packets process_data IsBody
  while_packets-Returns body over hb ho zero c h = absurd (omega arith)
  while_packets-Returns body over hb ho (suc fuel) c h =
      elim (Bool-cases (is_empty c.link.rcv.raw)) [
        | inl e ↦ record {
          out = (over, put_rcv c.link.rcv c);
          returns = ap (on_packet body over (while_packets body over fuel) c) (if_true _ _ e);
          good = ho _ (empty_nil _ e);
          port_kept = refl;
        }
        | inr e ↦
            let p = process_data-Pass c.link.rcv e in
            subst (λ t. Returns c (on_packet body over (while_packets body over fuel) c t))
              (sym p.returns)
              (moved p (
                next_packet-Returns _ (put_rcv p.out c) _
                  (hb (packet_state p.out) (put_rcv p.out c) refl p.used_up)
                  (λ d r.
                    closed p d r (while_packets-Returns body over hb ho fuel d (shorter p d r)))))
      ]
    where
      moved :
          {res : Option (A × Connect)} (p : Pass c.link.rcv)
          → Returns (put_rcv p.out c) res
          → Returns c res
      moved p t = record {
        out = t.out;
        returns = t.returns;
        good = t.good;
        port_kept = t.port_kept;
      }

      closed :
          {res : Option (A × Connect)} (p : Pass c.link.rcv) (d : Connect)
          → Ready (put_rcv p.out c) d
          → Returns d res
          → Returns (put_rcv p.out c) res
      closed p d r t = record {
        out = t.out;
        returns = t.returns;
        good = t.good;
        port_kept = t.port_kept ∙ r.port_kept;
      }

      empty_nil : (xs : List ℕ) → is_empty xs ≡ true → xs ≡ []
      empty_nil [] e = refl
      empty_nil (x ∷ xs) e = absurd cc

      shorter :
          (p : Pass c.link.rcv) (d : Connect) → Ready (put_rcv p.out c) d → to_go d.link.rcv < fuel
      shorter p d r =
          let f = p.fewer in
          subst (λ n. n < fuel) (sym (if_true _ _ r.idle ∙ ap length r.raw_kept)) (omega arith)

notified-Goes :
    {A : Type 0} (Good : A → Connect → Type 0) (c : Connect)
    → Goes Good c (notified (process_attn_notify c))
notified-Goes Good c =
    let n = process_attn_notify-Notifies c in
    subst (λ t. Goes Good c (notified t)) (sym n.returns) (goes_on n.out n.ready)

-- A response is complete, or all input is used up.
unfoldable pub UsedUp : Bool → Connect → Type 0
UsedUp true c = packet_state c.link.rcv ≡ PktState.resp
UsedUp false c = c.link.rcv.raw ≡ []

response-IsBody : IsBody UsedUp response_body
unfolding response_body IsBody UsedUp
response-IsBody PktState.pend c e h = leaves false c (h refl) refl
response-IsBody PktState.attn c e h = notified-Goes UsedUp c
response-IsBody PktState.resp c e h = leaves true c e refl
response-IsBody PktState.bad c e h = goes_on _ (drop_packet-Ready c)

unsolicited-IsBody : IsBody (λ b c. c.link.rcv.raw ≡ []) unsolicited_body
unfolding unsolicited_body IsBody
unsolicited-IsBody PktState.pend c e h = leaves false c (h refl) refl
unsolicited-IsBody PktState.attn c e h = notified-Goes _ c
unsolicited-IsBody PktState.resp c e h = goes_on _ (drop_packet-Ready c)
unsolicited-IsBody PktState.bad c e h = goes_on _ (drop_packet-Ready c)

packet_fuel-to_go : (c : Connect) → to_go c.link.rcv < packet_fuel c
packet_fuel-to_go c = by_state (is_active c.link.rcv.state)
  where
    by_state :
        (b : Bool)
        → (if b then length c.link.rcv.raw else suc (length c.link.rcv.raw)) < packet_fuel c
    by_state true = omega arith
    by_state false = omega arith

-- The packets of one read, up to a response: the loop ends and throws nothing.
pub response_loop-ends :
    (c : Connect)
    → (b : Bool) × (d : Connect) × (while_packets response_body false (packet_fuel c) c
        ≡ some (b, d))
      × UsedUp b d
      × (d.is_open ≡ c.is_open)
unfolding UsedUp
response_loop-ends c =
    let r =
      while_packets-Returns UsedUp response_body false response-IsBody (λ c h. h) (packet_fuel c) c
        (packet_fuel-to_go c) in
    (r.out.0, r.out.1, r.returns, r.good, r.port_kept)

-- `ProcessUnsolicitedData` ends and throws nothing, whatever the input and the state of the
-- receive buffer are, and leaves no byte of the input.
pub process_unsolicited_data-ends :
    (c : Connect) → (d : Connect) × (process_unsolicited_data c ≡ some d) × (d.link.rcv.raw ≡ [])
unfolding process_unsolicited_data
process_unsolicited_data-ends c =
    let r =
      while_packets-Returns (λ b c. c.link.rcv.raw ≡ []) unsolicited_body false unsolicited-IsBody
        (λ c h. h) (packet_fuel c) c (packet_fuel-to_go c) in
    (r.out.1, bind_some _ _ r.returns, r.good)
