-- ===== src/Rlink/Connect/Packets/Response.antt =====
-- `ReadResponse` of RlinkConnect.cpp: it ends, and true means a complete response.
use w.Base.{ℕ, ◌≤◌, ◌≡◌, refl, sym, ap, ◌∙◌, subst, Bool, true, false, Option, some}
use w.Base.{List, [], ◌∷◌, is_empty, ltb, bind_some, if_true, if_false}
use w.Base.{Bool-cases, inl, inr, le→ltb}
use w.Rlink.Packet.Rcv.{Rcv, ReadResult, PktState, read_data, packet_state}
use w.Rlink.Connect.Packets.{Connect, Arrival, read_response, put_rcv}
use w.Rlink.Connect.Packets.{got_bytes, after_read, after_packets, drop_packet}
use w.Rlink.Connect.Packets.Ends.{response_loop-ends, UsedUp}

-- The clock behind the last read.
unfoldable pub last_clock : ℕ → List Arrival → ℕ
last_clock now [] = now
last_clock now (x ∷ xs) = last_clock x.clock xs

-- A result of `ReadResponse`.
pub record Reads (res : Option (Bool × Connect)) : Type 0 where
  pub out : Bool × Connect
  pub returns : res ≡ some out
  pub complete : out.0 ≡ true → packet_state out.1.link.rcv ≡ PktState.resp

read_data-some :
    (b : Bool) (x : ReadResult) (r : Rcv) → r.raw ≡ [] → (r' : Rcv) × (read_data b x r ≡ some r')
unfolding read_data
read_data-some b x r h = (_, if_true _ _ (ap is_empty h))

after_read-Reads :
    (b : Bool) (c : Connect) (loop : Connect → Option (Bool × Connect))
    → ((d : Connect) → d.link.rcv.raw ≡ [] → d.is_open ≡ c.is_open → Reads (loop d))
    → Reads (after_read b c loop)
unfolding UsedUp
after_read-Reads false c loop k = record {
  out = (false, c);
  returns = refl;
  complete = λ u. absurd (cc u);
}
after_read-Reads true c loop k =
    let (b, d, e, u, p) = response_loop-ends c in
    subst (λ t. Reads (after_packets loop t)) (sym e) (by_result b d u p)
  where
    by_result :
        (b : Bool) (d : Connect)
        → UsedUp b d
        → d.is_open ≡ c.is_open
        → Reads (after_packets loop (some (b, d)))
    by_result true d u p = record { out = (true, d); returns = refl; complete = λ t. u }
    by_result false d u p = k d u p

-- On an open port and with no input left from before, `ReadResponse` ends and throws nothing when
-- the clock reaches the end time, whatever arrives; when it returns true, a complete response
-- packet is in the buffer.
pub read_response-Reads :
    (end_time now : ℕ) (xs : List Arrival) (c : Connect)
    → c.is_open ≡ true
    → c.link.rcv.raw ≡ []
    → end_time ≤ last_clock now xs
    → Reads (read_response end_time now xs c)
unfolding read_response last_clock
read_response-Reads end_time now [] c ho hr ht = record {
  out = (false, drop_packet c);
  returns = if_false _ _ (le→ltb _ _ ht);
  complete = λ u. absurd (cc u);
}
read_response-Reads end_time now (x ∷ xs) c ho hr ht = elim (Bool-cases (ltb now end_time)) [
  | inl h ↦
      let (r, e) = read_data-some false x.input c.link.rcv hr in
      subst Reads (sym (if_true _ _ h ∙ bind_some _ _ (if_true _ _ ho ∙ e))) (
        after_read-Reads (got_bytes x.input) (put_rcv r c) _
          (λ d k p. read_response-Reads end_time x.clock xs d (p ∙ ho) k ht))
  | inr h ↦ record {
    out = (false, drop_packet c);
    returns = if_false _ _ h;
    complete = λ u. absurd (cc u);
  }
]
