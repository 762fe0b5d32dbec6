-- ===== src/Rlink/Packet/Process/Loop.antt =====
-- One of the two loops of RlinkPacketBufRcv.cpp over the raw buffer, `ProcessDataIdle` or
-- `ProcessDataFill`, against the machine that takes one byte at a time.
use w.Base.{ℕ, zero, suc, ◌-◌, ◌≤◌, ◌<◌, ◌≡◌, refl, sym, ap, ◌∙◌, Bool, true, false, Option, none}
use w.Base.{some, List, [], ◌∷◌, length, is_empty, ◌==◌, if◌then◌else◌, ◌>>=◌, arith}
use w.Base.{Bool-cases, inl, inr, if_true, if_false}
use w.Rlink.Packet.{sym_esc, ecode}
use w.Rlink.Packet.Rcv.{Rcv, RcvState, take_code, get_ecode, and_then, go_on, while_raw}
use w.Rlink.Packet.Bytewise.{is_active, step, feed, plain_step, code_step, second}

-- The machine run over what is left in the raw buffer.
abbrev pub run : Rcv → Rcv
run r = feed r.raw r

-- The machine does not read what `raw` held before.
pub feed_raw : (xs ys : List ℕ) (r : Rcv) → feed xs (record r { raw = ys }) ≡ feed xs r
unfolding feed step take_code
feed_raw [] ys r = refl
feed_raw (c ∷ cs) ys r = refl

-- The three ways in which the machine takes a byte.
module _ (c : ℕ) (cs : List ℕ) (r : Rcv) (active : is_active r.state ≡ true) where
  pub feed_start :
      r.esc_seen ≡ false
      → (c == sym_esc) ≡ true
      → feed (c ∷ cs) r ≡ feed cs (record r { raw = cs; esc_seen = true })
  unfolding feed step
  feed_start e h = if_true _ _ active ∙ ap (feed cs) (if_false _ _ e ∙ if_true _ _ h)

  pub feed_plain :
      r.esc_seen ≡ false
      → (c == sym_esc) ≡ false
      → feed (c ∷ cs) r ≡ feed cs (plain_step r.state c (record r { raw = cs }))
  unfolding feed step
  feed_plain e h = if_true _ _ active ∙ ap (feed cs) (if_false _ _ e ∙ if_false _ _ h)

  pub feed_code :
      r.esc_seen ≡ true → feed (c ∷ cs) r ≡ feed cs (code_step r.state c (take_code c cs r))
  unfolding feed step
  feed_code e = if_true _ _ active ∙ ap (feed cs) (if_true _ _ e)

-- What a loop is made of, in its state `s`: how it stores a byte of data, its inner loop, and its
-- `switch` over the code of an escape.
pub record IsLoop (s : RcvState) (store : ℕ → Rcv → Rcv) (plain : List ℕ → Rcv → Rcv)
    (code : ℕ → ℕ → Rcv → Bool × Rcv) : Type 0 where
  pub active : is_active s ≡ true
  pub plain_nil : (r : Rcv) → plain [] r ≡ record r { raw = [] }
  pub plain_esc :
      (c : ℕ) (cs : List ℕ) (r : Rcv)
      → (c == sym_esc) ≡ true
      → plain (c ∷ cs) r ≡ record r { raw = cs; esc_seen = true }
  pub plain_data :
      (c : ℕ) (cs : List ℕ) (r : Rcv)
      → (c == sym_esc) ≡ false
      → plain (c ∷ cs) r ≡ plain cs (store c r)
  pub store_state : (c : ℕ) (r : Rcv) → (store c r).state ≡ r.state
  pub store_esc : (c : ℕ) (r : Rcv) → (store c r).esc_seen ≡ r.esc_seen
  pub store_raw :
      (c : ℕ) (cs : List ℕ) (r : Rcv)
      → store c (record r { raw = cs }) ≡ record (store c r) { raw = cs }
  pub store_step : (c : ℕ) (r : Rcv) → plain_step s c r ≡ store c r
  pub code_is_step : (c : ℕ) (r : Rcv) → code_step s c r ≡ second (code (ecode c) c r)
  pub code_raw : (ec c : ℕ) (r : Rcv) → (second (code ec c r)).raw ≡ r.raw
  pub code_state :
      (ec c : ℕ) (r : Rcv) → (code ec c r).0 ≡ false → (second (code ec c r)).state ≡ r.state
  pub code_esc : (ec c : ℕ) (r : Rcv) → (second (code ec c r)).esc_seen ≡ r.esc_seen

-- A stretch of work on `r`: it ends, takes bytes if there are any, and leaves the machine where it
-- would have come to.
pub record Ends (r : Rcv) (res : Option Rcv) : Type 0 where
  pub out : Rcv
  pub returns : res ≡ some out
  pub shorter : length out.raw ≤ length r.raw - 1
  pub same : run out ≡ run r

record Plain (s : RcvState) (xs : List ℕ) (r out : Rcv) : Type 0 where
  same : run out ≡ feed xs r
  within : length out.raw ≤ length xs - 1
  state_kept : out.state ≡ s

record Round (s : RcvState) (r : Rcv) (res : Option (Bool × Rcv)) : Type 0 where
  stop : Bool
  after : Rcv
  returns : res ≡ some (stop, after)
  shorter : length after.raw < length r.raw
  same : run after ≡ run r
  keeps : stop ≡ false → after.state ≡ s

module _ {s : RcvState} {store : ℕ → Rcv → Rcv} {plain : List ℕ → Rcv → Rcv}
    {code : ℕ → ℕ → Rcv → Bool × Rcv} (l : IsLoop s store plain code) where
  plain_loop :
      (xs : List ℕ) (r : Rcv) → r.state ≡ s → r.esc_seen ≡ false → Plain s xs r (plain xs r)
  plain_loop [] r st e =
      rw (l.plain_nil r) (record { same = feed_raw [] [] r; within = omega arith; state_kept = st })
  plain_loop (c ∷ cs) r st e = elim (Bool-cases (c == sym_esc)) [
    | inl esc ↦ rw (l.plain_esc c cs r esc) (record {
      same = sym (feed_start c cs r (rw st l.active) e esc);
      within = omega arith;
      state_kept = st;
    })
    | inr data_byte ↦
        let ih = plain_loop cs (store c r) (l.store_state c r ∙ st) (l.store_esc c r ∙ e) in
        rw (l.plain_data c cs r data_byte) (record {
          same =
              ih.same
              ∙ sym (feed_raw cs cs (store c r))
              ∙ ap (feed cs) (
                  sym (l.store_raw c cs r)
                  ∙ sym (l.store_step c _)
                  ∙ ap (λ (t : RcvState). plain_step t c (record r { raw = cs })) (sym st))
              ∙ sym (feed_plain c cs r (rw st l.active) e data_byte);
          within = omega (arith, ih.within);
          state_kept = ih.state_kept;
        })
  ]

  -- One pass of the outer loop over a buffer that is not empty.
  abbrev body : Rcv → Option (Bool × Rcv)
  body r =
      if r.esc_seen
      then (do (ec, c, r') ← get_ecode r; some (and_then (λ s. plain s.raw s) (code ec c r')))
      else some (false, plain r.raw r)

  -- After the `switch` the machine is one byte further.
  module _ (c : ℕ) (cs : List ℕ) (r : Rcv) (st : r.state ≡ s) (e : r.esc_seen ≡ true)
      (hr : r.raw ≡ c ∷ cs) (p : Bool × Rcv) (h : code (ecode c) c (take_code c cs r) ≡ p) where
    coded_raw : (second p).raw ≡ cs
    unfolding take_code
    coded_raw =
        ap (λ (t : Bool × Rcv). (second t).raw) (sym h) ∙ l.code_raw (ecode c) c (take_code c cs r)

    coded_run : run (second p) ≡ run r
    coded_run =
        ap (λ (xs : List ℕ). feed xs (second p)) coded_raw
        ∙ ap (λ (t : Bool × Rcv). feed cs (second t)) (sym h)
        ∙ ap (feed cs) (
            sym (l.code_is_step c (take_code c cs r))
            ∙ ap (λ (t : RcvState). code_step t c (take_code c cs r)) (sym st))
        ∙ sym (feed_code c cs r (rw st l.active) e)
        ∙ ap (λ (xs : List ℕ). feed xs r) (sym hr)

    coded_shorter : length (second p).raw < length r.raw
    coded_shorter = omega (arith, ap length coded_raw, ap length hr)

    coded_state : p.0 ≡ false → (second p).state ≡ s
    unfolding take_code
    coded_state f =
        ap (λ (t : Bool × Rcv). (second t).state) (sym h)
        ∙ l.code_state (ecode c) c (take_code c cs r) (ap (λ (t : Bool × Rcv). t.0) h ∙ f)
        ∙ st

    coded_esc : (second p).esc_seen ≡ false
    unfolding take_code
    coded_esc =
        ap (λ (t : Bool × Rcv). (second t).esc_seen) (sym h)
        ∙ l.code_esc (ecode c) c (take_code c cs r)

  after_code :
      (c : ℕ) (cs : List ℕ) (r : Rcv)
      → r.state ≡ s
      → r.esc_seen ≡ true
      → r.raw ≡ c ∷ cs
      → (p : Bool × Rcv) → code (ecode c) c (take_code c cs r) ≡ p
      → Round s r (some (and_then (λ s. plain s.raw s) p))
  after_code c cs r st e hr (true, q) h = record {
    stop = true;
    after = q;
    returns = refl;
    shorter = coded_shorter c cs r st e hr (true, q) h;
    same = coded_run c cs r st e hr (true, q) h;
    keeps = λ f. cc;
  }
  after_code c cs r st e hr (false, q) h =
      let ih =
        plain_loop q.raw q (coded_state c cs r st e hr (false, q) h refl)
          (coded_esc c cs r st e hr (false, q) h) in
      record {
        stop = false;
        after = plain q.raw q;
        returns = refl;
        shorter = omega (arith, ih.within, coded_shorter c cs r st e hr (false, q) h);
        same = ih.same ∙ coded_run c cs r st e hr (false, q) h;
        keeps = λ f. ih.state_kept;
      }

  get_ecode-some :
      (c : ℕ) (cs : List ℕ) (r : Rcv)
      → r.esc_seen ≡ true
      → r.raw ≡ c ∷ cs
      → get_ecode r ≡ some (ecode c, c, take_code c cs r)
  unfolding get_ecode
  get_ecode-some c cs r e hr =
      if_true _ _ e
      ∙ ap (λ (xs : List ℕ). elim xs [ [] ↦ none | c ∷ cs ↦ some (ecode c, c, take_code c cs r) ])
          hr

  round : (c : ℕ) (cs : List ℕ) (r : Rcv) → r.state ≡ s → r.raw ≡ c ∷ cs → Round s r (body r)
  round c cs r st hr = elim (Bool-cases r.esc_seen) [
    | inl e ↦
        let t = after_code c cs r st e hr (code (ecode c) c (take_code c cs r)) refl in
        record {
          stop = t.stop;
          after = t.after;
          returns =
              if_true _ _ e
              ∙ ap
                  (λ (g : Option (ℕ × ℕ × Rcv)).
                    g >>= λ (ec, c, r'). some (and_then (λ s. plain s.raw s) (code ec c r')))
                  (get_ecode-some c cs r e hr)
              ∙ t.returns;
          shorter = t.shorter;
          same = t.same;
          keeps = t.keeps;
        }
    | inr e ↦
        let ih = plain_loop r.raw r st e in
        record {
          stop = false;
          after = plain r.raw r;
          returns = if_false _ _ e;
          shorter = omega (arith, ih.within, ap length hr);
          same = ih.same;
          keeps = λ f. ih.state_kept;
        }
  ]

  while_step :
      (f : ℕ) (c : ℕ) (cs : List ℕ) (r : Rcv)
      → r.raw ≡ c ∷ cs
      → while_raw body (suc f) r ≡ go_on (while_raw body f) (body r)
  unfolding while_raw
  while_step f c cs r hr =
      ap (λ (b : Bool). elim b [ true ↦ some r | false ↦ go_on (while_raw body f) (body r) ])
        (ap is_empty hr)

  while_empty : (f : ℕ) (r : Rcv) → r.raw ≡ [] → while_raw body f r ≡ some r
  unfolding while_raw
  while_empty zero r hr = if_true _ _ (ap is_empty hr)
  while_empty (suc f) r hr =
      ap (λ (b : Bool). elim b [ true ↦ some r | false ↦ go_on (while_raw body f) (body r) ])
        (ap is_empty hr)

  -- The outer loop: enough fuel, no exception, and the same run of the machine.
  pub loop-Ends :
      (f : ℕ) (r : Rcv)
      → r.state ≡ s
      → length r.raw ≤ f
      → (xs : List ℕ) → r.raw ≡ xs
      → Ends r (while_raw body f r)
  loop-Ends f r st h [] hr = record {
    out = r;
    returns = while_empty f r hr;
    shorter = omega (arith, ap length hr);
    same = refl;
  }
  loop-Ends zero r st h (c ∷ cs) hr = absurd (omega (arith, ap length hr))
  loop-Ends (suc f) r st h (c ∷ cs) hr =
      let t = round c cs r st hr in
      let first : while_raw body (suc f) r ≡ go_on (while_raw body f) (some (t.stop, t.after)) =
        while_step f c cs r hr ∙ ap (go_on (while_raw body f)) t.returns in
      elim (Bool-cases t.stop) [
        | inl ends ↦ record {
          out = t.after;
          returns = first ∙ ap (λ (b : Bool). go_on (while_raw body f) (some (b, t.after))) ends;
          shorter = omega (arith, t.shorter);
          same = t.same;
        }
        | inr goes ↦
            let ih =
              loop-Ends f t.after (t.keeps goes) (omega (arith, t.shorter)) t.after.raw refl in
            record {
              out = ih.out;
              returns =
                  first
                  ∙ ap (λ (b : Bool). go_on (while_raw body f) (some (b, t.after))) goes
                  ∙ ih.returns;
              shorter = omega (arith, ih.shorter, t.shorter);
              same = ih.same ∙ t.same;
            }
      ]
