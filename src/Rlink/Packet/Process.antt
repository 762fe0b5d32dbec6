-- ===== src/Rlink/Packet/Process.antt =====
-- `ProcessData` of RlinkPacketBufRcv.cpp: its nested loops end, throw nothing, and do what the
-- machine that takes one byte at a time does.
pub mod Loop
use w.Base.{
  ℕ, zero, suc, ◌-◌, ◌≤◌, ◌⊎◌, ◌≡◌, refl, sym, ap, ◌∙◌, Bool, true, false, Option, none, some,
}
use w.Base.{List, [], ◌∷◌, length, is_empty, ◌==◌, not, ◌||◌, if◌then◌else◌, ◌>>=◌, arith}
use w.Base.{Bool-cases, inl, inr, if_true, if_false}
use w.Rlink.Packet.Rcv.{Rcv, RcvState, idle, fill, done, error, take_code, drop_byte, push_byte}
use w.Rlink.Packet.Rcv.{idle_code, fill_code, idle_plain, fill_plain, idle_round, fill_round, go_on}
use w.Rlink.Packet.Rcv.{while_raw, process_idle, process_fill, process_round, process_data}
use w.Rlink.Packet.Rcv.{dispatch, end_packet, frame_error, first_nak, clobbered, not_returned}
use w.Rlink.Packet.Bytewise.{is_active, feed, plain_step, code_step}
use w.Rlink.Packet.Process.Loop.{run, IsLoop, Ends, loop-Ends}

idle_IsLoop : IsLoop idle drop_byte idle_plain idle_code
unfolding idle_plain drop_byte plain_step code_step idle_code
idle_IsLoop = record {
  active = refl;
  plain_nil = λ r. refl;
  plain_esc = λ c cs r h. if_true _ _ h;
  plain_data = λ c cs r h. if_false _ _ h;
  store_state = λ c r. refl;
  store_esc = λ c r. refl;
  store_raw = λ c cs r. refl;
  store_step = λ c r. refl;
  code_is_step = λ c r. refl;
  code_raw = λ ec c r. ground arith;
  code_state = λ ec c r h. ground arith;
  code_esc = λ ec c r. ground arith;
}

fill-IsLoop : IsLoop fill push_byte fill_plain (λ ec c. fill_code ec)
unfolding fill_plain push_byte plain_step code_step fill_code end_packet frame_error first_nak
    clobbered
fill-IsLoop = record {
  active = refl;
  plain_nil = λ r. refl;
  plain_esc = λ c cs r h. if_true _ _ h;
  plain_data = λ c cs r h. if_false _ _ h;
  store_state = λ c r. refl;
  store_esc = λ c r. refl;
  store_raw = λ c cs r. refl;
  store_step = λ c r. refl;
  code_is_step = λ c r. refl;
  code_raw = λ ec c r. ground arith;
  code_state = λ ec c r h. ground arith;
  code_esc = λ ec c r. ground arith;
}

idle-Ends : (r : Rcv) → r.state ≡ idle → Ends r (process_idle r)
unfolding process_idle idle_round
idle-Ends r st = loop-Ends idle_IsLoop (length r.raw) r st (omega arith) r.raw refl

fill-Ends : (r : Rcv) → r.state ≡ fill → Ends r (process_fill r)
unfolding process_fill fill_round
fill-Ends r st = loop-Ends fill-IsLoop (length r.raw) r st (omega arith) r.raw refl

-- One pass of the loop in `ProcessData`, by the state that it finds.
record Passes (r : Rcv) (res : Option (Bool × Rcv)) : Type 0 where
  after : Rcv
  returns : res ≡ some (false, after)
  shorter : length after.raw ≤ length r.raw - 1
  same : run after ≡ run r

active-Passes : (r : Rcv) {res : Option Rcv} → Ends r res → Passes r (not_returned res)
active-Passes r e = record {
  after = e.out;
  returns = ap not_returned e.returns;
  shorter = e.shorter;
  same = e.same;
}

-- A packet that is complete, or in error, is left alone.
rest_unread : (xs : List ℕ) (r : Rcv) → is_active r.state ≡ false → r.raw ≡ xs → feed xs r ≡ r
unfolding feed
rest_unread [] r h hr = ap (λ (xs : List ℕ). record r { raw = xs }) (sym hr)
rest_unread (c ∷ cs) r h hr = if_false _ _ h ∙ ap (λ (xs : List ℕ). record r { raw = xs }) (sym hr)

dispatch_cases :
    (s : RcvState) (r : Rcv)
    → r.state ≡ s
    → ((is_active s ≡ false) × (dispatch s r ≡ some (true, r))) ⊎ Passes r (dispatch s r)
unfolding dispatch
dispatch_cases idle r st = inr (active-Passes r (idle-Ends r st))
dispatch_cases fill r st = inr (active-Passes r (fill-Ends r st))
dispatch_cases done r st = inl (refl, refl)
dispatch_cases error r st = inl (refl, refl)

while_nonempty :
    (f : ℕ) (c : ℕ) (cs : List ℕ) (r : Rcv)
    → r.raw ≡ c ∷ cs
    → while_raw process_round (suc f) r ≡ go_on (while_raw process_round f) (process_round r)
unfolding while_raw
while_nonempty f c cs r hr =
    ap
      (λ (b : Bool). elim b [
        | true ↦ some r
        | false ↦ go_on (while_raw process_round f) (process_round r)
      ])
      (ap is_empty hr)

while_all_read : (f : ℕ) (r : Rcv) → r.raw ≡ [] → while_raw process_round f r ≡ some r
unfolding while_raw
while_all_read zero r hr = if_true _ _ (ap is_empty hr)
while_all_read (suc f) r hr =
    ap
      (λ (b : Bool). elim b [
        | true ↦ some r
        | false ↦ go_on (while_raw process_round f) (process_round r)
      ])
      (ap is_empty hr)

empty_run : (r : Rcv) → r.raw ≡ [] → r ≡ run r
unfolding feed
empty_run r hr =
    ap (λ (xs : List ℕ). record r { raw = xs }) hr ∙ ap (λ (xs : List ℕ). feed xs r) (sym hr)

process_loop :
    (f : ℕ) (r : Rcv)
    → length r.raw ≤ f
    → (xs : List ℕ) → r.raw ≡ xs
    → while_raw process_round f r ≡ some (run r)
process_loop f r h [] hr = while_all_read f r hr ∙ ap some (empty_run r hr)
process_loop zero r h (c ∷ cs) hr = absurd (omega (arith, ap length hr))
process_loop (suc f) r h (c ∷ cs) hr = elim (dispatch_cases r.state r refl) [
  | inl (still, e) ↦
      while_nonempty f c cs r hr
      ∙ ap (go_on (while_raw process_round f)) e
      ∙ ap some (sym (rest_unread r.raw r still refl))
  | inr p ↦
      while_nonempty f c cs r hr
      ∙ ap (go_on (while_raw process_round f)) p.returns
      ∙ process_loop f p.after (omega (arith, p.shorter, ap length hr)) p.after.raw refl
      ∙ ap some p.same
]

-- `ProcessData` on a buffer with data throws no exception, ends within the fuel given, and leaves
-- the state that the machine reaches which takes one byte at a time: all bytes up to the end of a
-- packet, and the bytes behind it left in the buffer.
pub process_data-feed :
    (r : Rcv) → is_empty r.raw ≡ false → process_data r ≡ some (true, feed r.raw r)
unfolding process_data
process_data-feed r h =
    if_false _ _ h
    ∙ ap (λ (t : Option Rcv). t >>= λ r'. some (true, r'))
        (process_loop (length r.raw) r (omega arith) r.raw refl)
