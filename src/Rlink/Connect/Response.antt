-- ===== src/Rlink/Connect/Response.antt =====
-- The response that answers a command, written down independently of RlinkConnect.cpp, and what
-- `DecodeResponse` makes of it.
pub mod Payload
pub mod Checks
use w.Base.{ℕ, suc, zero, ◌+◌, ◌%◌, ◌≤◌, ◌<◌, ◌^◌, ◌≡◌, refl, sym, ap, ◌∙◌, Bool, true, false, not}
use w.Base.{
  Option, none, some, List, [], ◌∷◌, ◌++◌, append_assoc, length, length-append, length-drop, le→leb,
  ◌-◌, ◌==◌, ==_refl, if_true,
}
use w.Base.{if_false, drop, if◌then◌else◌, ◌>>=◌, arith}
use w.Rlink.Crc16.{add_data, add_all}
use w.Rlink.Crc16.Division.{add_data-lt}
use w.Rlink.Packet.Rcv.{Rcv, check_nak, check_size, get_byte, check_crc}
use w.Rlink.Command.{Command, command, block_size, block_words, set_flag_bit, set_status}
use w.Rlink.Command.Laws.{IsDone, done_set}
use w.Rlink.Command.Flag
use w.Rlink.Connect.Stat
use w.Rlink.Connect.State.{Link}
use w.Rlink.Connect.Decode.{
  Decoded, good, failed, fail, with_rcv, payload, read_payload, after_payload, finish_command,
  after_crc, run_checks, after_request, check_expect, check_status, decode_one, Payload as Read,
}
use w.Rlink.Connect.Reading.{
  Left, Reads, word_bytes, get_byte-Reads, check_crc-Reads, add_all-append,
}
use Payload.{Answer, Fits, args, stored, Stored, stored-flags, read_payload-Stored}
use Checks.{SameButFlags, check_expect-Checked, check_status-Checked}

-- The bytes under the checksum: the request byte, the payload, the status.
abbrev pub body : Command → Answer → List ℕ
body c a = c.request ∷ (args (command c) a ++ (a.status ∷ []))

-- The whole response; the checksum goes on from `crc`, where the last response left it.
abbrev pub response : ℕ → Command → Answer → List ℕ
response crc c a = body c a ++ word_bytes (add_all crc (body c a))

-- A command that holds an answer.
pub record Answered (c : Command) (a : Answer) (out : Command) : Type 0 where
  pub holds : record out { flags = c.flags } ≡ set_status a.status (stored (command c) a c)
  pub is_done : IsDone out

-- A pass of `DecodeResponse` that took the response of a command.
pub record Decodes (c : Command) (a : Answer) (l : Link) (rest : List ℕ) (res : Option Decoded)
    : Type 0 where
  pub out : Command
  pub link : Link
  pub returns : res ≡ some (good out link)
  pub answered : Answered c a out
  pub left : Left link.rcv rest
  pub crc_after : link.rcv.crc ≡ add_all l.rcv.crc (body c a)
  pub nak_kept : link.rcv.nak_index ≡ l.rcv.nak_index

-- The passes of one command that follow its payload.
record Finished (a : Answer) (c : Command) (crc : ℕ) (nak : Option ℕ) (rest : List ℕ)
    (res : Option Decoded) : Type 0 where
  out : Command
  link : Link
  returns : res ≡ some (good out link)
  holds : record out { flags = c.flags } ≡ set_status a.status c
  is_done : IsDone out
  left : Left link.rcv rest
  crc_after : link.rcv.crc ≡ crc
  nak_after : link.rcv.nak_index ≡ nak

run_checks-Finished :
    (k : ℕ) (a : Answer) (c : Command) (r : Rcv) (l : Link) (rest : List ℕ)
    → c.block_done ≤ block_size c
    → Left r rest
    → Finished a c r.crc r.nak_index rest (run_checks k (set_status a.status c) (with_rcv r l))
unfolding run_checks block_size block_words
run_checks-Finished k a c r l rest h left =
    let c0 : Command = set_flag_bit Flag.done (set_status a.status c) in
    let x = check_expect-Checked k c.expect c0 (with_rcv r l) h in
    let y = check_status-Checked x.out x.link in
    record {
      out = y.out;
      link = y.link;
      returns =
          ap
            (λ (o : Option (Command × Link)).
              o >>= λ (c1, l1). some (good (check_status c1 l1).0 (check_status c1 l1).1))
            x.returns
          ∙ ap (λ (p : Option (Command × Link)). p >>= λ (c1, l1). some (good c1 l1)) y.returns;
      holds =
          ap (λ (t : Command). record t { flags = c.flags }) y.same.same
          ∙ ap (λ (t : Command). record t { flags = c.flags }) x.same.same;
      is_done = y.same.done_stays (x.same.done_stays (done_set c.flags));
      left = ap (λ (q : Rcv). drop q.n_done q.pkt_buf) (y.rcv_kept ∙ x.rcv_kept) ∙ left;
      crc_after = ap (λ (q : Rcv). q.crc) (y.rcv_kept ∙ x.rcv_kept);
      nak_after = ap (λ (q : Rcv). q.nak_index) (y.rcv_kept ∙ x.rcv_kept);
    }

finish :
    (k : ℕ) (a : Answer) (c : Command) (r : Rcv) (l : Link) (rest : List ℕ)
    → c.block_done ≤ block_size c
    → Left r (a.status ∷ (word_bytes (add_data r.crc a.status) ++ rest))
    → Finished a c (add_data r.crc a.status) r.nak_index rest (finish_command k c r l)
unfolding finish_command
finish k a c r l rest h left =
    let s = get_byte-Reads r a.status _ left in
    let sum = add_data r.crc a.status in
    let z = check_crc-Reads s.after sum rest (add_data-lt r.crc a.status) s.left in
    let same : (sum == s.after.crc) ≡ true = ap (λ (t : ℕ). sum == t) s.crc_after ∙ ==_refl sum in
    let f = run_checks-Finished k a c z.after l rest h z.left in
    record {
      out = f.out;
      link = f.link;
      returns =
          ap
            (λ (o : Option (ℕ × Rcv)). o >>= λ (stat, r1).
              check_crc r1 >>= λ (same, r2). after_crc k (set_status stat c) (with_rcv r2 l) same)
            s.returns
          ∙ ap
              (λ (o : Option (Bool × Rcv)).
                o >>= λ (same, r2). after_crc k (set_status a.status c) (with_rcv r2 l) same)
              z.returns
          ∙ if_true _ _ same
          ∙ f.returns;
      holds = f.holds;
      is_done = f.is_done;
      left = f.left;
      crc_after = f.crc_after ∙ z.crc_after ∙ s.crc_after;
      nak_after =
          f.nak_after ∙ ap (λ (q : Rcv). q.nak_index) z.only ∙ ap (λ (q : Rcv). q.nak_index) s.only;
    }

not-false : {b : Bool} → b ≡ true → not b ≡ false
not-false h = ap not h

enough-Left :
    (r : Rcv) (xs rest : List ℕ) (n : ℕ)
    → Left r (xs ++ rest)
    → n ≤ length xs
    → check_size n r ≡ true
unfolding check_size
enough-Left r xs rest n h fits =
    le→leb n (length r.pkt_buf - r.n_done)
      (omega (arith, length-drop r.n_done r.pkt_buf, ap length h, length-append xs rest))

-- A command with a valid code, an answer that fits it, and a response size no larger than that of
-- the answer: when no NAK stands at the position, and the response with the right request byte,
-- payload, status and checksum comes next, it is decoded. The command is done and holds the answer,
-- whatever is expected of it, and the packet is taken up to the end of the response, with the
-- checksum carried on.
pub decode_one-response :
    (c : Command) (a : Answer) (l : Link) (rest : List ℕ)
    → command c < 7
    → Fits c a
    → check_nak l.rcv ≡ false
    → c.rcv_size ≤ length (response l.rcv.crc c a)
    → Left l.rcv (response l.rcv.crc c a ++ rest)
    → Decodes c a l rest (decode_one c l)
unfolding decode_one after_request add_all
decode_one-response c a l rest hk f nak size left = record {
  out = z.out;
  link = z.link;
  returns = path;
  answered = answered;
  left = z.left;
  crc_after = z.crc_after ∙ sum;
  nak_kept = z.nak_after ∙ y.nak_kept ∙ ap (λ (q : Rcv). q.nak_index) x.only;
}
  where
    k : ℕ
    k = command c

    crc : ℕ
    crc = l.rcv.crc

    end : ℕ
    end = add_all crc (body c a)

    shape :
        response crc c a ++ rest ≡ c.request ∷ (args k a ++ (a.status ∷ (word_bytes end ++ rest)))
    shape =
        append_assoc (body c a) (word_bytes end) rest
        ∙ ap (λ (t : List ℕ). c.request ∷ t)
            (append_assoc (args k a) (a.status ∷ []) (word_bytes end ++ rest))

    x :
        Reads ℕ l.rcv
          (add_data crc c.request)
          (args k a ++ (a.status ∷ (word_bytes end ++ rest)))
          c.request
          (get_byte l.rcv)
    x = get_byte-Reads l.rcv c.request _ (left ∙ shape)

    y : Stored k a c x.after (a.status ∷ (word_bytes end ++ rest)) (read_payload k c x.after)
    y = read_payload-Stored k a c x.after _ refl hk f x.left

    sum : add_data y.after.crc a.status ≡ end
    sum =
        ap (λ (t : ℕ). add_data t a.status)
          (y.crc_after ∙ ap (λ (t : ℕ). add_all t (args k a)) x.crc_after)
        ∙ sym (add_all-append (add_data crc c.request) (args k a) (a.status ∷ []))

    z :
        Finished a
          (stored k a c)
          (add_data y.after.crc a.status)
          y.after.nak_index
          rest
          (finish_command k (stored k a c) y.after l)
    z =
        finish k a (stored k a c) y.after l rest f.in_block
          (y.left ∙ ap (λ (t : ℕ). a.status ∷ (word_bytes t ++ rest)) (sym sum))

    answered : Answered c a z.out
    answered = record {
      holds = ap (λ (t : ℕ). record (z.out) { flags = t }) (sym (stored-flags k a c)) ∙ z.holds;
      is_done = z.is_done;
    }

    path : decode_one c l ≡ some (good z.out z.link)
    path =
        if_false _ _ nak
        ∙ if_false _ _ (not-false (enough-Left l.rcv (response crc c a) rest c.rcv_size left size))
        ∙ ap (λ (o : Option (ℕ × Rcv)). o >>= λ (code, r). after_request c l code r) x.returns
        ∙ if_false _ _ (not-false (==_refl c.request))
        ∙ ap (λ (o : Option Read). o >>= after_payload k c l) y.returns
        ∙ z.returns
