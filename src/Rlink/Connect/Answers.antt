-- ===== src/Rlink/Connect/Answers.antt =====
-- The responses to a list of commands in one packet, and what `DecodeResponse` makes of them.
use w.Base.{
  ℕ, zero, suc, ◌+◌, ◌≤◌, ◌<◌, ◌≡◌, refl, sym, ap, ◌∙◌, Bool, true, false, not, ◌&&◌, Option,
}
use w.Base.{
  none, some, List, [], ◌∷◌, ◌++◌, append_assoc, map, bit_and, length, length-append, ◌==◌, bit_or,
}
use w.Base.{Bool-cases, inl, inr, if_true, if_false, if◌then◌else◌, All, arith}
use w.Rlink.Crc16.{add_all}
use w.Rlink.Packet.Rcv.{check_nak, nak_at}
use w.Rlink.Command.{Command, command, set_flag_bit}
use w.Rlink.Command.Code
use w.Rlink.Command.Flag
use w.Rlink.Connect.State.{Link}
use w.Rlink.Connect.Decode.{Decoding, settle, behind, labo_after, decode_one, decode_loop}
use w.Rlink.Connect.Decode.{decode_response}
use w.Rlink.Connect.Reading.{Left, word_bytes}
use w.Rlink.Connect.Response.{Decodes, Answered, body, response, decode_one-response}
use w.Rlink.Connect.Response.Payload.{Answer, Fits, stored, stored-request}

abbrev pub Asked : Type 0
Asked = Command × Answer

-- A `labo` command aborts the rest of the list if its answer is not zero.
abbrev pub aborts : Command → Answer → Bool
aborts c a = (command c == Code.labo) && not (a.word == 0)

-- The packet of responses; nothing is sent for the commands behind an abort.
abbrev pub responses : ℕ → List Asked → List ℕ
responses crc [] = []
responses crc ((c, a) ∷ ps) =
    response crc c a
    ++ (let later = responses (add_all crc (body c a)) ps in if aborts c a then [] else later)

abbrev pub commands_of : List Asked → List Command
commands_of [] = []
commands_of ((c, a) ∷ ps) = c ∷ commands_of ps

-- A command as `EncodeRequest` leaves it, with an answer that fits it.
abbrev pub Ready : Asked → Type 0
Ready (c, a) = (command c < 7) × Fits c a × (c.rcv_size ≤ length (body c a) + 2)

abbrev pub cancelled : Command → Command
cancelled = set_flag_bit (bit_or Flag.done Flag.labo)

-- Each command holds its answer; the commands behind an abort are marked as cancelled.
abbrev pub Outcome : List Asked → List Command → Type 0
Outcome [] [] = Unit {0}
Outcome [] (d ∷ ds) = ⊥
Outcome ((c, a) ∷ ps) [] = ⊥
Outcome ((c, a) ∷ ps) (d ∷ ds) =
    Answered c a d
    × ((aborts c a ≡ true → ds ≡ map cancelled (commands_of ps))
        × (aborts c a ≡ false → Outcome ps ds))

abbrev with_count : Option ℕ → List Command → Link → ℕ → Option Decoding
with_count labo ds l m = some (record { n_cmd = some m; commands = ds; labo = labo; link = l })

-- Behind an abort the loop marks every command, and reads nothing.
decode_loop-cancelled :
    (ps : List Asked) (i k : ℕ) (l : Link) (n : ℕ)
    → decode_loop (commands_of ps) i (some k) l n
      ≡ some (record {
        n_cmd = some (n + length ps);
        commands = map cancelled (commands_of ps);
        labo = some k;
        link = l;
      })
unfolding decode_loop
decode_loop-cancelled [] i k l n = ap (with_count (some k) [] l) (omega arith)
decode_loop-cancelled ((c, a) ∷ ps) i k l n =
    ap (behind (cancelled c)) (decode_loop-cancelled ps (i + 1) k l (n + 1))
    ∙ ap (with_count (some k) (map cancelled (commands_of ((c, a) ∷ ps))) l) (omega arith)

labo_data :
    (k : ℕ) (a : Answer) (c : Command)
    → ((k == Code.labo) && not ((stored k a c).data_word == 0))
      ≡ ((k == Code.labo) && not (a.word == 0))
labo_data zero a c = refl
labo_data (suc zero) a c = refl
labo_data (suc (suc zero)) a c = refl
labo_data (suc (suc (suc zero))) a c = refl
labo_data (suc (suc (suc (suc zero)))) a c = refl
labo_data (suc (suc (suc (suc (suc zero))))) a c = refl
labo_data (suc (suc (suc (suc (suc (suc k)))))) a c = ground arith

labo_after-Answered :
    (i : ℕ) (c : Command) (a : Answer) (d : Command)
    → Answered c a d
    → labo_after i d none ≡ (if aborts c a then some i else none)
unfolding command
labo_after-Answered i c a d h =
    ap (λ (q : ℕ). test q d.data_word)
      (ap (λ (t : Command). t.request) h.holds ∙ stored-request (command c) a c)
    ∙ ap (test c.request) (ap (λ (t : Command). t.data_word) h.holds)
    ∙ ap (λ (b : Bool). if b then some i else none) (labo_data (command c) a c)
  where
    test : ℕ → ℕ → Option ℕ
    test q w = if (bit_and q 7 == Code.labo) && not (w == 0) then some i else none

record DecodesAll (ps : List Asked) (rest : List ℕ) (n : ℕ) (res : Option Decoding) : Type 0 where
  decoding : Decoding
  returns : res ≡ some decoding
  counted : decoding.n_cmd ≡ some (n + length ps)
  outcome : Outcome ps decoding.commands
  left : Left decoding.link.rcv rest

length-response :
    (crc : ℕ) (c : Command) (a : Answer) → length (response crc c a) ≡ length (body c a) + 2
length-response crc c a =
    omega (arith, length-append (body c a) (word_bytes (add_all crc (body c a))))

loop_responses :
    (ps : List Asked) (i : ℕ) (l : Link) (n : ℕ) (rest : List ℕ)
    → All Ready ps
    → l.rcv.nak_index ≡ none
    → Left l.rcv (responses l.rcv.crc ps ++ rest)
    → DecodesAll ps rest n (decode_loop (commands_of ps) i none l n)
unfolding decode_loop check_nak
loop_responses [] i l n rest hs nak left = record {
  decoding = record { n_cmd = some n; commands = []; labo = none; link = l };
  returns = refl;
  counted = ap some (omega arith);
  outcome = tt;
  left = left;
}
loop_responses ((c, a) ∷ ps) i l n rest ((k, f, size), hs) nak left =
    elim (Bool-cases (aborts c a)) [
      | inl stop ↦ record {
        decoding = record {
          n_cmd = some (n + 1 + length ps);
          commands = one.out ∷ map cancelled (commands_of ps);
          labo = some i;
          link = one.link;
        };
        returns =
            first
            ∙ ap
                (λ (o : Option ℕ).
                  behind one.out (decode_loop (commands_of ps) (i + 1) o one.link (n + 1)))
                (labo_after-Answered i c a one.out one.answered ∙ if_true _ _ stop)
            ∙ ap (behind one.out) (decode_loop-cancelled ps (i + 1) i one.link (n + 1));
        counted = ap some (omega arith);
        outcome = (one.answered, (λ t. refl, λ t. absurd (clash stop t)));
        left = one.left ∙ ap (λ (t : List ℕ). t ++ rest) (if_true _ _ stop);
      }
      | inr goes ↦
          let ih = loop_responses ps (i + 1) one.link (n + 1) rest hs (one.nak_kept ∙ nak) (
            one.left
            ∙ ap (λ (t : List ℕ). t ++ rest)
                (if_false _ _ goes ∙ ap (λ (t : ℕ). responses t ps) (sym one.crc_after))) in
          record {
            decoding = record (ih.decoding) { commands = one.out ∷ ih.decoding.commands };
            returns =
                first
                ∙ ap
                    (λ (o : Option ℕ).
                      behind one.out (decode_loop (commands_of ps) (i + 1) o one.link (n + 1)))
                    (labo_after-Answered i c a one.out one.answered ∙ if_false _ _ goes)
                ∙ ap (behind one.out) ih.returns;
            counted = ih.counted ∙ ap some (omega arith);
            outcome = (one.answered, (λ t. absurd (clash t goes), λ t. ih.outcome));
            left = ih.left;
          }
    ]
  where
    clash : {b : Bool} → b ≡ true → b ≡ false → ⊥
    clash p q = cc

    later : List ℕ
    later = if aborts c a then [] else responses (add_all l.rcv.crc (body c a)) ps

    one : Decodes c a l (later ++ rest) (decode_one c l)
    one =
        decode_one-response c a l (later ++ rest) k f
          (ap (λ (o : Option ℕ). nak_at o l.rcv.n_done) nak)
          (omega (arith, length-response l.rcv.crc c a))
          (left ∙ append_assoc (response l.rcv.crc c a) later rest)

    first :
        decode_loop (commands_of ((c, a) ∷ ps)) i none l n
        ≡ behind one.out
            (decode_loop (commands_of ps) (i + 1) (labo_after i one.out none) one.link (n + 1))
    first = ap (settle i n none (commands_of ps) (decode_loop (commands_of ps) (i + 1))) one.returns

-- A packet without a NAK, with the responses to a list of commands in order: when each command is
-- ready (a valid code, an answer that fits, a response size no larger than that of the answer) and
-- no abort is active, the packet is decoded. The count is that of all commands, each command up to the first abort holds its answer and is done, the commands behind an
-- abort are marked as cancelled, and what follows the responses in the packet is not taken.
pub decode_response-responses :
    (ps : List Asked) (ibeg : ℕ) (l : Link) (rest : List ℕ)
    → All Ready ps
    → l.rcv.nak_index ≡ none
    → Left l.rcv (responses l.rcv.crc ps ++ rest)
    → (d : Decoding) × (decode_response (commands_of ps) ibeg none l ≡ some d)
      × (d.n_cmd ≡ some (length ps))
      × Outcome ps d.commands
      × Left d.link.rcv rest
unfolding decode_response
decode_response-responses ps ibeg l rest hs nak left =
    let t = loop_responses ps ibeg l 0 rest hs nak left in
    (t.decoding, t.returns, t.counted ∙ ap some (omega arith), t.outcome, t.left)
