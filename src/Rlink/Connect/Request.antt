-- ===== src/Rlink/Connect/Request.antt =====
-- The request packet, written down independently of RlinkConnect.cpp, and what `EncodeRequest` puts
-- into the send buffer.
use w.Base.{ℕ, zero, suc, ◌+◌, ◌*◌, ◌%◌, ◌^◌, ◌<◌, ◌≡◌, refl, sym, ap, ◌∙◌, bit_or}
use w.Base.{Option, some, List, [], ◌∷◌, ◌++◌, append_assoc, append-nil, length, length-append}
use w.Base.{get_or, ◌>>=◌, arith, subst, set, All}
use w.Rlink.Crc16.{add_all}
use w.Rlink.Packet.Snd.{Snd, put_byte, put_word, put_words, put_crc}
use w.Rlink.Command.{Command, command, block_size, block_words, set_seq_number, set_flag_bit}
use w.Rlink.Command.{set_rcv_size, clear_flag_bit}
use w.Rlink.Command.Flag
use w.Rlink.Connect.Stat
use w.Rlink.Connect.State.{Link, count, on_snd, bump_seq}
use w.Rlink.Connect.Encode.{encode_args, encode_one, encode_loop, encode_request}
use w.Rlink.Connect.Encode.{mark_first, mark_last}
use w.Rlink.Packet.Snd
use w.Rlink.Connect.Reading.{word_bytes, words_bytes, add_all-append}
use w.Rlink.Connect.Response.Payload.{Answer, Fits, args}

-- The bytes behind the request byte, up to the first checksum.
abbrev pub head : ℕ → Command → List ℕ
head zero c = word_bytes c.address
head (suc zero) c = word_bytes c.address ++ word_bytes (block_size c % 2 ^ 16)
head (suc (suc zero)) c = word_bytes c.address ++ word_bytes c.data_word
head (suc (suc (suc zero))) c = word_bytes c.address ++ word_bytes (block_size c % 2 ^ 16)
head (suc (suc (suc (suc zero)))) c = []
head (suc (suc (suc (suc (suc zero))))) c = []
head (suc (suc (suc (suc (suc (suc k)))))) c = word_bytes c.address ++ word_bytes c.data_word

-- A block write has a checksum in front of its words too, which does not count as data.
abbrev pub tail : ℕ → ℕ → Command → List ℕ
tail (suc (suc (suc zero))) crc c = word_bytes crc ++ words_bytes (block_words c)
tail _ crc c = []

abbrev pub tail_summed : ℕ → Command → List ℕ
tail_summed (suc (suc (suc zero))) c = words_bytes (block_words c)
tail_summed _ c = []

-- The size of the response that the protocol gives for a command.
abbrev pub response_size : ℕ → Command → ℕ
response_size zero c = 6
response_size (suc zero) c = 8 + 2 * block_size c
response_size (suc (suc zero)) c = 4
response_size (suc (suc (suc zero))) c = 6
response_size (suc (suc (suc (suc zero)))) c = 5
response_size (suc (suc (suc (suc (suc zero))))) c = 6
response_size (suc (suc (suc (suc (suc (suc k)))))) c = 4

-- A stretch of output: the bytes that go into the packet, and those that go into the checksum.
pub record Puts (s : Snd) (raw summed : List ℕ) (t : Snd) : Type 0 where
  pub pkt : t.pkt_buf ≡ s.pkt_buf ++ raw
  pub crc_after : t.crc ≡ add_all s.crc summed

Puts-trans :
    (s t u : Snd) (a b x y : List ℕ) → Puts s a x t → Puts t b y u → Puts s (a ++ b) (x ++ y) u
Puts-trans s t u a b x y f g = record {
  pkt = g.pkt ∙ ap (λ (z : List ℕ). z ++ b) f.pkt ∙ append_assoc s.pkt_buf a b;
  crc_after =
      g.crc_after ∙ ap (λ (z : ℕ). add_all z y) f.crc_after ∙ sym (add_all-append s.crc x y);
}

Puts-none : (s : Snd) → Puts s [] [] s
unfolding add_all
Puts-none s = record { pkt = sym (append-nil s.pkt_buf); crc_after = refl }

put_byte-Puts : (d : ℕ) (s : Snd) → Puts s (d ∷ []) (d ∷ []) (put_byte d s)
unfolding put_byte add_all
put_byte-Puts d s = record { pkt = refl; crc_after = refl }

put_word-Puts : (d : ℕ) (s : Snd) → Puts s (word_bytes d) (word_bytes d) (put_word d s)
unfolding put_word add_all
put_word-Puts d s = record { pkt = append_assoc s.pkt_buf _ _; crc_after = refl }

put_two :
    (d e : ℕ) (s : Snd)
    → Puts s
        (word_bytes d ++ word_bytes e)
        (word_bytes d ++ word_bytes e)
        (put_word e (put_word d s))
put_two d e s = Puts-trans s _ _ _ _ _ _ (put_word-Puts d s) (put_word-Puts e (put_word d s))

put_words-Puts : (ds : List ℕ) (s : Snd) → Puts s (words_bytes ds) (words_bytes ds) (put_words ds s)
unfolding put_words
put_words-Puts [] s = Puts-none s
put_words-Puts (d ∷ ds) s =
    Puts-trans s _ _ _ _ _ _ (put_word-Puts d s) (put_words-Puts ds (put_word d s))

put_crc-Puts : (s : Snd) → Puts s (word_bytes s.crc) [] (put_crc s)
unfolding put_crc add_all
put_crc-Puts s = record { pkt = append_assoc s.pkt_buf _ _; crc_after = refl }

-- The `switch` of `EncodeRequest`.
record ArgsSent (k : ℕ) (c : Command) (l : Link) (res : Option (Command × Link)) : Type 0 where
  out : Command
  link : Link
  returns : res ≡ some (out, link)
  seq_kept : link.seq_numbers ≡ l.seq_numbers
  rcv_kept : link.rcv ≡ l.rcv
  sized : out ≡ set_rcv_size (response_size k c) c
  sent :
      Puts l.snd
        (head k c ++ tail k (add_all l.snd.crc (head k c)) c)
        (head k c ++ tail_summed k c)
        link.snd

with_no_tail : (s t : Snd) (a : List ℕ) → Puts s a a t → Puts s (a ++ []) (a ++ []) t
with_no_tail s t a h = rw (append-nil a) h

block_sent :
    (c : Command) (l : Link)
    → Puts l.snd
        (head 3 c ++ tail 3 (add_all l.snd.crc (head 3 c)) c)
        (head 3 c ++ tail_summed 3 c)
        (put_words
          (block_words c)
          (put_crc (put_word (block_size c % 2 ^ 16) (put_word c.address l.snd))))
block_sent c l =
    let s1 : Snd = put_word (block_size c % 2 ^ 16) (put_word c.address l.snd) in
    let h = put_two c.address (block_size c % 2 ^ 16) l.snd in
    let crc : Puts s1 (word_bytes (add_all l.snd.crc (head 3 c))) [] (put_crc s1) =
      subst (λ (t : ℕ). Puts s1 (word_bytes t) [] (put_crc s1)) h.crc_after (put_crc-Puts s1) in
    Puts-trans _ _ _ _ _ _ _ h
      (Puts-trans _ _ _ _ _ _ _ crc (put_words-Puts (block_words c) (put_crc s1)))

encode_args-Sent : (k : ℕ) (c : Command) (l : Link) → k < 7 → ArgsSent k c l (encode_args k c l)
unfolding encode_args
encode_args-Sent zero c l h = record {
  out = _;
  link = _;
  returns = refl;
  seq_kept = refl;
  rcv_kept = refl;
  sized = refl;
  sent = with_no_tail _ _ _ (put_word-Puts c.address l.snd);
}
encode_args-Sent (suc zero) c l h = record {
  out = _;
  link = _;
  returns = refl;
  seq_kept = refl;
  rcv_kept = refl;
  sized = ap (λ (n : ℕ). set_rcv_size n c) (omega arith);
  sent = with_no_tail _ _ _ (put_two c.address (block_size c % 2 ^ 16) l.snd);
}
encode_args-Sent (suc (suc zero)) c l h = record {
  out = _;
  link = _;
  returns = refl;
  seq_kept = refl;
  rcv_kept = refl;
  sized = refl;
  sent = with_no_tail _ _ _ (put_two c.address c.data_word l.snd);
}
encode_args-Sent (suc (suc (suc zero))) c l h = record {
  out = _;
  link = _;
  returns = refl;
  seq_kept = refl;
  rcv_kept = refl;
  sized = refl;
  sent = block_sent c l;
}
encode_args-Sent (suc (suc (suc (suc zero)))) c l h = record {
  out = _;
  link = _;
  returns = refl;
  seq_kept = refl;
  rcv_kept = refl;
  sized = refl;
  sent = Puts-none l.snd;
}
encode_args-Sent (suc (suc (suc (suc (suc zero))))) c l h = record {
  out = _;
  link = _;
  returns = refl;
  seq_kept = refl;
  rcv_kept = refl;
  sized = refl;
  sent = Puts-none l.snd;
}
encode_args-Sent (suc (suc (suc (suc (suc (suc zero)))))) c l h = record {
  out = _;
  link = _;
  returns = refl;
  seq_kept = refl;
  rcv_kept = refl;
  sized = refl;
  sent = with_no_tail _ _ _ (put_two c.address c.data_word l.snd);
}
encode_args-Sent (suc (suc (suc (suc (suc (suc (suc k))))))) c l h = absurd (omega arith)

-- A command with its sequence number, and the numbers for the commands behind it.
abbrev pub numbered : List ℕ → Command → Command
numbered seqs c =
    clear_flag_bit (bit_or Flag.pkt_beg Flag.pkt_end) (set_seq_number (get_or seqs (command c) 0) c)

abbrev pub next_seqs : List ℕ → Command → List ℕ
next_seqs seqs c = set seqs (command c) ((get_or seqs (command c) 0 + 1) % 2 ^ 8)

-- The bytes of a request under the final checksum, and the whole request.
abbrev pub summed : ℕ → Command → List ℕ
summed k p = p.request ∷ (head k p ++ tail_summed k p)

abbrev pub request : ℕ → ℕ → Command → List ℕ
request crc k p =
    p.request
    ∷ ((head k p ++ tail k (add_all crc (p.request ∷ head k p)) p)
        ++ word_bytes (add_all crc (summed k p)))

-- The command as it is kept until the response comes.
abbrev pub sent_command : ℕ → Command → Command
sent_command k p = set_flag_bit Flag.send (set_rcv_size (response_size k p) p)

record OneSent (k : ℕ) (p : Command) (seqs : List ℕ) (l : Link) (res : Option (Command × Link))
    : Type 0 where
  link : Link
  returns : res ≡ some (sent_command k p, link)
  seq_after : link.seq_numbers ≡ seqs
  rcv_kept : link.rcv ≡ l.rcv
  pkt : link.snd.pkt_buf ≡ l.snd.pkt_buf ++ request l.snd.crc k p
  crc_after : link.snd.crc ≡ add_all l.snd.crc (summed k p)

encode_one-Sent :
    (c : Command) (l : Link)
    → command c < 7
    → OneSent (command c) (numbered l.seq_numbers c) (next_seqs l.seq_numbers c) l (encode_one c l)
unfolding encode_one put_byte add_all
encode_one-Sent c l h = record {
  link = on_snd put_crc x.link;
  returns =
      ap
        (λ (o : Option (Command × Link)).
          o >>= λ (c3, l2). some (set_flag_bit Flag.send c3, on_snd put_crc l2))
        x.returns
      ∙ ap (λ (t : Command). some (set_flag_bit Flag.send t, on_snd put_crc x.link)) x.sized;
  seq_after = x.seq_kept;
  rcv_kept = x.rcv_kept;
  pkt =
      (put_crc-Puts x.link.snd).pkt
      ∙ ap (λ (t : List ℕ). t ++ word_bytes x.link.snd.crc) both.pkt
      ∙ append_assoc l.snd.pkt_buf raw (word_bytes x.link.snd.crc)
      ∙ ap (λ (t : ℕ). l.snd.pkt_buf ++ (raw ++ word_bytes t)) both.crc_after;
  crc_after = (put_crc-Puts x.link.snd).crc_after ∙ both.crc_after;
}
  where
    k : ℕ
    k = command c

    p : Command
    p = numbered l.seq_numbers c

    l1 : Link
    l1 = on_snd (put_byte p.request) (bump_seq k (count Stat.n_cmd 1 l))

    x : ArgsSent k p l1 (encode_args k p l1)
    x = encode_args-Sent k p l1 h

    raw : List ℕ
    raw = p.request ∷ (head k p ++ tail k (add_all l.snd.crc (p.request ∷ head k p)) p)

    both : Puts l.snd raw (summed k p) x.link.snd
    both =
        Puts-trans l.snd (put_byte p.request l.snd) x.link.snd (p.request ∷ []) _ (p.request ∷ []) _
          (put_byte-Puts p.request l.snd) x.sent

-- All requests of a packet, and the commands that wait for their responses.
abbrev pub requests : ℕ → List ℕ → List Command → List ℕ
requests crc seqs [] = []
requests crc seqs (c ∷ cs) =
    let p = numbered seqs c in
    request crc (command c) p ++ requests (add_all crc (summed (command c) p)) (next_seqs seqs c) cs

abbrev pub sent_commands : List ℕ → List Command → List Command
sent_commands seqs [] = []
sent_commands seqs (c ∷ cs) =
    sent_command (command c) (numbered seqs c) ∷ sent_commands (next_seqs seqs c) cs

record AllSent (cs : List Command) (l : Link) (res : Option (List Command × Link)) : Type 0 where
  link : Link
  returns : res ≡ some (sent_commands l.seq_numbers cs, link)
  pkt : link.snd.pkt_buf ≡ l.snd.pkt_buf ++ requests l.snd.crc l.seq_numbers cs
  rcv_kept : link.rcv ≡ l.rcv

encode_loop-Sent :
    (cs : List Command) (l : Link) → All (λ c. command c < 7) cs → AllSent cs l (encode_loop cs l)
unfolding encode_loop
encode_loop-Sent [] l hs = record {
  link = l;
  returns = refl;
  pkt = sym (append-nil l.snd.pkt_buf);
  rcv_kept = refl;
}
encode_loop-Sent (c ∷ cs) l hs =
    let one = encode_one-Sent c l hs.0 in
    let ih = encode_loop-Sent cs one.link hs.1 in
    let c' = sent_command (command c) (numbered l.seq_numbers c) in
    record {
      link = ih.link;
      returns =
          ap
            (λ (o : Option (Command × Link)).
              o >>= λ (c', l1). encode_loop cs l1 >>= λ (cs', l2). some (c' ∷ cs', l2))
            one.returns
          ∙ ap (λ (o : Option (List Command × Link)). o >>= λ (cs', l2). some (c' ∷ cs', l2))
              ih.returns
          ∙ ap (λ (t : List ℕ). some (c' ∷ sent_commands t cs, ih.link)) one.seq_after;
      rcv_kept = ih.rcv_kept ∙ one.rcv_kept;
      pkt =
          ih.pkt
          ∙ ap (λ (t : List ℕ). t ++ requests one.link.snd.crc one.link.seq_numbers cs) one.pkt
          ∙ append_assoc l.snd.pkt_buf _ _
          ∙ ap
              (λ (t : List ℕ).
                l.snd.pkt_buf
                ++ (request l.snd.crc (command c) (numbered l.seq_numbers c)
                    ++ requests one.link.snd.crc t cs))
              one.seq_after
          ∙ ap
              (λ (t : ℕ).
                l.snd.pkt_buf
                ++ (request l.snd.crc (command c) (numbered l.seq_numbers c)
                    ++ requests t (next_seqs l.seq_numbers c) cs))
              one.crc_after;
    }

-- A list of commands with valid codes is encoded without an exception: the send buffer holds the
-- requests of the protocol, one behind the other, with running sequence numbers for each code and a
-- checksum that goes on from request to request; each command keeps its number, is marked as sent,
-- and knows the size of its response; the first and the last are marked. The receive buffer is left
-- alone.
pub encode_request-requests :
    (cs : List Command) (l : Link)
    → All (λ c. command c < 7) cs
    → (link : Link) × (encode_request cs l
        ≡ some (mark_last (mark_first (sent_commands l.seq_numbers cs)), link))
      × (link.snd.pkt_buf ≡ requests 0 l.seq_numbers cs)
      × (link.rcv ≡ l.rcv)
unfolding encode_request Snd.init
encode_request-requests cs l hs =
    let t = encode_loop-Sent cs (on_snd Snd.init l) hs in
    (
      t.link,
      ap
          (λ (o : Option (List Command × Link)).
            o >>= λ (cs', l'). some (mark_last (mark_first cs'), l'))
          t.returns,
      t.pkt,
      t.rcv_kept,
    )

length-words_bytes : (ds : List ℕ) → length (words_bytes ds) ≡ 2 * length ds
length-words_bytes [] = omega arith
length-words_bytes (d ∷ ds) = omega (arith, length-words_bytes ds)

response_size-args :
    (k : ℕ) (c : Command) (a : Answer)
    → command c ≡ k
    → k < 7
    → Fits c a
    → response_size k c ≡ length (c.request ∷ (args k a ++ (a.status ∷ []))) + 2
response_size-args zero c a e h f = omega arith
response_size-args (suc zero) c a e h f = omega (
  arith,
  f.same_size e,
  length-words_bytes a.words,
  length-append (words_bytes a.words) (word_bytes a.n_words),
  length-append (words_bytes a.words ++ word_bytes a.n_words) (a.status ∷ []),
)
response_size-args (suc (suc zero)) c a e h f = omega arith
response_size-args (suc (suc (suc zero))) c a e h f = omega arith
response_size-args (suc (suc (suc (suc zero)))) c a e h f = omega arith
response_size-args (suc (suc (suc (suc (suc zero))))) c a e h f = omega arith
response_size-args (suc (suc (suc (suc (suc (suc zero)))))) c a e h f = omega arith
response_size-args (suc (suc (suc (suc (suc (suc (suc k))))))) c a e h f = absurd (omega arith)

-- For each of the seven command codes the `switch` of `EncodeRequest` sets the size of the response,
-- and nothing else of the command: to the length of a response whose contents fit the command, with
-- its checksum.
pub encode_args-sized :
    (k : ℕ) (c : Command) (l : Link) (a : Answer)
    → command c ≡ k
    → k < 7
    → Fits c a
    → (c' : Command) × (l' : Link) × (encode_args k c l ≡ some (c', l'))
      × (c' ≡ set_rcv_size (length (c.request ∷ (args k a ++ (a.status ∷ []))) + 2) c)
encode_args-sized k c l a e h f =
    let s = encode_args-Sent k c l h in
    (
      s.out,
      s.link,
      s.returns,
      s.sized ∙ ap (λ (n : ℕ). set_rcv_size n c) (response_size-args k c a e h f),
    )
