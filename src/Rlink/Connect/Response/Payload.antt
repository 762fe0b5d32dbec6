-- ===== src/Rlink/Connect/Response/Payload.antt =====
-- What a response carries between the request byte and the status, by the code of the command.
use w.Base.{ℕ, zero, suc, ◌%◌, ◌≤◌, ◌<◌, ◌^◌, ◌≡◌, refl, sym, ap, ◌∙◌, Option, some, if_true, true}
use w.Base.{List, [], ◌∷◌, ◌++◌, append_assoc, length, All, ◌==◌, ◌>>=◌, if◌then◌else◌, arith}
use w.Rlink.Crc16.{add_all}
use w.Rlink.Packet.Rcv.{Rcv, get_byte, get_word, get_words}
use w.Rlink.Command.{Command, command, block_size, store_words, set_data, set_block_done}
use w.Rlink.Connect.Decode.{read_payload, read_data_word, read_block, read_done_count, read_abort}
use w.Rlink.Connect.Decode.{Payload, payload, bad_length}
use w.Rlink.Connect.Reading.{
  Left, Reads, word_bytes, words_bytes, get_byte-Reads, get_word-Reads, get_words-Reads,
  add_all-append,
}

-- What the other side has to say: a register or a pattern, the words of a block and the count of
-- transferred words, the status.
pub record Answer : Type 0 where
  pub word : ℕ
  pub words : List ℕ
  pub n_words : ℕ
  pub status : ℕ

-- The codes 0 to 6 are rreg, rblk, wreg, wblk, labo, attn, init.
abbrev pub args : ℕ → Answer → List ℕ
args zero a = word_bytes a.word
args (suc zero) a = word_bytes (length a.words) ++ (words_bytes a.words ++ word_bytes a.n_words)
args (suc (suc zero)) a = []
args (suc (suc (suc zero))) a = word_bytes a.n_words
args (suc (suc (suc (suc zero)))) a = a.word ∷ []
args (suc (suc (suc (suc (suc zero))))) a = word_bytes a.word
args (suc (suc (suc (suc (suc (suc k)))))) a = []

-- Where the command keeps it.
abbrev pub stored : ℕ → Answer → Command → Command
stored zero a c = set_data a.word c
stored (suc zero) a c = set_block_done a.n_words (store_words a.words c)
stored (suc (suc zero)) a c = c
stored (suc (suc (suc zero))) a c = set_block_done a.n_words c
stored (suc (suc (suc (suc zero)))) a c = set_data a.word c
stored (suc (suc (suc (suc (suc zero))))) a c = set_data a.word c
stored (suc (suc (suc (suc (suc (suc k)))))) a c = c

-- The flags are not touched.
pub stored-flags : (k : ℕ) (a : Answer) (c : Command) → (stored k a c).flags ≡ c.flags
unfolding store_words
stored-flags zero a c = refl
stored-flags (suc zero) a c = ground arith
stored-flags (suc (suc zero)) a c = refl
stored-flags (suc (suc (suc zero))) a c = refl
stored-flags (suc (suc (suc (suc zero)))) a c = refl
stored-flags (suc (suc (suc (suc (suc zero))))) a c = refl
stored-flags (suc (suc (suc (suc (suc (suc k)))))) a c = refl

-- Nor is the request byte.
pub stored-request : (k : ℕ) (a : Answer) (c : Command) → (stored k a c).request ≡ c.request
unfolding store_words
stored-request zero a c = refl
stored-request (suc zero) a c = ground arith
stored-request (suc (suc zero)) a c = refl
stored-request (suc (suc (suc zero))) a c = refl
stored-request (suc (suc (suc (suc zero)))) a c = refl
stored-request (suc (suc (suc (suc (suc zero))))) a c = refl
stored-request (suc (suc (suc (suc (suc (suc k)))))) a c = refl

pub record Fits (c : Command) (a : Answer) : Type 0 where
  pub word_small : a.word < 2 ^ 16
  pub words_small : All (λ d. d < 2 ^ 16) a.words
  pub n_words_small : a.n_words < 2 ^ 16
  pub size_small : block_size c < 2 ^ 16
  pub same_size : command c ≡ 1 → length a.words ≡ block_size c
  pub in_block : (stored (command c) a c).block_done ≤ block_size (stored (command c) a c)

-- The payload is read, and stored.
pub record Stored (k : ℕ) (a : Answer) (c : Command) (r : Rcv) (rest : List ℕ)
    (res : Option Payload) : Type 0 where
  pub after : Rcv
  pub returns : res ≡ some (payload (stored k a c) after)
  pub left : Left after rest
  pub crc_after : after.crc ≡ add_all r.crc (args k a)
  pub nak_kept : after.nak_index ≡ r.nak_index

of_Reads :
    {A : Type 0} (k : ℕ) (a : Answer) (c : Command) (r : Rcv) (rest : List ℕ) (v : A)
    (res : Option (A × Rcv)) (keep : A → Command)
    → keep v ≡ stored k a c
    → Reads A r (add_all r.crc (args k a)) rest v res
    → Stored k a c r rest (res >>= λ (d, r'). some (payload (keep d) r'))
of_Reads {A} k a c r rest v res keep e h = record {
  after = h.after;
  returns =
      ap (λ (o : Option (A × Rcv)). o >>= λ (d, r'). some (payload (keep d) r')) h.returns
      ∙ ap (λ (t : Command). some (payload t h.after)) e;
  left = h.left;
  crc_after = h.crc_after;
  nak_kept = ap (λ (q : Rcv). q.nak_index) h.only;
}

block-Stored :
    (a : Answer) (c : Command) (r : Rcv) (rest : List ℕ)
    → Fits c a
    → command c ≡ 1
    → Left r (args 1 a ++ rest)
    → Stored 1 a c r rest (read_block c r)
unfolding read_block
block-Stored a c r rest f one h = record {
  after = z.after;
  returns =
      ap (λ (o : Option (ℕ × Rcv)). o >>= λ (n, r1). cont n r1) x.returns
      ∙ if_true _ _ (ap (λ (t : ℕ). length a.words == t % 2 ^ 16) (sym size) ∙ same_low)
      ∙ ap (λ (n : ℕ). get_words n x.after >>= λ (ws, r2). tail ws r2) (sym size)
      ∙ ap (λ (o : Option (List ℕ × Rcv)). o >>= λ (ws, r2). tail ws r2) y.returns
      ∙ ap
          (λ (o : Option (ℕ × Rcv)).
            o >>= λ (dcnt, r3). some (payload (set_block_done dcnt (store_words a.words c)) r3))
          z.returns;
  left = z.left;
  crc_after =
      z.crc_after
      ∙ ap (λ (t : ℕ). add_all t (word_bytes a.n_words))
          (y.crc_after ∙ ap (λ (t : ℕ). add_all t (words_bytes a.words)) x.crc_after)
      ∙ sym (add_all-append _ (words_bytes a.words) (word_bytes a.n_words))
      ∙ sym (add_all-append r.crc (word_bytes (length a.words)) _);
  nak_kept =
      ap (λ (q : Rcv). q.nak_index) z.only
      ∙ ap (λ (q : Rcv). q.nak_index) y.only
      ∙ ap (λ (q : Rcv). q.nak_index) x.only;
}
  where
    size : length a.words ≡ block_size c
    size = f.same_size one

    tail : List ℕ → Rcv → Option Payload
    tail ws r2 =
        get_word r2 >>= λ (dcnt, r3). some (payload (set_block_done dcnt (store_words ws c)) r3)

    cont : ℕ → Rcv → Option Payload
    cont n r1 =
        if n == block_size c % 2 ^ 16
        then (get_words (block_size c) r1 >>= λ (ws, r2). tail ws r2)
        else some (bad_length r1)

    same_low : (length a.words == length a.words % 2 ^ 16) ≡ true
    same_low = ground (arith, size, f.size_small)

    x :
        Reads ℕ r
          (add_all r.crc (word_bytes (length a.words)))
          (words_bytes a.words ++ (word_bytes a.n_words ++ rest))
          (length a.words)
          (get_word r)
    x = get_word-Reads r (length a.words) _ (omega (arith, size, f.size_small)) (
        h
        ∙ ap (λ (t : List ℕ). word_bytes (length a.words) ++ t)
            (append_assoc (words_bytes a.words) (word_bytes a.n_words) rest))

    y :
        Reads
          (List ℕ)
          x.after
          (add_all x.after.crc (words_bytes a.words))
          (word_bytes a.n_words ++ rest)
          a.words
          (get_words (length a.words) x.after)
    y = get_words-Reads a.words x.after _ f.words_small x.left

    z :
        Reads ℕ y.after
          (add_all y.after.crc (word_bytes a.n_words))
          rest
          a.n_words
          (get_word y.after)
    z = get_word-Reads y.after a.n_words rest f.n_words_small y.left

pub read_payload-Stored :
    (k : ℕ) (a : Answer) (c : Command) (r : Rcv) (rest : List ℕ)
    → command c ≡ k
    → k < 7
    → Fits c a
    → Left r (args k a ++ rest)
    → Stored k a c r rest (read_payload k c r)
unfolding read_payload read_data_word read_done_count read_abort add_all
read_payload-Stored zero a c r rest e h f l =
    of_Reads 0 a c r rest a.word (get_word r) (λ d. set_data d c) refl
      (get_word-Reads r a.word rest f.word_small l)
read_payload-Stored (suc zero) a c r rest e h f l = block-Stored a c r rest f e l
read_payload-Stored (suc (suc zero)) a c r rest e h f l = record {
  after = r;
  returns = refl;
  left = l;
  crc_after = refl;
  nak_kept = refl;
}
read_payload-Stored (suc (suc (suc zero))) a c r rest e h f l =
    of_Reads 3 a c r rest a.n_words (get_word r) (λ d. set_block_done d c) refl
      (get_word-Reads r a.n_words rest f.n_words_small l)
read_payload-Stored (suc (suc (suc (suc zero)))) a c r rest e h f l =
    of_Reads 4 a c r rest a.word (get_byte r) (λ d. set_data d c) refl
      (get_byte-Reads r a.word rest l)
read_payload-Stored (suc (suc (suc (suc (suc zero))))) a c r rest e h f l =
    of_Reads 5 a c r rest a.word (get_word r) (λ d. set_data d c) refl
      (get_word-Reads r a.word rest f.word_small l)
read_payload-Stored (suc (suc (suc (suc (suc (suc zero)))))) a c r rest e h f l = record {
  after = r;
  returns = refl;
  left = l;
  crc_after = refl;
  nak_kept = refl;
}
read_payload-Stored (suc (suc (suc (suc (suc (suc (suc k))))))) a c r rest e h f l =
    absurd (omega arith)
