-- ===== src/Rlink/Connect/Reading.antt =====
-- The readers of RlinkPacketBufRcv.ipp on a packet whose next bytes are known.
use w.Base.{ℕ, zero, suc, ◌+◌, ◌*◌, ◌/◌, ◌%◌, ◌^◌, ◌<◌, ◌≡◌, refl, ap, ◌∙◌, bit_or, Bool}
use w.Base.{Option, some, List, [], ◌∷◌, ◌++◌, length, drop, get_elem?, All, ◌==◌}
use w.Base.{◌>>=◌, arith}
use w.Base.Bits.Or.{bit_or_low}
use w.Rlink.Crc16.{add_data, add_all}
use w.Rlink.Packet.Rcv.{Rcv, next_byte, get_byte, get_word, get_words, check_crc}

-- The bytes of the packet that are not taken yet.
abbrev pub Left : Rcv → List ℕ → Type 0
Left r bs = drop r.n_done r.pkt_buf ≡ bs

drop-cons :
    (n : ℕ) (xs : List ℕ) {y : ℕ} {ys : List ℕ}
    → drop n xs ≡ y ∷ ys
    → (get_elem? xs n ≡ some y) × (drop (suc n) xs ≡ ys)
drop-cons zero [] h = absurd (cc h)
drop-cons zero (x ∷ xs) h = (cc, cc)
drop-cons (suc n) [] h = absurd (cc h)
drop-cons (suc n) (x ∷ xs) h = drop-cons n xs h

-- A read of `bs` that gives `v`, leaves `rest`, and changes nothing but the position and the checksum.
pub record Reads (A : Type 0) (r : Rcv) (crc : ℕ) (rest : List ℕ) (v : A) (res : Option (A × Rcv))
    : Type 0 where
  pub after : Rcv
  pub returns : res ≡ some (v, after)
  pub left : Left after rest
  pub crc_after : after.crc ≡ crc
  pub only : after ≡ record r { n_done = after.n_done; crc = after.crc }

next_byte-Reads :
    (r : Rcv) (b : ℕ) (rest : List ℕ) → Left r (b ∷ rest) → Reads ℕ r r.crc rest b (next_byte r)
unfolding next_byte
next_byte-Reads r b rest h =
    let d = drop-cons r.n_done r.pkt_buf h in
    let e : r.n_done + 1 ≡ suc r.n_done = omega arith in
    record {
      after = record r { n_done = r.n_done + 1 };
      returns = ap (λ (o : Option ℕ). o >>= λ c. some (c, record r { n_done = r.n_done + 1 })) d.0;
      left = ap (λ (n : ℕ). drop n r.pkt_buf) e ∙ d.1;
      crc_after = refl;
      only = refl;
    }

pub get_byte-Reads :
    (r : Rcv) (b : ℕ) (rest : List ℕ)
    → Left r (b ∷ rest)
    → Reads ℕ r (add_data r.crc b) rest b (get_byte r)
unfolding get_byte
get_byte-Reads r b rest h =
    let n = next_byte-Reads r b rest h in
    record {
      after = record n.after { crc = add_data n.after.crc b };
      returns =
          ap
            (λ (o : Option (ℕ × Rcv)).
              o >>= λ (c, r'). some (c, record r' { crc = add_data r'.crc c }))
            n.returns;
      left = n.left;
      crc_after = ap (λ (t : ℕ). add_data t b) n.crc_after;
      only = ap (λ (t : Rcv). record t { crc = add_data n.after.crc b }) n.only;
    }

-- A word as the two bytes that `PutWithCrc(uint16_t)` sends.
abbrev pub word_bytes : ℕ → List ℕ
word_bytes d = d % 2 ^ 8 ∷ d / 2 ^ 8 % 2 ^ 8 ∷ []

join_bytes : (d : ℕ) → d < 2 ^ 16 → bit_or (d % 2 ^ 8) (d / 2 ^ 8 % 2 ^ 8 * 2 ^ 8) ≡ d
join_bytes d h = omega (arith, bit_or_low 8 (d % 2 ^ 8) (d / 2 ^ 8 % 2 ^ 8) (omega arith))

pub get_word-Reads :
    (r : Rcv) (d : ℕ) (rest : List ℕ)
    → d < 2 ^ 16
    → Left r (word_bytes d ++ rest)
    → Reads ℕ r (add_all r.crc (word_bytes d)) rest d (get_word r)
unfolding get_word add_all
get_word-Reads r d rest hd h =
    let lo : ℕ = d % 2 ^ 8 in
    let hi : ℕ = d / 2 ^ 8 % 2 ^ 8 in
    let a = next_byte-Reads r lo (hi ∷ rest) h in
    let b = next_byte-Reads a.after hi rest a.left in
    let r2 = b.after in
    record {
      after = record r2 { crc = add_data (add_data r2.crc lo) hi };
      returns =
          ap
            (λ (o : Option (ℕ × Rcv)). o >>= λ (datl, r1). next_byte r1 >>= λ (dath, r2). some (
              bit_or datl (dath * 2 ^ 8),
              record r2 { crc = add_data (add_data r2.crc datl) dath },
            ))
            a.returns
          ∙ ap
              (λ (o : Option (ℕ × Rcv)). o >>= λ (dath, r2).
                some (
                  bit_or lo (dath * 2 ^ 8),
                  record r2 { crc = add_data (add_data r2.crc lo) dath },
                ))
              b.returns
          ∙ ap (λ (v : ℕ). some (v, record r2 { crc = add_data (add_data r2.crc lo) hi }))
              (join_bytes d hd);
      left = b.left;
      crc_after = ap (λ (t : ℕ). add_data (add_data t lo) hi) (b.crc_after ∙ a.crc_after);
      only =
          ap (λ (t : Rcv). record t { crc = add_data (add_data r2.crc lo) hi })
            (b.only ∙ ap (λ (t : Rcv). record t { n_done = r2.n_done; crc = r2.crc }) a.only);
    }

-- The checksum is read without going into the checksum.
pub check_crc-Reads :
    (r : Rcv) (d : ℕ) (rest : List ℕ)
    → d < 2 ^ 16
    → Left r (word_bytes d ++ rest)
    → Reads Bool r r.crc rest (d == r.crc) (check_crc r)
unfolding check_crc
check_crc-Reads r d rest hd h =
    let lo : ℕ = d % 2 ^ 8 in
    let hi : ℕ = d / 2 ^ 8 % 2 ^ 8 in
    let a = next_byte-Reads r lo (hi ∷ rest) h in
    let b = next_byte-Reads a.after hi rest a.left in
    record {
      after = b.after;
      returns =
          ap
            (λ (o : Option (ℕ × Rcv)). o >>= λ (datl, r1).
              next_byte r1 >>= λ (dath, r2). some (bit_or datl (dath * 2 ^ 8) == r2.crc, r2))
            a.returns
          ∙ ap
              (λ (o : Option (ℕ × Rcv)).
                o >>= λ (dath, r2). some (bit_or lo (dath * 2 ^ 8) == r2.crc, r2))
              b.returns
          ∙ ap (λ (v : ℕ). some (v == b.after.crc, b.after)) (join_bytes d hd)
          ∙ ap (λ (v : ℕ). some (d == v, b.after)) (b.crc_after ∙ a.crc_after);
      left = b.left;
      crc_after = b.crc_after ∙ a.crc_after;
      only =
          b.only ∙ ap (λ (t : Rcv). record t { n_done = b.after.n_done; crc = b.after.crc }) a.only;
    }

abbrev pub words_bytes : List ℕ → List ℕ
words_bytes [] = []
words_bytes (d ∷ ds) = word_bytes d ++ words_bytes ds

pub add_all-append :
    (crc : ℕ) (xs ys : List ℕ) → add_all crc (xs ++ ys) ≡ add_all (add_all crc xs) ys
unfolding add_all
add_all-append crc [] ys = refl
add_all-append crc (x ∷ xs) ys = add_all-append (add_data crc x) xs ys

pub get_words-Reads :
    (ds : List ℕ) (r : Rcv) (rest : List ℕ)
    → All (λ d. d < 2 ^ 16) ds
    → Left r (words_bytes ds ++ rest)
    → Reads (List ℕ) r (add_all r.crc (words_bytes ds)) rest ds (get_words (length ds) r)
unfolding get_words add_all
get_words-Reads [] r rest hs h = record {
  after = r;
  returns = refl;
  left = h;
  crc_after = refl;
  only = refl;
}
get_words-Reads (d ∷ ds) r rest hs h =
    let a = get_word-Reads r d (words_bytes ds ++ rest) hs.0 h in
    let b = get_words-Reads ds a.after rest hs.1 a.left in
    record {
      after = b.after;
      returns =
          ap
            (λ (o : Option (ℕ × Rcv)).
              o >>= λ (d, r1). get_words (length ds) r1 >>= λ (ds, r2). some (d ∷ ds, r2))
            a.returns
          ∙ ap (λ (o : Option (List ℕ × Rcv)). o >>= λ (ds, r2). some (d ∷ ds, r2)) b.returns;
      left = b.left;
      crc_after = b.crc_after ∙ ap (λ (t : ℕ). add_all t (words_bytes ds)) a.crc_after;
      only =
          b.only ∙ ap (λ (t : Rcv). record t { n_done = b.after.n_done; crc = b.after.crc }) a.only;
    }
