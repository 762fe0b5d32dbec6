-- ===== src/Rw11/Tape/Records.antt =====
-- Writing and reading records on a tape.
use w.Base.{ℕ, zero, suc, ◌+◌, ◌-◌, ◌^◌, ◌<◌, ◌≤◌, ◌≡◌, refl, sym, ap, subst, ◌∙◌}
use w.Base.{Bool, true, false, List, [], ◌∷◌, ◌++◌, length}
use w.Base.{drop, ◌&&◌, ◌%◌, length-append, append_assoc, append-nil, arith, ◌==◌, if◌then◌else◌}
use w.Base.Int.{pos}
use w.Rw11.Tape.Calls.{Files, Tape, Attempt, good, finish, tally, inc_pos_record}
use w.Rw11.Tape.Calls.{write_bytes, bytes_of, meta_eom}
use w.Rw11.Tape.Code
use w.Rw11.Tape.Stat
use w.Rw11.Tape.Format.{Record, Fits, tag, block, filling}
use w.Rw11.Tape.Format.{length-bytes_of, length-filling_le}
use w.Rw11.Tape.Position.{Works, At, Goes}
use w.Rw11.Tape.Moves.{Ends, At-same}
use w.Rw11.Tape.Moves.{At-counted}
use w.Rw11.Tape.Write.{write_padding, write_record}
use w.Rw11.Tape.Writing.{behind, write_on, write_back}

-- The record that `WriteRecord` makes of some bytes.
abbrev pub plain : List ℕ → Record
plain ds = record { data_bytes = ds; parity_error = false }

drop-short {ℓ} : {A : Type ℓ} (n : ℕ) (xs : List A) → length xs ≤ n → drop n xs ≡ []
drop-short zero [] h = refl
drop-short zero (x ∷ xs) h = elim h [ ]
drop-short (suc n) [] h = refl
drop-short (suc n) (x ∷ xs) h = drop-short n xs (omega arith)

joined : (pre m ds fill : List ℕ) → pre ++ m ++ ds ++ fill ++ m ≡ pre ++ (m ++ (ds ++ fill ++ m))
joined pre m ds fill =
    ap (λ xs. xs ++ m) (append_assoc (pre ++ m) ds fill)
    ∙ append_assoc (pre ++ m) (ds ++ fill) m
    ∙ append_assoc pre m (ds ++ fill ++ m)

opened : {File : Type 0} → ℕ → Tape File → Tape File
opened n t = record (tally Stat.n_write_byt n (tally Stat.n_write_rec 1 t)) { eom = false }

module _ {File : Type 0} (fs : Files File) where
  write_chain :
      (ds : List ℕ) (t t1 t2 t3 t4 t5 : Tape File)
      → length ds < 2 ^ 16 - 1
      → t.bad ≡ false
      → write_bytes fs (bytes_of (tag (plain ds))) false (opened (length ds) t) ≡ good tt t1
      → write_bytes fs ds false t1 ≡ good tt t2
      → write_padding fs (length ds) t2 ≡ good tt t3
      → write_bytes fs (bytes_of (tag (plain ds))) false t3 ≡ good tt t4
      → write_bytes fs (bytes_of meta_eom) true t4 ≡ good tt t5
      → write_record fs ds t ≡ finish Code.ok 0 [] (inc_pos_record (pos 1) t5)
  unfolding write_record opened tally
  write_chain ds t t1 t2 t3 t4 t5 h g e1 e2 e3 e4 e5 =
      let e : length ds % 2 ^ 32 ≡ tag (plain ds) = omega (arith, h) in
      rw (e, e1, e2, e3, e4, e5, g) refl

module _ {File : Type 0} {fs : Files File} {open_at : List ℕ → ℕ → File} (sys : Works fs open_at)
    {pad : Bool} where
  At-opened :
      (trunc : Bool) (n : ℕ) (pre post : List ℕ) (t : Tape File)
      → At open_at pad trunc pre post t
      → At open_at pad trunc pre post (opened n t)
  unfolding opened tally
  At-opened trunc n pre post t a = At-same t _ refl refl refl refl refl a a.pending

  -- A write behind which nothing is left of the old contents.
  write_last :
      (trunc : Bool) (ds pre post : List ℕ) (t : Tape File)
      → length (behind trunc post) ≤ length ds
      → length pre + length ds < 2 ^ 63
      → At open_at pad trunc pre post t
      → Goes open_at tt pad false (pre ++ ds) [] (write_bytes fs ds false t)
  write_last trunc ds pre post t room h a =
      subst (λ xs. Goes open_at tt pad false (pre ++ ds) xs (write_bytes fs ds false t))
        (drop-short (length ds) (behind trunc post) room) (write_on sys trunc ds pre post t h a)

  write_end :
      (ds pre : List ℕ) (t : Tape File)
      → length pre + length ds < 2 ^ 63
      → At open_at pad false pre [] t
      → Goes open_at tt pad false (pre ++ ds) [] (write_bytes fs ds false t)
  write_end ds pre t h a = write_last false ds pre [] t (omega arith) h a

  write_padding-Goes :
      (n : ℕ) (pre : List ℕ) (t : Tape File)
      → length pre + 1 < 2 ^ 63
      → At open_at pad false pre [] t
      → Goes open_at tt pad false (pre ++ filling pad n) [] (write_padding fs n t)
  unfolding write_padding
  write_padding-Goes n pre t h a =
      subst (λ b. Goes open_at tt pad false (pre ++ filling pad n) [] (padded b)) (sym a.padding)
        (by_test (pad && (n % 2 == 1)))
    where
      padded : Bool → Attempt File Unit
      padded b = if b && (n % 2 == 1) then write_bytes fs (0 ∷ []) false t else good tt t

      by_test :
          (b : Bool)
          → Goes open_at tt pad false
              (pre ++ (if b then 0 ∷ [] else []))
              []
              (if b then write_bytes fs (0 ∷ []) false t else good tt t)
      by_test true = write_end (0 ∷ []) pre t h a
      by_test false = record {
        tape = t;
        returns = refl;
        at = subst (λ xs. At open_at pad false xs [] t) (sym (append-nil pre)) a;
      }

  -- The end of the medium, behind the position.
  mark_end :
      (pre : List ℕ) (t : Tape File)
      → length pre + 4 < 2 ^ 63
      → At open_at pad false pre [] t
      → Goes open_at tt pad false pre
          (bytes_of meta_eom)
          (write_bytes fs (bytes_of meta_eom) true t)
  unfolding bytes_of
  mark_end pre t h a = write_back sys false (bytes_of meta_eom) pre [] t h a

  -- `WriteRecord` puts a record of 1 to 65534 bytes, in the format, onto a good tape in a file that
  -- works as documented, when what is behind the position is about to be cut off or is no more than
  -- the mark of the end, and the position is at least 2^17 below 2^63. It returns true, and leaves
  -- the tape behind the record, with nothing but the end mark after it.
  pub write_record-block :
      (trunc : Bool) (ds pre post : List ℕ) (t : Tape File)
      → Fits (plain ds)
      → length (behind trunc post) ≤ 4
      → length pre + 2 ^ 17 < 2 ^ 63
      → At open_at pad trunc pre post t
      → Ends open_at Code.ok 0 [] pad false
          (pre ++ block pad (plain ds))
          (bytes_of meta_eom)
          (write_record fs ds t)
  write_record-block trunc ds pre post t f short room a =
      let n = length ds in
      let m = bytes_of (tag (plain ds)) in
      let lm = length-bytes_of (tag (plain ds)) in
      let l1 = length-append pre m in
      let l2 = length-append (pre ++ m) ds in
      let l3 = length-append (pre ++ m ++ ds) (filling pad n) in
      let l4 = length-append (pre ++ m ++ ds ++ filling pad n) m in
      let lf = length-filling_le pad n in
      let w1 =
        write_last trunc m pre post (opened n t) (omega (arith, lm)) (omega (arith, lm))
          (At-opened trunc n pre post t a) in
      let w2 = write_end ds (pre ++ m) w1.tape (omega (arith, f.short, lm, l1)) w1.at in
      let w3 =
        write_padding-Goes n (pre ++ m ++ ds) w2.tape (omega (arith, f.short, lm, l1, l2)) w2.at in
      let w4 =
        write_end m (pre ++ m ++ ds ++ filling pad n) w3.tape
          (omega (arith, f.short, lm, l1, l2, l3, lf)) w3.at in
      let w5 =
        mark_end (pre ++ m ++ ds ++ filling pad n ++ m) w4.tape
          (omega (arith, f.short, lm, l1, l2, l3, l4, lf)) w4.at in
      record {
        tape = inc_pos_record (pos 1) w5.tape;
        returns =
            write_chain fs ds t w1.tape w2.tape w3.tape w4.tape w5.tape f.short a.is_good w1.returns
              w2.returns w3.returns w4.returns w5.returns;
        at =
            subst
              (λ xs. At open_at pad false xs (bytes_of meta_eom) (inc_pos_record (pos 1) w5.tape))
              (joined pre m ds (filling pad n)) (At-counted _ _ w5.tape (pos 1) w5.at);
      }
