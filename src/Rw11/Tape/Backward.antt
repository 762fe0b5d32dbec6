-- ===== src/Rw11/Tape/Backward.antt =====
-- Spacing over records, backwards.
use w.Base.{ℕ, suc, ◌+◌, ◌^◌, ◌<◌, ◌≡◌, refl, sym, ap, subst, ◌∙◌}
use w.Base.{Bool, true, false, some, List, [], ◌∷◌, ◌++◌, length, All}
use w.Base.{length-append, append_assoc, append-nil, arith, ◌==◌, if_false}
use w.Base.Int.{negsuc}
use w.Rw11.Tape.Calls.{Files, Tape, good, Result, finish, tally, inc_pos_record}
use w.Rw11.Tape.Calls.{bytes_of, byte_padding, bad_tape}
use w.Rw11.Tape.Space.{read_back, pass_back, back_pass, back_loop, space_back}
use w.Rw11.Tape.Code
use w.Rw11.Tape.Stat
use w.Rw11.Tape.Format.{Record, Fits, tag, tag-lt, block, blocks, filling}
use w.Rw11.Tape.Format.{number-bytes, parse_meta-tag, byte_padding-filling, length-block}
use w.Rw11.Tape.Position.{Works, At, Goes, seek_backward_Goes, read_bytes-Goes}
use w.Rw11.Tape.Position.{check_size_back_Goes}
use w.Rw11.Tape.Moves.{Ends, Passes, At-same, not_eof, not_eom}
use w.Rw11.Tape.Moves.{At-counted}

-- A record with its last word apart.
block_end :
    (pad : Bool) (r : Record) (pre : List ℕ)
    → pre ++ block pad r
      ≡ pre
        ++ (bytes_of (tag r) ++ (r.data_bytes ++ filling pad (length r.data_bytes)))
        ++ bytes_of (tag r)
block_end pad r pre =
    let inner = r.data_bytes ++ filling pad (length r.data_bytes) in
    ap (◌++◌ pre) (sym (append_assoc (bytes_of (tag r)) inner (bytes_of (tag r))))
    ∙ sym (append_assoc pre (bytes_of (tag r) ++ inner) (bytes_of (tag r)))

module _ {File : Type 0} {fs : Files File} {open_at : List ℕ → ℕ → File} (sys : Works fs open_at)
    {pad trunc : Bool} where
  read_back-Goes :
      (m : ℕ) (pre post : List ℕ) (t : Tape File)
      → m < 2 ^ 32
      → At open_at pad trunc (pre ++ bytes_of m) post t
      → Goes open_at m pad trunc (pre ++ bytes_of m) post (read_back fs t)
  unfolding read_back bytes_of
  read_back-Goes m pre post t h a =
      let sought = seek_backward_Goes sys pre (bytes_of m) post t a in
      let got = read_bytes-Goes sys pre (bytes_of m) post sought.tape sought.at in
      record {
        tape = got.tape;
        returns =
            rw (check_size_back_Goes sys pre (bytes_of m) post t a, sought.returns, got.returns)
              (ap (λ k. good k got.tape) (number-bytes m h));
        at = got.at;
      }

  pass_back-Goes :
      (r : Record) (pre post : List ℕ) (t : Tape File)
      → Fits r
      → At open_at pad trunc (pre ++ block pad r) post t
      → Goes open_at tt pad trunc pre
          (block pad r ++ post)
          (pass_back fs (some (length r.data_bytes, r.parity_error)) t)
  unfolding pass_back
  pass_back-Goes r pre post t f a =
      let xs = block pad r in
      let n : 8 + byte_padding (length r.data_bytes) t ≡ length xs =
        ap (◌+◌ 8) (byte_padding-filling pad t _ a.padding f.short) ∙ sym (length-block pad r) in
      let sought = seek_backward_Goes sys pre xs post t a in
      record {
        tape = inc_pos_record (negsuc 0) sought.tape;
        returns = rw (n, check_size_back_Goes sys pre xs post t a, sought.returns) refl;
        at = At-counted _ _ sought.tape (negsuc 0) sought.at;
      }

  behind_start :
      (r : Record) (pre post : List ℕ) (t : Tape File)
      → At open_at pad trunc (pre ++ block pad r) post t
      → (t.position == 0) ≡ false
  behind_start r pre post t a =
      ground (arith, a.position_is, length-append pre (block pad r), length-block pad r)

  last_word :
      (r : Record) (pre post : List ℕ) (t : Tape File)
      → Fits r
      → At open_at pad trunc (pre ++ block pad r) post t
      → Goes open_at (tag r) pad trunc (pre ++ block pad r) post (read_back fs t)
  last_word r pre post t f a =
      let inner =
        pre ++ (bytes_of (tag r) ++ (r.data_bytes ++ filling pad (length r.data_bytes))) in
      subst (λ xs. Goes open_at (tag r) pad trunc xs post (read_back fs t))
        (sym (block_end pad r pre))
        (read_back-Goes (tag r) inner post t (omega (arith, tag-lt r f))
          (subst (λ xs. At open_at pad trunc xs post t) (block_end pad r pre) a))

  back_pass-Passes :
      (r : Record) (n : ℕ) (again : Tape File → Result File) (pre post : List ℕ) (t : Tape File)
      → Fits r
      → At open_at pad trunc (pre ++ block pad r) post t
      → Passes open_at pad trunc pre (block pad r ++ post) again (back_pass fs n again t)
  unfolding back_pass
  back_pass-Passes r n again pre post t f a =
      let got = last_word r pre post t f a in
      let passed = pass_back-Goes r pre post got.tape f got.at in
      record {
        tape = passed.tape;
        returns =
            rw
              (
                behind_start r pre post t a,
                got.returns,
                not_eof r f,
                not_eom r f,
                parse_meta-tag r f,
                passed.returns,
              )
              refl;
        at = passed.at;
      }

  one_more :
      (r : Record) (k n : ℕ) (pre post : List ℕ) (t : Tape File)
      → Fits r
      → At open_at pad trunc (pre ++ block pad r) post t
      → Passes open_at pad trunc pre
          (block pad r ++ post)
          (back_loop fs k (suc n))
          (back_loop fs (suc k) n t)
  unfolding back_loop
  one_more r k n pre post t f a =
      back_pass-Passes r n (λ t1. back_loop fs k (suc n) t1) pre post t f a

  back_loop-Passes :
      (rs : List Record) (k n : ℕ) (pre post : List ℕ) (t : Tape File)
      → All Fits rs
      → At open_at pad trunc (pre ++ blocks pad rs) post t
      → Passes open_at pad trunc pre
          (blocks pad rs ++ post)
          (back_loop fs k (n + length rs))
          (back_loop fs (k + length rs) n t)
  back_loop-Passes [] k n pre post t fits a = record {
    tape = t;
    returns =
        ap (λ j. back_loop fs j n t) (omega arith) ∙ ap (λ j. back_loop fs k j t) (omega arith);
    at = subst (λ xs. At open_at pad trunc xs post t) (append-nil pre) a;
  }
  back_loop-Passes (r ∷ rs) k n pre post t fits a =
      let a1 =
        subst (λ xs. At open_at pad trunc xs post t)
          (sym (append_assoc pre (block pad r) (blocks pad rs))) a in
      let rest = back_loop-Passes rs (suc k) n (pre ++ block pad r) post t fits.1 a1 in
      let passed =
        one_more r k (n + length rs) pre (blocks pad rs ++ post) rest.tape fits.0 rest.at in
      record {
        tape = passed.tape;
        returns =
            ap (λ j. back_loop fs j n t) (omega arith)
            ∙ rest.returns
            ∙ passed.returns
            ∙ ap (λ j. back_loop fs k j passed.tape) (omega arith);
        at =
            subst (λ xs. At open_at pad trunc pre xs passed.tape)
              (sym (append_assoc (block pad r) (blocks pad rs) post)) passed.at;
      }

turned : {File : Type 0} → Tape File → Tape File
turned t = record (tally Stat.n_spa_back 1 t) { eom = false; trunc_pend = true }

module _ {File : Type 0} {open_at : List ℕ → ℕ → File} {pad trunc : Bool} where
  At-turned :
      (pre post : List ℕ) (t : Tape File)
      → At open_at pad trunc pre post t
      → At open_at pad true pre post (turned t)
  unfolding tally turned
  At-turned pre post t a = At-same t _ refl refl refl refl refl a refl

-- On a good tape in a file that works as documented, behind a number of records of 1 to 65534
-- bytes, `SpaceBack` over that number passes them all, whatever their parity marks: it returns
-- true, with the code for success and the count of the records, leaves the tape in front of the
-- first of them, and the next write will cut the file.
pub space_back-blocks :
    {File : Type 0} {fs : Files File} {open_at : List ℕ → ℕ → File} (sys : Works fs open_at)
    {pad trunc : Bool} (rs : List Record) (pre post : List ℕ) (t : Tape File)
    → All Fits rs
    → At open_at pad trunc (pre ++ blocks pad rs) post t
    → Ends open_at Code.ok
        (length rs)
        []
        pad
        true
        pre
        (blocks pad rs ++ post)
        (space_back fs (length rs) t)
unfolding space_back turned back_loop tally
space_back-blocks {fs = fs} sys rs pre post t fits a =
    let run = back_loop-Passes sys rs 0 0 pre post (turned t) fits (At-turned _ post t a) in
    record {
      tape = run.tape;
      returns =
          if_false (bad_tape (tally Stat.n_spa_back 1 t)) (back_loop fs (length rs) 0 (turned t))
            a.is_good
          ∙ ap (λ j. back_loop fs j 0 (turned t)) (omega arith)
          ∙ run.returns
          ∙ ap (λ k. finish Code.ok k [] run.tape) (omega arith);
      at = run.at;
    }
