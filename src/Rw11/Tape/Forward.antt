-- ===== src/Rw11/Tape/Forward.antt =====
-- Spacing over records, forwards.
use w.Base.{ℕ, suc, ◌+◌, ◌≡◌, refl, sym, ap, subst, ◌∙◌}
use w.Base.{Bool, false, some, List, [], ◌∷◌, ◌++◌, length, All}
use w.Base.{length-append, append_assoc, append-nil, arith, ◌==◌, if_false}
use w.Base.Int.{pos}
use w.Rw11.Tape.Calls.{Files, Tape, Result, finish, tally, inc_pos_record}
use w.Rw11.Tape.Calls.{bytes_of, byte_padding, bad_tape}
use w.Rw11.Tape.Space.{pass_forw, forw_pass, forw_loop, space_forw}
use w.Rw11.Tape.Code
use w.Rw11.Tape.Stat
use w.Rw11.Tape.Format.{Record, Fits, tag, tag-lt, block, block_tail, blocks}
use w.Rw11.Tape.Format.{parse_meta-tag, byte_padding-filling, length-block}
use w.Rw11.Tape.Format.{length-block_tail}
use w.Rw11.Tape.Position.{Works, At, Goes, seek_forward_Goes}
use w.Rw11.Tape.Position.{check_size_forw_Goes}
use w.Rw11.Tape.Moves.{Ends, Passes, differs, not_eof, not_eom, read_metabeg-Goes}
use w.Rw11.Tape.Moves.{At-counted, At-tally, from_front}

module _ {File : Type 0} {fs : Files File} {open_at : List ℕ → ℕ → File} (sys : Works fs open_at)
    {pad trunc : Bool} where
  pass_forw-Goes :
      (r : Record) (pre post : List ℕ) (t : Tape File)
      → Fits r
      → At open_at pad trunc pre (block_tail pad r ++ post) t
      → Goes open_at tt pad trunc
          (pre ++ block_tail pad r)
          post
          (pass_forw fs (some (length r.data_bytes, r.parity_error)) t)
  unfolding pass_forw
  pass_forw-Goes r pre post t f a =
      let xs = block_tail pad r in
      let n : 4 + byte_padding (length r.data_bytes) t ≡ length xs =
        ap (◌+◌ 4) (byte_padding-filling pad t _ a.padding f.short)
        ∙ sym (length-block_tail pad r) in
      let sought = seek_forward_Goes sys pre xs post t a in
      record {
        tape = inc_pos_record (pos 1) sought.tape;
        returns = rw (n, check_size_forw_Goes sys pre xs post t a, sought.returns) refl;
        at = At-counted _ _ sought.tape (pos 1) sought.at;
      }

  pub before_end :
      (r : Record) (pre post : List ℕ) (t : Tape File)
      → At open_at pad trunc pre (block pad r ++ post) t
      → (t.position == t.size) ≡ false
  before_end r pre post t a = differs t.position t.size (
      omega (arith, a.position_is, a.size_is, length-append (block pad r) post, length-block pad r))

  forw_pass-Passes :
      (r : Record) (n : ℕ) (again : Tape File → Result File) (pre post : List ℕ) (t : Tape File)
      → Fits r
      → At open_at pad trunc pre (block pad r ++ post) t
      → Passes open_at pad trunc (pre ++ block pad r) post again (forw_pass fs n again t)
  unfolding forw_pass
  forw_pass-Passes r n again pre post t f a =
      let m = bytes_of (tag r) in
      let got =
        read_metabeg-Goes sys (tag r) pre (block_tail pad r ++ post) t (omega (arith, tag-lt r f))
          (from_front r pre post t a) in
      let passed = pass_forw-Goes r (pre ++ m) post got.tape f got.at in
      record {
        tape = passed.tape;
        returns =
            rw
              (
                before_end r pre post t a,
                got.returns,
                not_eof r f,
                not_eom r f,
                parse_meta-tag r f,
                passed.returns,
              )
              refl;
        at =
            subst (λ xs. At open_at pad trunc xs post passed.tape)
              (append_assoc pre m (block_tail pad r)) passed.at;
      }

  over_blocks :
      (r : Record) (rs : List Record) (pre post : List ℕ) (t : Tape File)
      → At open_at pad trunc pre (blocks pad (r ∷ rs) ++ post) t
      → At open_at pad trunc pre (block pad r ++ (blocks pad rs ++ post)) t
  over_blocks r rs pre post t =
      subst (λ xs. At open_at pad trunc pre xs t) (append_assoc (block pad r) (blocks pad rs) post)

  forw_loop-Ends :
      (rs : List Record) (n : ℕ) (pre post : List ℕ) (t : Tape File)
      → All Fits rs
      → At open_at pad trunc pre (blocks pad rs ++ post) t
      → Ends open_at Code.ok
          (n + length rs)
          []
          pad
          trunc
          (pre ++ blocks pad rs)
          post
          (forw_loop fs (length rs) n t)
  unfolding forw_loop
  forw_loop-Ends [] n pre post t fits a = record {
    tape = t;
    returns = ap (λ k. finish Code.ok k [] t) (omega arith);
    at = subst (λ xs. At open_at pad trunc xs post t) (sym (append-nil pre)) a;
  }
  forw_loop-Ends (r ∷ rs) n pre post t fits a =
      let passed =
        forw_pass-Passes r n (λ t1. forw_loop fs (length rs) (suc n) t1) pre (blocks pad rs ++ post)
          t fits.0 (over_blocks r rs pre post t a) in
      let rest = forw_loop-Ends rs (suc n) (pre ++ block pad r) post passed.tape fits.1 passed.at in
      record {
        tape = rest.tape;
        returns =
            passed.returns ∙ rest.returns ∙ ap (λ k. finish Code.ok k [] rest.tape) (omega arith);
        at =
            subst (λ xs. At open_at pad trunc xs post rest.tape)
              (append_assoc pre (block pad r) (blocks pad rs)) rest.at;
      }

  -- On a good tape in a file that works as documented, in front of a number of records of 1 to
  -- 65534 bytes, `SpaceForw` over that number passes them all, whatever their parity marks: it
  -- returns true, with the code for success and the count of the records, and leaves the tape
  -- behind the last of them.
  pub space_forw-blocks :
      (rs : List Record) (pre post : List ℕ) (t : Tape File)
      → All Fits rs
      → At open_at pad trunc pre (blocks pad rs ++ post) t
      → Ends open_at Code.ok
          (length rs)
          []
          pad
          trunc
          (pre ++ blocks pad rs)
          post
          (space_forw fs (length rs) t)
  unfolding space_forw
  space_forw-blocks rs pre post t fits a =
      let counted = At-tally Stat.n_spa_forw 1 pre _ t a in
      let run = forw_loop-Ends rs 0 pre post (tally Stat.n_spa_forw 1 t) fits counted in
      record {
        tape = run.tape;
        returns =
            if_false (bad_tape (tally Stat.n_spa_forw 1 t))
              (forw_loop fs (length rs) 0 (tally Stat.n_spa_forw 1 t)) counted.is_good
            ∙ run.returns
            ∙ ap (λ k. finish Code.ok k [] run.tape) (omega arith);
        at = run.at;
      }
