-- ===== src/Rw11/Tape/Moves.antt =====
-- What the operations on a tape leave: a position between two stretches of bytes.
use w.Base.{ℕ, ◌^◌, ◌<◌, ◌≡◌, refl, ap, subst, ◌∙◌}
use w.Base.{Bool, false, List, ◌++◌}
use w.Base.{append_assoc, arith, ◌==◌}
use w.Base.Int.{ℤ}
use w.Rw11.Tape.Calls.{Files, Tape, good, Result, finish, tally, inc_pos_record}
use w.Rw11.Tape.Calls.{bytes_of, meta_eof, meta_eom}
use w.Rw11.Tape.Read.{read_metabeg}
use w.Rw11.Tape.Format.{Record, Fits, tag, tag-lt, tag-pos, block, block_tail}
use w.Rw11.Tape.Format.{number-bytes}
use w.Rw11.Tape.Position.{Works, At, Goes, read_bytes-Goes}
use w.Rw11.Tape.Position.{check_size_forw_Goes}

module _ {File : Type 0} (open_at : List ℕ → ℕ → File) where
  -- An operation that returns true and leaves the tape between `pre` and `post`.
  pub record Ends (code n : ℕ) (ds : List ℕ) (pad trunc : Bool) (pre post : List ℕ)
      (res : Result File) : Type 0 where
    pub tape : Tape File
    pub returns : res ≡ finish code n ds tape
    pub at : At open_at pad trunc pre post tape

  -- A pass of a loop over one record, with what the rest of the loop returns.
  pub record Passes (pad trunc : Bool) (pre post : List ℕ) (again : Tape File → Result File)
      (res : Result File) : Type 0 where
    pub tape : Tape File
    pub returns : res ≡ again tape
    pub at : At open_at pad trunc pre post tape

pub At-same :
    {File : Type 0} {open_at : List ℕ → ℕ → File} {pad before trunc : Bool} {pre post : List ℕ}
    (t u : Tape File)
    → u.file ≡ t.file
    → u.size ≡ t.size
    → u.position ≡ t.position
    → u.bad ≡ t.bad
    → u.pad_odd ≡ t.pad_odd
    → At open_at pad before pre post t
    → u.trunc_pend ≡ trunc
    → At open_at pad trunc pre post u
At-same t u f s p b o a tr = record {
  file_at = f ∙ a.file_at;
  size_is = s ∙ a.size_is;
  position_is = p ∙ a.position_is;
  is_good = b ∙ a.is_good;
  padding = o ∙ a.padding;
  pending = tr;
  small = a.small;
}

pub differs : (a b : ℕ) → a < b → (a == b) ≡ false
differs a b h = ground arith

pub not_eof : (r : Record) → Fits r → (tag r == meta_eof) ≡ false
not_eof r f = ground (arith, tag-pos r f)

pub not_eom : (r : Record) → Fits r → (tag r == meta_eom) ≡ false
not_eom r f = ground (arith, tag-lt r f)

module _ {File : Type 0} {open_at : List ℕ → ℕ → File} {pad trunc : Bool} where
  pub At-counted :
      (pre post : List ℕ) (t : Tape File) (d : ℤ)
      → At open_at pad trunc pre post t
      → At open_at pad trunc pre post (inc_pos_record d t)
  unfolding inc_pos_record
  At-counted pre post t d a = At-same t _ refl refl refl refl refl a a.pending

  pub At-tally :
      (i n : ℕ) (pre post : List ℕ) (t : Tape File)
      → At open_at pad trunc pre post t
      → At open_at pad trunc pre post (tally i n t)
  unfolding tally
  At-tally i n pre post t a = At-same t _ refl refl refl refl refl a a.pending

  pub from_front :
      (r : Record) (pre post : List ℕ) (t : Tape File)
      → At open_at pad trunc pre (block pad r ++ post) t
      → At open_at pad trunc pre (bytes_of (tag r) ++ (block_tail pad r ++ post)) t
  from_front r pre post t =
      subst (λ xs. At open_at pad trunc pre xs t)
        (append_assoc (bytes_of (tag r)) (block_tail pad r) post)

module _ {File : Type 0} {fs : Files File} {open_at : List ℕ → ℕ → File} (sys : Works fs open_at)
    {pad trunc : Bool} where
  pub read_metabeg-Goes :
      (m : ℕ) (pre post : List ℕ) (t : Tape File)
      → m < 2 ^ 32
      → At open_at pad trunc pre (bytes_of m ++ post) t
      → Goes open_at m pad trunc (pre ++ bytes_of m) post (read_metabeg fs t)
  unfolding read_metabeg bytes_of
  read_metabeg-Goes m pre post t h a =
      let got = read_bytes-Goes sys pre (bytes_of m) post t a in
      record {
        tape = got.tape;
        returns =
            rw (check_size_forw_Goes sys pre (bytes_of m) post t a, got.returns)
              (ap (λ k. good k got.tape) (number-bytes m h));
        at = got.at;
      }
