-- ===== src/Rw11/Tape/Mismatch.antt =====
-- `ReadRecord` of Rw11VirtTapeTap.cpp on a record whose two length words differ.
use w.Base.{ℕ, ◌+◌, ◌^◌, ◌<◌, ◌≤◌, ◌≡◌, ◌≢◌, refl, sym, ap, subst, ◌∙◌}
use w.Base.{Bool, true, false, List, [], ◌++◌, length, length-append}
use w.Base.{ltb, le→leb, append_assoc, arith, ◌==◌, if_false}
use w.Rw11.Tape.Calls.{Files, Tape, Result, tally, set_bad, bytes_of, byte_padding}
use w.Rw11.Tape.Code
use w.Rw11.Tape.Stat
use w.Rw11.Tape.Format.{Record, Fits, tag, filling, tag-word, length-bytes_of}
use w.Rw11.Tape.Format.{parse_meta-tag, byte_padding-filling}
use w.Rw11.Tape.Position.{Works, At, read_bytes-Goes, check_size_forw_Goes}
use w.Rw11.Tape.Moves.{Ends, not_eof, not_eom, read_metabeg-Goes, At-tally}
use w.Rw11.Tape.Read.{skip_rest, read_data, read_record, rewind}
use w.Rw11.Tape.Reading.{read_chain, read_metaend-Goes}
use w.Rw11.Tape.Recovery.{rewind-At}

-- The first length word, the data and a second word.
abbrev pub mismatched : Record → ℕ → List ℕ
mismatched r m = bytes_of (tag r) ++ (r.data_bytes ++ bytes_of m)

-- A call that fails with a format error, on a tape with the bytes `b`, from which `Rewind` recovers.
pub record Spoils {File : Type 0} (fs : Files File) (open_at : List ℕ → ℕ → File) (pad : Bool)
    (b : List ℕ) (res : Result File) : Type 0 where
  pub failed : res.success ≡ false
  pub code : res.opcode ≡ Code.bad_format
  pub count : res.n_done ≡ 0
  pub marked : res.tape.bad ≡ true
  pub recovers : Ends open_at Code.ok 0 [] pad true [] b (rewind fs res.tape)

differ : (a b : ℕ) → a ≢ b → (a == b) ≡ false
differ a b h = ground arith

front :
    (r : Record) (m : ℕ) (post : List ℕ)
    → mismatched r m ++ post ≡ bytes_of (tag r) ++ (r.data_bytes ++ (bytes_of m ++ post))
front r m post =
    append_assoc (bytes_of (tag r)) (r.data_bytes ++ bytes_of m) post
    ∙ ap (λ xs. bytes_of (tag r) ++ xs) (append_assoc r.data_bytes (bytes_of m) post)

module _ {File : Type 0} {fs : Files File} {open_at : List ℕ → ℕ → File} (sys : Works fs open_at)
    {pad trunc : Bool} where
  set_bad-Spoils :
      (ds pre post : List ℕ) (t : Tape File)
      → At open_at pad trunc pre post t
      → Spoils fs open_at pad (pre ++ post) (set_bad 0 ds t)
  unfolding set_bad
  set_bad-Spoils ds pre post t a = record {
    failed = refl;
    code = refl;
    count = refl;
    marked = refl;
    recovers =
        subst
          (λ p.
            Ends open_at Code.ok 0 [] p true [] (pre ++ post) (rewind fs (record t { bad = true })))
          a.padding
          (rewind-At sys (pre ++ post) (length pre) (record t { bad = true }) a.file_at
            (a.size_is ∙ sym (length-append pre post))
            (omega (arith, a.small, length-append pre post)));
  }

  read_data-Spoils :
      (r : Record) (nbyt m : ℕ) (pre post : List ℕ) (t : Tape File)
      → Fits r
      → length r.data_bytes ≤ nbyt
      → filling pad (length r.data_bytes) ≡ []
      → m < 2 ^ 32
      → tag r ≢ m
      → At open_at pad trunc pre (r.data_bytes ++ (bytes_of m ++ post)) t
      → Spoils fs open_at pad
          (pre ++ r.data_bytes ++ bytes_of m ++ post)
          (read_data fs nbyt (tag r) (length r.data_bytes) r.parity_error t)
  unfolding read_data skip_rest
  read_data-Spoils r nbyt m pre post t f room even word ne a =
      let n = length r.data_bytes in
      let padded : byte_padding n t ≡ n =
        byte_padding-filling pad t n a.padding f.short
        ∙ (ap (λ xs. n + length xs) even ∙ omega arith) in
      let got = read_bytes-Goes sys pre r.data_bytes (bytes_of m ++ post) t a in
      let checked = check_size_forw_Goes sys pre r.data_bytes (bytes_of m ++ post) t a in
      let ended = read_metaend-Goes sys m (pre ++ r.data_bytes) post got.tape word got.at in
      let all_read : ltb n n ≡ false = ground arith in
      subst (Spoils fs open_at pad (pre ++ r.data_bytes ++ bytes_of m ++ post))
        (sym (
          rw (padded, checked, le→leb n nbyt room, got.returns, all_read, ended.returns)
            (if_false _ _ (differ (tag r) m ne))))
        (set_bad-Spoils r.data_bytes (pre ++ r.data_bytes ++ bytes_of m) post ended.tape ended.at)

  before_size :
      (w : ℕ) (pre rest : List ℕ) (t : Tape File)
      → At open_at pad trunc pre (bytes_of w ++ rest) t
      → (t.position == t.size) ≡ false
  before_size w pre rest t a =
      differs t.position t.size (
        omega (arith, a.position_is, a.size_is, length-append (bytes_of w) rest, length-bytes_of w))
    where
      differs : (p s : ℕ) → p < s → (p == s) ≡ false
      differs p s h = ground arith

  -- `ReadRecord` on a good tape in a file that works as documented, in front of a record that fits
  -- into the buffer and is not filled up, but whose second length word is another number than the
  -- first: it returns false with the code for a bad format and a count of 0, and marks the tape as
  -- bad. `Rewind` then returns true and makes the tape good again, at the start of all its bytes,
  -- which are as they were.
  pub read_record-Spoils :
      (r : Record) (nbyt m : ℕ) (pre post : List ℕ) (t : Tape File)
      → Fits r
      → length r.data_bytes ≤ nbyt
      → filling pad (length r.data_bytes) ≡ []
      → m < 2 ^ 32
      → tag r ≢ m
      → At open_at pad trunc pre (mismatched r m ++ post) t
      → Spoils fs open_at pad (pre ++ (mismatched r m ++ post)) (read_record fs nbyt t)
  read_record-Spoils r nbyt m pre post t f room even word ne a =
      let w = bytes_of (tag r) in
      let t1 = tally Stat.n_read_rec 1 t in
      let rest = r.data_bytes ++ (bytes_of m ++ post) in
      let a1 : At open_at pad trunc pre (w ++ rest) t1 =
        subst (λ xs. At open_at pad trunc pre xs t1) (front r m post)
          (At-tally Stat.n_read_rec 1 pre (mismatched r m ++ post) t a) in
      let got = read_metabeg-Goes sys (tag r) pre rest t1 (tag-word r f) a1 in
      let out = read_data-Spoils r nbyt m (pre ++ w) post got.tape f room even word ne got.at in
      let same : pre ++ w ++ r.data_bytes ++ bytes_of m ++ post ≡ pre ++ (mismatched r m ++ post) =
        append_assoc (pre ++ w ++ r.data_bytes) (bytes_of m) post
        ∙ append_assoc (pre ++ w) r.data_bytes (bytes_of m ++ post)
        ∙ append_assoc pre w rest
        ∙ ap (λ xs. pre ++ xs) (sym (front r m post)) in
      subst (λ b. Spoils fs open_at pad b (read_record fs nbyt t)) same
        (subst (Spoils fs open_at pad (pre ++ w ++ r.data_bytes ++ bytes_of m ++ post))
          (sym (
            read_chain fs nbyt (tag r) (length r.data_bytes) r.parity_error t got.tape _
              (before_size (tag r) pre rest t1 a1) got.returns (not_eof r f) (not_eom r f)
              (parse_meta-tag r f) refl a1.is_good))
          out)
