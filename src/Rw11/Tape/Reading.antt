-- ===== src/Rw11/Tape/Reading.antt =====
-- Reading records from a tape.
use w.Base.{ℕ, ◌+◌, ◌^◌, ◌<◌, ◌≤◌, ◌≡◌, refl, sym, ap, subst, ◌∙◌}
use w.Base.{Bool, true, false, some, List, [], ◌++◌, length}
use w.Base.{ltb, le→leb, ==_refl, append_assoc, append-nil, arith, ◌==◌, if◌then◌else◌}
use w.Base.Int.{pos}
use w.Rw11.Tape.Calls.{Files, Tape, good, Result, tally, inc_pos_record}
use w.Rw11.Tape.Calls.{parse_meta, bytes_of, meta_eof, meta_eom, byte_padding}
use w.Rw11.Tape.Read.{read_metabeg}
use w.Rw11.Tape.Code
use w.Rw11.Tape.Stat
use w.Rw11.Tape.Format.{Record, Fits, tag, block, block_tail, filling}
use w.Rw11.Tape.Format.{parse_meta-tag, byte_padding-filling}
use w.Rw11.Tape.Format.{tag-word}
use w.Rw11.Tape.Position.{Works, At, Goes, read_bytes-Goes}
use w.Rw11.Tape.Position.{check_size_forw_Goes}
use w.Rw11.Tape.Moves.{Ends, not_eof, not_eom, read_metabeg-Goes}
use w.Rw11.Tape.Moves.{At-counted, At-tally, from_front}
use w.Rw11.Tape.Read.{
  skip_rest, read_metaend, read_data, read_parsed, read_tagged, read_record, deliver,
}
use w.Rw11.Tape.Forward.{before_end}

-- A record that is not filled up.
unfilled :
    (pad : Bool) (r : Record)
    → filling pad (length r.data_bytes) ≡ []
    → block_tail pad r ≡ r.data_bytes ++ bytes_of (tag r)
unfilled pad r e =
    ap (λ xs. r.data_bytes ++ xs ++ bytes_of (tag r)) e
    ∙ ap (λ xs. xs ++ bytes_of (tag r)) (append-nil r.data_bytes)

pub read_chain :
    {File : Type 0} (fs : Files File) (nbyt m rlen : ℕ) (perr : Bool) (t t1 : Tape File)
    (res : Result File)
    → ((tally Stat.n_read_rec 1 t).position == (tally Stat.n_read_rec 1 t).size) ≡ false
    → read_metabeg fs (tally Stat.n_read_rec 1 t) ≡ good m t1
    → (m == meta_eof) ≡ false
    → (m == meta_eom) ≡ false
    → parse_meta m ≡ some (rlen, perr)
    → read_data fs nbyt m rlen perr t1 ≡ res
    → (tally Stat.n_read_rec 1 t).bad ≡ false
    → read_record fs nbyt t ≡ res
unfolding read_record read_tagged read_parsed
read_chain fs nbyt m rlen perr t t1 res e0 e1 e2 e3 e4 e5 g = rw (e0, e1, e2, e3, e4, e5, g) refl

module _ {File : Type 0} {open_at : List ℕ → ℕ → File} {pad trunc : Bool} where
  At-delivered :
      (r : Record) (pre post : List ℕ) (t : Tape File)
      → At open_at pad trunc pre post t
      → Ends open_at
          (if r.parity_error then Code.bad_parity else Code.ok)
          (length r.data_bytes)
          r.data_bytes
          pad
          trunc
          pre
          post
          (deliver (length r.data_bytes) r.parity_error (length r.data_bytes) r.data_bytes t)
  unfolding deliver
  At-delivered r pre post t a =
      let n = length r.data_bytes in
      let t1 = inc_pos_record (pos 1) t in
      let t2 = if r.parity_error then tally Stat.n_read_perr 1 t1 else t1 in
      let all_read : ltb n n ≡ false = ground arith in
      record {
        tape = tally Stat.n_read_byt n t2;
        returns = rw all_read refl;
        at = At-tally Stat.n_read_byt n pre post t2 (marked r.parity_error);
      }
    where
      marked :
          (b : Bool)
          → At open_at pad trunc pre post (
              if b
              then tally Stat.n_read_perr 1 (inc_pos_record (pos 1) t)
              else inc_pos_record (pos 1) t)
      marked true = At-tally Stat.n_read_perr 1 pre post _ (At-counted pre post t (pos 1) a)
      marked false = At-counted pre post t (pos 1) a

module _ {File : Type 0} {fs : Files File} {open_at : List ℕ → ℕ → File} (sys : Works fs open_at)
    {pad trunc : Bool} where
  pub read_metaend-Goes :
      (m : ℕ) (pre post : List ℕ) (t : Tape File)
      → m < 2 ^ 32
      → At open_at pad trunc pre (bytes_of m ++ post) t
      → Goes open_at m pad trunc (pre ++ bytes_of m) post (read_metaend fs t)
  unfolding read_metaend read_metabeg
  read_metaend-Goes m pre post t h a = read_metabeg-Goes sys m pre post t h a

  read_data-Ends :
      (r : Record) (nbyt : ℕ) (pre post : List ℕ) (t : Tape File)
      → Fits r
      → length r.data_bytes ≤ nbyt
      → filling pad (length r.data_bytes) ≡ []
      → At open_at pad trunc pre (r.data_bytes ++ (bytes_of (tag r) ++ post)) t
      → Ends open_at
          (if r.parity_error then Code.bad_parity else Code.ok)
          (length r.data_bytes)
          r.data_bytes
          pad
          trunc
          (pre ++ r.data_bytes ++ bytes_of (tag r))
          post
          (read_data fs nbyt (tag r) (length r.data_bytes) r.parity_error t)
  unfolding read_data skip_rest
  read_data-Ends r nbyt pre post t f room even a =
      let n = length r.data_bytes in
      let padded : byte_padding n t ≡ n =
        byte_padding-filling pad t n a.padding f.short
        ∙ (ap (λ xs. n + length xs) even ∙ omega arith) in
      let got = read_bytes-Goes sys pre r.data_bytes (bytes_of (tag r) ++ post) t a in
      let checked = check_size_forw_Goes sys pre r.data_bytes (bytes_of (tag r) ++ post) t a in
      let ended =
        read_metaend-Goes (tag r) (pre ++ r.data_bytes) post got.tape (tag-word r f) got.at in
      let out = At-delivered r (pre ++ r.data_bytes ++ bytes_of (tag r)) post ended.tape ended.at in
      let all_read : ltb n n ≡ false = ground arith in
      record {
        tape = out.tape;
        returns =
            rw
              (
                padded,
                checked,
                le→leb n nbyt room,
                got.returns,
                all_read,
                ended.returns,
                ==_refl (tag r),
              )
              out.returns;
        at = out.at;
      }

  -- `ReadRecord` on a good tape in a file that works as documented, in front of a record of 1 to
  -- 65534 bytes that fits into the buffer and is not filled up: it returns true with all bytes of
  -- the record and their count, tells a record that is marked with a parity error by its code, and
  -- leaves the tape behind the record.
  pub read_record-block :
      (r : Record) (nbyt : ℕ) (pre post : List ℕ) (t : Tape File)
      → Fits r
      → length r.data_bytes ≤ nbyt
      → filling pad (length r.data_bytes) ≡ []
      → At open_at pad trunc pre (block pad r ++ post) t
      → Ends open_at
          (if r.parity_error then Code.bad_parity else Code.ok)
          (length r.data_bytes)
          r.data_bytes
          pad
          trunc
          (pre ++ block pad r)
          post
          (read_record fs nbyt t)
  read_record-block r nbyt pre post t f room even a =
      let m = bytes_of (tag r) in
      let t1 = tally Stat.n_read_rec 1 t in
      let a1 = At-tally Stat.n_read_rec 1 pre (block pad r ++ post) t a in
      let got =
        read_metabeg-Goes sys (tag r) pre (block_tail pad r ++ post) t1 (tag-word r f)
          (from_front r pre post t1 a1) in
      let front = ap (λ xs. xs ++ post) (unfilled pad r even) ∙ append_assoc r.data_bytes m post in
      let out =
        read_data-Ends r nbyt (pre ++ m) post got.tape f room even
          (subst (λ xs. At open_at pad trunc (pre ++ m) xs got.tape) front got.at) in
      let back : pre ++ m ++ r.data_bytes ++ m ≡ pre ++ block pad r =
        append_assoc (pre ++ m) r.data_bytes m
        ∙ append_assoc pre m (r.data_bytes ++ m)
        ∙ ap (λ xs. pre ++ (m ++ xs)) (sym (unfilled pad r even)) in
      record {
        tape = out.tape;
        returns =
            read_chain fs nbyt (tag r) (length r.data_bytes) r.parity_error t got.tape _
              (before_end sys r pre post t1 a1) got.returns (not_eof r f) (not_eom r f)
              (parse_meta-tag r f) out.returns a1.is_good;
        at = subst (λ xs. At open_at pad trunc xs post out.tape) back out.at;
      }
