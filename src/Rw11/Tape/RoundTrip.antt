-- ===== src/Rw11/Tape/RoundTrip.antt =====
-- Records that are written, spaced over backwards, and read again.
use w.Base.{ℕ, zero, suc, ◌+◌, ◌^◌, ◌<◌, ◌≤◌, ◌≡◌, refl, sym, ap, subst, ◌∙◌}
use w.Base.{Bool, true, false, List, [], ◌∷◌, ◌++◌, length, All}
use w.Base.{map, ◌*◌, length-append, append_assoc, append-nil, arith}
use w.Rw11.Tape.Calls.{Files, Tape, Result, finish}
use w.Rw11.Tape.Calls.{bytes_of, meta_eom}
use w.Rw11.Tape.Space.{space_back}
use w.Rw11.Tape.Code
use w.Rw11.Tape.Format.{Fits, block, blocks, filling}
use w.Rw11.Tape.Format.{length-block}
use w.Rw11.Tape.Format.{length-bytes_of, length-filling_le}
use w.Rw11.Tape.Position.{Works, At}
use w.Rw11.Tape.Read.{read_record}
use w.Rw11.Tape.Write.{write_record}
use w.Rw11.Tape.Writing.{behind}
use w.Rw11.Tape.Records.{plain, write_record-block}
use w.Rw11.Tape.Reading.{read_record-block}
use w.Rw11.Tape.Backward.{space_back-blocks}

-- The tape after a number of `WriteRecord` calls.
abbrev pub write_all : {File : Type 0} → Files File → List (List ℕ) → Tape File → Tape File
write_all fs [] t = t
write_all fs (ds ∷ dss) t = write_all fs dss (write_record fs ds t).tape

-- The data that `k` calls of `ReadRecord` return, with a buffer of `nbyt` bytes.
abbrev pub read_all : {File : Type 0} → Files File → ℕ → ℕ → Tape File → List (List ℕ)
read_all fs nbyt zero t = []
read_all fs nbyt (suc k) t =
    (read_record fs nbyt t).data_read ∷ read_all fs nbyt k (read_record fs nbyt t).tape

-- A record that a buffer of `nbyt` bytes takes as it is.
pub record Readable (pad : Bool) (nbyt : ℕ) (ds : List ℕ) : Type 0 where
  pub fits : Fits (plain ds)
  pub room : length ds ≤ nbyt
  pub even : filling pad (length ds) ≡ []

All-fit :
    (pad : Bool) (nbyt : ℕ) (dss : List (List ℕ))
    → All (Readable pad nbyt) dss
    → All Fits (map plain dss)
All-fit pad nbyt [] h = tt
All-fit pad nbyt (ds ∷ dss) h = (h.0.fits, All-fit pad nbyt dss h.1)

length-map-plain : (dss : List (List ℕ)) → length (map plain dss) ≡ length dss
length-map-plain [] = refl
length-map-plain (ds ∷ dss) = ap suc (length-map-plain dss)

block-size : (pad : Bool) (ds : List ℕ) → Fits (plain ds) → length (block pad (plain ds)) ≤ 2 ^ 17
block-size pad ds f =
    omega (arith, f.short, length-block pad (plain ds), length-filling_le pad (length ds))

record Written {File : Type 0} (open_at : List ℕ → ℕ → File) (pad : Bool) (pre : List ℕ)
    (dss : List (List ℕ)) (t : Tape File) : Type 0 where
  trunc : Bool
  post : List ℕ
  at : At open_at pad trunc (pre ++ blocks pad (map plain dss)) post t

module _ {File : Type 0} {fs : Files File} {open_at : List ℕ → ℕ → File} (sys : Works fs open_at)
    {pad : Bool} where
  write_all-Written :
      (nbyt : ℕ) (dss : List (List ℕ)) (trunc : Bool) (pre post : List ℕ) (t : Tape File)
      → All (Readable pad nbyt) dss
      → length (behind trunc post) ≤ 4
      → length pre + 2 ^ 17 * suc (length dss) < 2 ^ 63
      → At open_at pad trunc pre post t
      → Written open_at pad pre dss (write_all fs dss t)
  unfolding finish
  write_all-Written nbyt [] trunc pre post t h short room a = record {
    trunc = trunc;
    post = post;
    at = subst (λ xs. At open_at pad trunc xs post t) (sym (append-nil pre)) a;
  }
  write_all-Written nbyt (ds ∷ dss) trunc pre post t h short room a =
      let one = write_record-block sys trunc ds pre post t h.0.fits short (omega arith) a in
      let next =
        subst (λ r. At open_at pad false (pre ++ block pad (plain ds)) (bytes_of meta_eom) r.tape)
          (sym one.returns) one.at in
      let rest =
        write_all-Written nbyt dss false (pre ++ block pad (plain ds)) (bytes_of meta_eom)
          (write_record fs ds t).tape h.1 (omega (arith, length-bytes_of meta_eom))
          (omega (arith, length-append pre (block pad (plain ds)), block-size pad ds h.0.fits))
          next in
      record {
        trunc = rest.trunc;
        post = rest.post;
        at =
            subst (λ xs. At open_at pad rest.trunc xs rest.post (write_all fs (ds ∷ dss) t))
              (append_assoc pre (block pad (plain ds)) (blocks pad (map plain dss))) rest.at;
      }

  read_all-blocks :
      {trunc : Bool} (nbyt : ℕ) (dss : List (List ℕ)) (pre post : List ℕ) (t : Tape File)
      → All (Readable pad nbyt) dss
      → At open_at pad trunc pre (blocks pad (map plain dss) ++ post) t
      → read_all fs nbyt (length dss) t ≡ dss
  unfolding finish
  read_all-blocks nbyt [] pre post t h a = refl
  read_all-blocks {trunc} nbyt (ds ∷ dss) pre post t h a =
      let front =
        subst (λ xs. At open_at pad trunc pre xs t)
          (append_assoc (block pad (plain ds)) (blocks pad (map plain dss)) post) a in
      let one =
        read_record-block sys (plain ds) nbyt pre (blocks pad (map plain dss) ++ post) t h.0.fits
          h.0.room h.0.even front in
      let next =
        subst
          (λ r.
            At open_at pad trunc (pre ++ block pad (plain ds)) (blocks pad (map plain dss) ++ post)
              r.tape)
          (sym one.returns) one.at in
      let rest =
        read_all-blocks nbyt dss (pre ++ block pad (plain ds)) post (read_record fs nbyt t).tape h.1
          next in
      ap
        (λ (r : Result File).
          r.data_read ∷ read_all fs nbyt (length dss) (read_record fs nbyt t).tape)
        one.returns
      ∙ ap (λ xs. ds ∷ xs) rest

  -- On a good tape in a file that works as documented, whose rest is about to be cut off or is no
  -- more than the end mark, and with 2^17 bytes for each record, and once more, left below 2^63:
  -- records of 1 to 65534 bytes are written, spaced over backwards by their number, and read again.
  -- If each fits into the read buffer and none is filled up to an even length, what is read is what
  -- was written, record by record.
  pub write-space-read :
      (nbyt : ℕ) (dss : List (List ℕ)) (trunc : Bool) (pre post : List ℕ) (t : Tape File)
      → All (Readable pad nbyt) dss
      → length (behind trunc post) ≤ 4
      → length pre + 2 ^ 17 * suc (length dss) < 2 ^ 63
      → At open_at pad trunc pre post t
      → read_all fs nbyt (length dss) (space_back fs (length dss) (write_all fs dss t)).tape ≡ dss
  unfolding finish
  write-space-read nbyt dss trunc pre post t h short room a =
      let w = write_all-Written nbyt dss trunc pre post t h short room a in
      let back =
        space_back-blocks sys (map plain dss) pre w.post (write_all fs dss t)
          (All-fit pad nbyt dss h) w.at in
      let spaced : space_back fs (length dss) (write_all fs dss t)
          ≡ finish Code.ok (length (map plain dss)) [] back.tape =
        ap (λ n. space_back fs n (write_all fs dss t)) (sym (length-map-plain dss))
        ∙ back.returns in
      read_all-blocks nbyt dss pre w.post _ h (
        subst (λ r. At open_at pad true pre (blocks pad (map plain dss) ++ w.post) r.tape)
          (sym spaced) back.at)
