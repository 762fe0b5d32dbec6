-- ===== src/Rw11/Tape/Writing.antt =====
-- The tape's writes on a file that works.
use w.Base.{ℕ, suc, ◌+◌, ◌^◌, ◌<◌, ◌≡◌, refl, sym, ap, ◌∙◌}
use w.Base.{Bool, true, false, List, [], ◌∷◌, ◌++◌, length, drop}
use w.Base.{length-append, take-append, append-nil, arith}
use w.Base.{length-drop}
use w.Rw11.Tape.Calls.{Files, Tape, ◌then_on◌, good, forward, backward}
use w.Rw11.Tape.Calls.{update_pos, moved_to, grown, seek, write_bytes, cut, put_bytes}
use w.Rw11.Tape.Position.{Works, At, Goes, seek_backward_Goes}

drop-past : (xs ys : List ℕ) (n : ℕ) → drop (length xs + n) (xs ++ ys) ≡ drop n ys
drop-past [] ys n = ap (λ k. drop k ys) (omega arith)
drop-past (x ∷ xs) ys n =
    let e : suc (length xs) + n ≡ suc (length xs + n) = omega arith in
    ap (λ k. drop k (x ∷ (xs ++ ys))) e ∙ drop-past xs ys n

-- What is behind the position when a write starts.
abbrev pub behind : Bool → List ℕ → List ℕ
behind true post = []
behind false post = post

module _ {File : Type 0} {fs : Files File} {open_at : List ℕ → ℕ → File} (sys : Works fs open_at)
    {pad : Bool} where
  cut_off :
      (pre post : List ℕ) (t : Tape File)
      → At open_at pad true pre post t
      → Goes open_at tt pad false pre [] (cut fs t)
  unfolding cut
  cut_off pre post t a = record {
    tape = record t { file = open_at pre (length pre); trunc_pend = false; size = t.position };
    returns =
        rw
          (
            a.pending,
            a.file_at,
            a.position_is,
            sys.truncates (length pre) (pre ++ post) (length pre)
                (omega (arith, length-append pre post)),
            take-append pre post,
          )
          refl;
    at = record {
      file_at = ap (λ b. open_at b (length pre)) (sym (append-nil pre));
      size_is = omega (arith, a.position_is);
      position_is = a.position_is;
      is_good = a.is_good;
      padding = a.padding;
      pending = refl;
      small = omega (arith, a.small);
    };
  }

  pub cut-Goes :
      (trunc : Bool) (pre post : List ℕ) (t : Tape File)
      → At open_at pad trunc pre post t
      → Goes open_at tt pad false pre (behind trunc post) (cut fs t)
  unfolding cut
  cut-Goes true pre post t a = cut_off pre post t a
  cut-Goes false pre post t a = record { tape = t; returns = rw a.pending refl; at = a }

  At-put :
      (pre ds post : List ℕ) (t : Tape File) (f : File)
      → length pre + length ds < 2 ^ 63
      → f ≡ open_at (pre ++ ds ++ drop (length ds) post) (length pre + length ds)
      → At open_at pad false pre post t
      → At open_at pad false
          (pre ++ ds)
          (drop (length ds) post)
          (grown (update_pos (forward (length ds)) (record t { file = f })))
  unfolding grown update_pos moved_to
  At-put pre ds post t f h e a = record {
    file_at = e ∙ ap (open_at (pre ++ ds ++ drop (length ds) post)) (sym (length-append pre ds));
    size_is = ground (
      arith,
      a.size_is,
      a.position_is,
      a.small,
      length-append pre ds,
      length-drop (length ds) post,
    );
    position_is = omega (arith, a.position_is, length-append pre ds);
    is_good = a.is_good;
    padding = a.padding;
    pending = a.pending;
    small = omega (arith, a.small, length-append pre ds, length-drop (length ds) post);
  }

  put_bytes-Goes :
      (pre ds post : List ℕ) (t : Tape File)
      → length pre + length ds < 2 ^ 63
      → At open_at pad false pre post t
      → Goes open_at tt pad false (pre ++ ds) (drop (length ds) post) (put_bytes fs ds t)
  unfolding put_bytes
  put_bytes-Goes pre ds post t h a = record {
    tape = grown (
        update_pos (forward (length ds)) (record t {
          file = open_at (pre ++ ds ++ drop (length ds) post) (length pre + length ds);
        }));
    returns =
        rw
          (
            a.file_at,
            sys.writes ds (pre ++ post) (length pre) (omega (arith, length-append pre post)),
            take-append pre post,
            drop-past pre post (length ds),
          )
          refl;
    at = At-put pre ds post t _ h refl a;
  }

  put_back :
      (ds pre post : List ℕ) (t : Tape File)
      → length pre + length ds < 2 ^ 63
      → At open_at pad false pre post t
      → Goes open_at tt pad false pre
          (ds ++ drop (length ds) post)
          (put_bytes fs ds t then_on (λ _ t1. seek fs (backward (length ds)) t1))
  put_back ds pre post t h a =
      let put = put_bytes-Goes pre ds post t h a in
      let sought = seek_backward_Goes sys pre ds (drop (length ds) post) put.tape put.at in
      record { tape = sought.tape; returns = rw put.returns sought.returns; at = sought.at }

  put_on :
      (ds pre post : List ℕ) (t : Tape File)
      → length pre + length ds < 2 ^ 63
      → At open_at pad false pre post t
      → Goes open_at tt pad false
          (pre ++ ds)
          (drop (length ds) post)
          (put_bytes fs ds t then_on (λ _ t1. good tt t1))
  put_on ds pre post t h a =
      let put = put_bytes-Goes pre ds post t h a in
      record { tape = put.tape; returns = rw put.returns refl; at = put.at }

  pub write_on :
      (trunc : Bool) (ds pre post : List ℕ) (t : Tape File)
      → length pre + length ds < 2 ^ 63
      → At open_at pad trunc pre post t
      → Goes open_at tt pad false
          (pre ++ ds)
          (drop (length ds) (behind trunc post))
          (write_bytes fs ds false t)
  unfolding write_bytes
  write_on trunc ds pre post t h a =
      let c = cut-Goes trunc pre post t a in
      let p = put_on ds pre (behind trunc post) c.tape h c.at in
      record { tape = p.tape; returns = rw c.returns p.returns; at = p.at }

  pub write_back :
      (trunc : Bool) (ds pre post : List ℕ) (t : Tape File)
      → length pre + length ds < 2 ^ 63
      → At open_at pad trunc pre post t
      → Goes open_at tt pad false pre
          (ds ++ drop (length ds) (behind trunc post))
          (write_bytes fs ds true t)
  unfolding write_bytes
  write_back trunc ds pre post t h a =
      let c = cut-Goes trunc pre post t a in
      let p = put_back ds pre (behind trunc post) c.tape h c.at in
      record { tape = p.tape; returns = rw c.returns p.returns; at = p.at }
