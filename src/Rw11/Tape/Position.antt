-- ===== src/Rw11/Tape/Position.antt =====
-- Files that work, and the tape's calls on them: the position in the file is told by the bytes in
-- front of it and the bytes behind it.
use w.Base.{ℕ, ◌+◌, ◌-◌, ◌%◌, ◌^◌, ◌<◌, ◌≤◌, ◌≡◌, refl, sym, ap, ◌∙◌}
use w.Base.{Bool, false, some, List, ◌++◌, length, take, drop}
use w.Base.{length-append, take-append, drop-append, append_assoc, arith}
use w.Base.{le→leb, if_true}
use w.Rw11.Tape.Calls.{Files, Tape, Attempt, good, fail, start, forward, backward}
use w.Rw11.Tape.Calls.{update_pos, moved_to, seek, read_bytes, check_size_forw, check_size_back}

-- What the system's documentation says of a file of the bytes `b`, open at the offset `p`, as long
-- as no call fails. Offsets are signed numbers of 64 bits (`off_t`): nothing is said from 2^63 on.
pub record Works {File : Type 0} (fs : Files File) (open_at : List ℕ → ℕ → File) : Type 0 where
  pub seek_start :
      (n : ℕ) (b : List ℕ) (p : ℕ)
      → n < 2 ^ 63
      → fs.seek_file (start n) (open_at b p) ≡ some (open_at b n)
  pub seek_forward :
      (n : ℕ) (b : List ℕ) (p : ℕ)
      → p + n < 2 ^ 63
      → fs.seek_file (forward n) (open_at b p) ≡ some (open_at b (p + n))
  pub seek_backward :
      (n : ℕ) (b : List ℕ) (p : ℕ)
      → n ≤ p
      → fs.seek_file (backward n) (open_at b p) ≡ some (open_at b (p - n))
  pub reads :
      (n : ℕ) (b : List ℕ) (p : ℕ)
      → p + n ≤ length b
      → fs.read_file n (open_at b p) ≡ some (take n (drop p b), open_at b (p + n))
  pub writes :
      (ds b : List ℕ) (p : ℕ)
      → p ≤ length b
      → p + length ds < 2 ^ 63
      → fs.write_file ds (open_at b p)
        ≡ some (open_at (take p b ++ ds ++ drop (p + length ds) b) (p + length ds))
  pub truncates :
      (n : ℕ) (b : List ℕ) (p : ℕ)
      → n ≤ length b
      → fs.truncate_file n (open_at b p) ≡ some (open_at (take n b) p)

module _ {File : Type 0} (open_at : List ℕ → ℕ → File) where
  -- A good tape between `pre` and `post`.
  pub record At (pad trunc : Bool) (pre post : List ℕ) (t : Tape File) : Type 0 where
    pub file_at : t.file ≡ open_at (pre ++ post) (length pre)
    pub size_is : t.size ≡ length pre + length post
    pub position_is : t.position ≡ length pre
    pub is_good : t.bad ≡ false
    pub padding : t.pad_odd ≡ pad
    pub pending : t.trunc_pend ≡ trunc
    pub small : length pre + length post < 2 ^ 63

  -- A call that leaves the tape between `pre` and `post`.
  pub record Goes {A : Type 0} (a : A) (pad trunc : Bool) (pre post : List ℕ) (res : Attempt File A)
      : Type 0 where
    pub tape : Tape File
    pub returns : res ≡ good a tape
    pub at : At pad trunc pre post tape

forward_mod : (p n : ℕ) → p + n < 2 ^ 63 → (p + n) % 2 ^ 64 ≡ p + n
forward_mod p n h = omega (arith, h)

backward_mod : (p n : ℕ) → n ≤ p → p < 2 ^ 63 → (p + (2 ^ 64 - n)) % 2 ^ 64 ≡ p - n
backward_mod p n h l = omega (arith, h, l)

module _ {File : Type 0} {fs : Files File} {open_at : List ℕ → ℕ → File} (sys : Works fs open_at)
    {pad trunc : Bool} where
  -- The tape has moved over `xs`.
  pub At-forward :
      (pre xs post : List ℕ) (t : Tape File) (f : File)
      → f ≡ open_at (pre ++ (xs ++ post)) (length pre + length xs)
      → At open_at pad trunc pre (xs ++ post) t
      → At open_at pad trunc
          (pre ++ xs)
          post
          (update_pos (forward (length xs)) (record t { file = f }))
  unfolding update_pos moved_to
  At-forward pre xs post t f e a = record {
    file_at =
        rw (length-append pre xs)
          (e ∙ ap (λ b. open_at b (length pre + length xs)) (sym (append_assoc pre xs post)));
    size_is = omega (arith, a.size_is, length-append pre xs, length-append xs post);
    position_is =
        omega (arith, a.position_is, a.small, length-append pre xs, length-append xs post);
    is_good = a.is_good;
    padding = a.padding;
    pending = a.pending;
    small = omega (arith, a.small, length-append pre xs, length-append xs post);
  }

  pub seek_forward_Goes :
      (pre xs post : List ℕ) (t : Tape File)
      → At open_at pad trunc pre (xs ++ post) t
      → Goes open_at tt pad trunc (pre ++ xs) post (seek fs (forward (length xs)) t)
  unfolding seek
  seek_forward_Goes pre xs post t a = record {
    tape =
        update_pos (forward (length xs))
          (record t { file = open_at (pre ++ (xs ++ post)) (length pre + length xs) });
    returns =
        rw
          (
            a.file_at,
            sys.seek_forward (length xs) (pre ++ (xs ++ post)) (length pre)
                (omega (arith, a.small, length-append xs post)),
          )
          refl;
    at = At-forward pre xs post t _ refl a;
  }

  pub read_bytes-Goes :
      (pre xs post : List ℕ) (t : Tape File)
      → At open_at pad trunc pre (xs ++ post) t
      → Goes open_at xs pad trunc (pre ++ xs) post (read_bytes fs (length xs) t)
  unfolding read_bytes
  read_bytes-Goes pre xs post t a = record {
    tape =
        update_pos (forward (length xs))
          (record t { file = open_at (pre ++ (xs ++ post)) (length pre + length xs) });
    returns =
        rw
          (
            a.file_at,
            sys.reads (length xs) (pre ++ (xs ++ post)) (length pre)
                (omega (arith, length-append pre (xs ++ post), length-append xs post)),
            drop-append pre (xs ++ post),
            take-append xs post,
          )
          refl;
    at = At-forward pre xs post t _ refl a;
  }

  pub At-backward :
      (pre xs post : List ℕ) (t : Tape File) (f : File)
      → f ≡ open_at (pre ++ xs ++ post) (length pre)
      → At open_at pad trunc (pre ++ xs) post t
      → At open_at pad trunc pre
          (xs ++ post)
          (update_pos (backward (length xs)) (record t { file = f }))
  unfolding update_pos moved_to
  At-backward pre xs post t f e a = record {
    file_at = e ∙ ap (λ b. open_at b (length pre)) (append_assoc pre xs post);
    size_is = omega (arith, a.size_is, length-append pre xs, length-append xs post);
    position_is =
        omega (arith, a.position_is, a.small, length-append pre xs, length-append xs post);
    is_good = a.is_good;
    padding = a.padding;
    pending = a.pending;
    small = omega (arith, a.small, length-append pre xs, length-append xs post);
  }

  pub seek_backward_Goes :
      (pre xs post : List ℕ) (t : Tape File)
      → At open_at pad trunc (pre ++ xs) post t
      → Goes open_at tt pad trunc pre (xs ++ post) (seek fs (backward (length xs)) t)
  unfolding seek
  seek_backward_Goes pre xs post t a = record {
    tape =
        update_pos (backward (length xs))
          (record t { file = open_at (pre ++ xs ++ post) (length (pre ++ xs) - length xs) });
    returns =
        rw
          (
            a.file_at,
            sys.seek_backward (length xs) (pre ++ xs ++ post) (length (pre ++ xs))
                (omega (arith, length-append pre xs)),
          )
          refl;
    at =
        At-backward pre xs post t _
          (ap (open_at (pre ++ xs ++ post)) (omega (arith, length-append pre xs))) a;
  }

  pub check_size_forw_Goes :
      (pre xs post : List ℕ) (t : Tape File)
      → At open_at pad trunc pre (xs ++ post) t
      → check_size_forw (length xs) t ≡ good tt t
  unfolding check_size_forw
  check_size_forw_Goes pre xs post t a = if_true (good tt t) (fail t) (
      le→leb ((t.position + length xs) % 2 ^ 64) t.size
        (omega (arith, a.size_is, a.position_is, a.small, length-append xs post)))

  pub check_size_back_Goes :
      (pre xs post : List ℕ) (t : Tape File)
      → At open_at pad trunc (pre ++ xs) post t
      → check_size_back (length xs) t ≡ good tt t
  unfolding check_size_back
  check_size_back_Goes pre xs post t a =
      if_true (good tt t) (fail t)
        (le→leb (length xs) t.position (omega (arith, a.position_is, length-append pre xs)))
