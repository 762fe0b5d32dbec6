-- ===== src/Rw11/Disk/File/Laws.antt =====
-- Rw11VirtDiskFile.cpp against its view: the file, with zeros behind its end, block by block.
use w.Base.{ℕ, suc, zero, ◌⊎◌, ◌+◌, ◌*◌, ◌%◌, ◌^◌, ◌<◌, ◌≤◌, ◌≡◌, refl, sym, ap, ◌∙◌}
use w.Base.{true, false, some, List, length, take, drop}
use w.Base.{replicate, ltb, leb, if◌then◌else◌, if_true, if_false, arith}
use w.Base.{Bool-cases, inl, inr, length-replicate}
use w.Rw11.Tape.Calls.{Files, start}
use w.Rw11.Disk.{Attempt, good, count}
use w.Rw11.Disk.Stat
use w.Rw11.Disk.File.{FileDisk, read, write, read_at, filled, write_at, written}
use w.Rw11.Disk.File.Store.{overwritten, length-overwritten}
use w.Rw11.Disk.File.Store.{filled-window, list-agrees, length-take}
use w.Rw11.Disk.File.Store.{get_or-past, get_or-replicate}
use w.Rw11.Disk.View.{bytes_at, window, file_view, blocks}
use w.Rw11.Disk.View.{blocks-window, mul-add}

-- What the documentation of `lseek`, `read` and `write` says of a regular file: `open_at b p` is
-- the file with the bytes `b`, positioned at `p`. Positions are signed numbers of 64 bits
-- (`off_t`), and from 2^63 on nothing is said. A read returns fewer bytes only at the end of the
-- file; a write behind the end leaves zeros in between, if there is something to write.
pub record Works {Handle : Type 0} (fs : Files Handle) (open_at : List ℕ → ℕ → Handle)
    : Type 0 where
  pub seeks :
      (n : ℕ) (b : List ℕ) (p : ℕ)
      → n < 2 ^ 63
      → fs.seek_file (start n) (open_at b p) ≡ some (open_at b n)
  pub reads :
      (n : ℕ) (b : List ℕ) (p : ℕ)
      → fs.read_file n (open_at b p)
        ≡ some (take n (drop p b), open_at b (p + length (take n (drop p b))))
  pub writes :
      (ds b : List ℕ) (p : ℕ)
      → (0 < length ds) ⊎ (p ≤ length b)
      → p + length ds < 2 ^ 63
      → fs.write_file ds (open_at b p) ≡ some (open_at (overwritten p ds b) (p + length ds))

-- A disk whose file has the bytes `b`; a file is smaller than 2^63 bytes.
pub record IsFile {Handle : Type 0} (open_at : List ℕ → ℕ → Handle) (b : List ℕ)
    (d : FileDisk Handle) : Type 0 where
  pub position : ℕ
  pub file_is : d.file ≡ open_at b position
  pub size_is : d.size ≡ length b
  pub small : length b < 2 ^ 63

-- A call that leaves a disk with the bytes `b`, of the same block size.
pub record Leaves {Handle A : Type 0} (open_at : List ℕ → ℕ → Handle) (b : List ℕ) (a : A)
    (d : FileDisk Handle) (res : Attempt A (FileDisk Handle)) : Type 0 where
  pub after : FileDisk Handle
  pub returns : res ≡ good a after
  pub is_file : IsFile open_at b after
  pub same_blocks : after.disk.blk_size ≡ d.disk.blk_size

-- What is written is not empty, or stands at the start of the file.
something : (bs lba n m l : ℕ) → 0 < n → m ≡ bs * n → (0 < m) ⊎ (bs * lba ≤ l)
something zero lba n m l h e = inr (at_start (zero * lba) (grind arith))
  where
    at_start : (p : ℕ) → p ≡ 0 → p ≤ l
    at_start p e = omega arith
something (suc bs) lba (suc n) m l h e = inl (grind (arith, e))
something (suc bs) lba zero m l h e = absurd (omega arith)

-- The offsets of a write are below 2^63.
offsets :
    (bs lba n m : ℕ)
    → bs * (lba + n) < 2 ^ 63
    → m ≡ bs * n
    → (bs * (lba + n) < 2 ^ 64) × (bs * lba < 2 ^ 63) × (bs * lba + m < 2 ^ 63)
offsets bs lba n m h e = go (bs * lba) (bs * n) (bs * (lba + n)) h e (mul-add bs lba n)
  where
    go :
        (a c t : ℕ)
        → t < 2 ^ 63
        → m ≡ c
        → t ≡ a + c
        → (t < 2 ^ 64) × (a < 2 ^ 63) × (a + m < 2 ^ 63)
    go a c t h e f = (omega arith, omega arith, omega arith)

-- Positions and lengths in bytes do not wrap around.
at_byte :
    (lba n bs size : ℕ)
    → size ≡ bs
    → bs * (lba + n) < 2 ^ 64
    → ◌≡◌ {A = ℕ × ℕ} (size * lba % 2 ^ 64, size * n % 2 ^ 64) (bs * lba, bs * n)
at_byte lba n bs size e h =
    let p : size * lba % 2 ^ 64 ≡ bs * lba =
      ap (λ (t : ℕ). t * lba % 2 ^ 64) e ∙ small (bs * lba) (bs * n) _ h (mul-add bs lba n) in
    let q : size * n % 2 ^ 64 ≡ bs * n =
      ap (λ (t : ℕ). t * n % 2 ^ 64) e ∙ large (bs * lba) (bs * n) _ h (mul-add bs lba n) in
    rw (p, q) refl
  where
    small : (a c t : ℕ) → t < 2 ^ 64 → t ≡ a + c → a % 2 ^ 64 ≡ a
    small a c t h e = omega arith

    large : (a c t : ℕ) → t < 2 ^ 64 → t ≡ a + c → c % 2 ^ 64 ≡ c
    large a c t h e = omega arith

end_mod :
    (lba n bs : ℕ) → bs * (lba + n) < 2 ^ 64 → (bs * lba + bs * n) % 2 ^ 64 ≡ bs * lba + bs * n
end_mod lba n bs h = go (bs * lba) (bs * n) _ h (mul-add bs lba n)
  where
    go : (a c t : ℕ) → t < 2 ^ 64 → t ≡ a + c → (a + c) % 2 ^ 64 ≡ a + c
    go a c t h e = omega arith

module _ {Handle : Type 0} (fs : Files Handle) (open_at : List ℕ → ℕ → Handle)
    (works : Works fs open_at) where
  read_window :
      (p n : ℕ) (b : List ℕ) (d : FileDisk Handle)
      → IsFile open_at b d
      → Leaves open_at b (window n p (bytes_at b)) d (
          if leb d.size p
          then good (replicate n 0) d
          else read_at fs n d (fs.seek_file (start p) d.file))
  read_window p n b d f = elim (Bool-cases (leb d.size p)) [
    | inl h ↦ record {
      after = d;
      returns =
          if_true _ _ h
          ∙ ap (λ (t : List ℕ). good t d)
              (list-agrees (replicate n 0) n p (bytes_at b) (length-replicate {A = ℕ} n 0) (λ i l.
                get_or-replicate 0 n i ∙ sym (get_or-past 0 b (p + i) (past i h f.size_is))));
      is_file = f;
      same_blocks = refl;
    }
    | inr h ↦ record {
      after = record d { file = open_at b (p + length (take n (drop p b))) };
      returns =
          if_false _ _ h
          ∙ ap (read_at fs n d) (
              ap (fs.seek_file (start p)) f.file_is
              ∙ works.seeks p b f.position (before h f.size_is f.small))
          ∙ ap (filled fs n (record d { file = open_at b p })) (works.reads n b p)
          ∙ ap
              (λ (t : List ℕ).
                good t (record d { file = open_at b (p + length (take n (drop p b))) }))
              (filled-window n p b);
      is_file = record { position = _; file_is = refl; size_is = f.size_is; small = f.small };
      same_blocks = refl;
    }
  ]
    where
      past : (i : ℕ) → leb d.size p ≡ true → d.size ≡ length b → length b ≤ p + i
      past i h e = ground arith

      before : leb d.size p ≡ false → d.size ≡ length b → length b < 2 ^ 63 → p < 2 ^ 63
      before h e s = ground arith

  -- On a file that works as documented and is smaller than 2^63 bytes, and with addresses of 64
  -- bits, `Read` returns true with the bytes of the blocks that are asked for, zeros behind the
  -- end, and leaves the file as it is.
  pub read-blocks :
      (bs lba n : ℕ) (b : List ℕ) (d : FileDisk Handle)
      → IsFile open_at b d
      → d.disk.blk_size ≡ bs
      → bs * (lba + n) < 2 ^ 64
      → Leaves open_at b (blocks (file_view bs b) lba n) d (read fs lba n d)
  unfolding read
  read-blocks bs lba n b d f e h =
      let d1 = record d { disk = count Stat.n_read_blk n (count Stat.n_read 1 d.disk) } in
      let r = read_window (bs * lba) (bs * n) b d1 (record {
        position = f.position;
        file_is = f.file_is;
        size_is = f.size_is;
        small = f.small;
      }) in
      record {
        after = r.after;
        returns =
            ap
              (λ (t : ℕ × ℕ).
                if leb d.size t.0
                then good (replicate t.1 0) d1
                else read_at fs t.1 d1 (fs.seek_file (start t.0) d.file))
              (at_byte lba n bs d.disk.blk_size e h)
            ∙ r.returns
            ∙ ap (λ (t : List ℕ). good t r.after) (sym (blocks-window bs b n lba));
        is_file = r.is_file;
        same_blocks = r.same_blocks;
      }

  -- `Write` returns true, and the blocks are in the file.
  pub write-overwritten :
      (bs lba n : ℕ) (ds b : List ℕ) (d : FileDisk Handle)
      → IsFile open_at b d
      → d.disk.blk_size ≡ bs
      → bs * (lba + n) < 2 ^ 63
      → 0 < n
      → bs * n ≤ length ds
      → Leaves open_at (overwritten (bs * lba) (take (bs * n) ds) b) tt d (write fs lba n ds d)
  unfolding write
  write-overwritten bs lba n ds b d f e h some_blocks l =
      let d1 = record d { disk = count Stat.n_write_blk n (count Stat.n_write 1 d.disk) } in
      let p = bs * lba in
      let out = take (bs * n) ds in
      let end_pos = p + bs * n in
      let m = length-take (bs * n) ds l in
      let (wide, p_small, end_small) = offsets bs lba n (length out) h m in
      record {
        after = record d1 {
          file = open_at (overwritten p out b) (p + length out);
          size = if ltb d.size end_pos then end_pos else d.size;
        };
        returns =
            ap
              (λ (t : ℕ × ℕ).
                write_at fs ((t.0 + t.1) % 2 ^ 64) (take t.1 ds) d1
                  (fs.seek_file (start t.0) d.file))
              (at_byte lba n bs d.disk.blk_size e wide)
            ∙ ap (λ (t : ℕ). write_at fs t out d1 (fs.seek_file (start p) d.file))
                (end_mod lba n bs wide)
            ∙ ap (write_at fs end_pos out d1)
                (ap (fs.seek_file (start p)) f.file_is ∙ works.seeks p b f.position p_small)
            ∙ ap (written fs end_pos (record d1 { file = open_at b p })) (
                works.writes out b p (something bs lba n (length out) (length b) some_blocks m)
                  end_small);
        is_file = record {
          position = _;
          file_is = refl;
          size_is =
              ap (λ (t : ℕ). if ltb t end_pos then end_pos else t) f.size_is
              ∙ ap (λ (t : ℕ). if ltb (length b) (p + t) then p + t else length b) (sym m)
              ∙ sym (length-overwritten p out b);
          small =
              still_small (p + length out) (length b) _ (length-overwritten p out b) end_small
                f.small;
        };
        same_blocks = refl;
      }
    where
      still_small :
          (e l t : ℕ) → t ≡ (if ltb l e then e else l) → e < 2 ^ 63 → l < 2 ^ 63 → t < 2 ^ 63
      still_small e l t q a c = ground arith
