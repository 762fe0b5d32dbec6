-- ===== src/Rw11/Disk/Over/Changes.antt =====
-- `Write` and `Flush` of Rw11VirtDiskOver.cpp, in the view of the disk.
use w.Base.{ℕ, suc, zero, ◌+◌, ◌-◌, ◌*◌, ◌^◌, ◌<◌, ◌≤◌, ◌≡◌, refl, ap, ◌∙◌}
use w.Base.{Bool, true, false, none, some, List, [], ◌∷◌, length, take, drop}
use w.Base.{◌==◌, if◌then◌else◌, if_false, All, arith}
use w.Rw11.Disk.Buffer.{Buffer}
use w.Rw11.Tape.Calls.{Files}
use w.Rw11.Disk.{Attempt, good}
use w.Rw11.Disk.BlockMap.{BlockMap, find_block}
use w.Rw11.Disk.BlockMap.Laws.{IsMap, find_block-above, shown, overlay, eq_of}
use w.Rw11.Disk.BlockMap.Kept.{write_blocks-IsMap}
use w.Rw11.Disk.View.{View, updated, within, file_view}
use w.Rw11.Disk.File.{FileDisk}
use w.Rw11.Disk.File.Laws.{Works, IsFile, write-overwritten}
use w.Rw11.Disk.File.Store.{overwritten}
use w.Rw11.Disk.File.Update.{overwritten-updated}
use w.Rw11.Disk.Over.{
  OverDisk, write, write_blocks, flush, flush_blocks, after_write, cleared, tally,
}
use w.Rw11.Disk.Over.Laws.{IsOver, write_blocks-updated, tally-IsOver}
use w.Rw11.Disk.Stat

-- What a disk shows after a call that succeeds.
pub record Shows {Handle : Type 0} (open_at : List ℕ → ℕ → Handle) (bs : ℕ) (v : View)
    (res : Attempt Unit (OverDisk Handle)) : Type 0 where
  pub after : OverDisk Handle
  pub returns : res ≡ good tt after
  pub file : List ℕ
  pub blk_map : BlockMap
  pub is_over : IsOver open_at bs file blk_map after
  pub in_order : IsMap bs blk_map
  pub view : (k : ℕ) → overlay (file_view bs file) blk_map k ≡ v k

-- On a disk with its map in order, and with a buffer that holds `n` blocks whose numbers fit into 32
-- bits and whose addresses fit into 64, `Write` returns true; those blocks then show the bytes of the
-- buffer, all others what they showed before, the file is as it was, and the map stays in order.
pub write-Shows :
    {Handle : Type 0} (open_at : List ℕ → ℕ → Handle) (bs lba n : ℕ) (ds b : List ℕ) (m : BlockMap)
    (d : OverDisk Handle)
    → IsMap bs m
    → IsOver open_at bs b m d
    → bs * n ≤ length ds
    → bs * (lba + n) < 2 ^ 64
    → lba + n < 2 ^ 32
    → (s : Shows open_at bs (updated bs lba n ds (overlay (file_view bs b) m)) (write lba n ds d))
      × (s.file ≡ b)
unfolding write
write-Shows open_at bs lba n ds b m d o h enough small narrow =
    let m' = write_blocks bs lba n ds m in
    let out : OverDisk _ = record (tally Stat.over_write_blk n (tally Stat.over_write 1 d)) {
      blk_map = m';
    } in
    (
      record {
        after = out;
        returns =
            ap
              (λ (t : ℕ × BlockMap).
                good tt (record out { blk_map = write_blocks t.0 lba n ds t.1 }))
              (pair h.block_size h.map_is);
        file = b;
        blk_map = m';
        is_over = record {
          is_file = record {
            position = h.is_file.position;
            file_is = h.is_file.file_is;
            size_is = h.is_file.size_is;
            small = h.is_file.small;
          };
          map_is = refl;
          block_size = h.block_size;
        };
        in_order = write_blocks-IsMap bs lba n ds m enough small narrow o;
        view = λ k. write_blocks-updated (file_view bs b) bs lba n k ds m enough small narrow o;
      },
      refl,
    )
  where
    pair : {a c : ℕ} {x y : BlockMap} → a ≡ c → x ≡ y → ◌≡◌ {A = ℕ × BlockMap} (a, x) (c, y)
    pair p q = rw (p, q) refl

-- One block that is written to the file.
at_one :
    (v : View) (bs k i : ℕ) (ds : List ℕ)
    → length ds ≡ bs
    → updated bs k 1 ds v i ≡ (if i == k then ds else v i)
at_one v bs k i ds h = by_key (within k 1 i) (i == k) refl refl
  where
    whole : (n : ℕ) (xs : List ℕ) → length xs ≡ n → take n xs ≡ xs
    whole zero [] h = refl
    whole zero (x ∷ xs) h = absurd (omega arith)
    whole (suc n) [] h = refl
    whole (suc n) (x ∷ xs) h = ap (◌∷◌ x) (whole n xs (omega arith))

    nothing : (i k : ℕ) → (i == k) ≡ true → bs * (i - k) ≡ 0
    nothing i k h = zeroes (i - k) (ground arith)
      where
        zeroes : (j : ℕ) → j ≡ 0 → bs * j ≡ 0
        zeroes j e = grind (arith, e)

    by_key :
        (a b : Bool)
        → within k 1 i ≡ a
        → (i == k) ≡ b
        → (if a then take bs (drop (bs * (i - k)) ds) else v i) ≡ (if b then ds else v i)
    by_key true true p q = ap (λ (t : ℕ). take bs (drop t ds)) (nothing i k q) ∙ whole bs ds h
    by_key true false p q = absurd (ground arith)
    by_key false true p q = absurd (ground arith)
    by_key false false p q = refl

-- The loop of `Flush` brings the blocks of the map into the file.
record Flushed {Handle : Type 0} (open_at : List ℕ → ℕ → Handle) (bs : ℕ) (v : View)
    (res : Attempt Unit (FileDisk Handle)) : Type 0 where
  after : FileDisk Handle
  returns : res ≡ good tt after
  file : List ℕ
  is_file : IsFile open_at file after
  block_size : after.disk.blk_size ≡ bs
  view : (k : ℕ) → file_view bs file k ≡ v k

module _ {Handle : Type 0} (fs : Files Handle) (open_at : List ℕ → ℕ → Handle)
    (works : Works fs open_at) (bs : ℕ) where
  flush_blocks-Flushed :
      (m : BlockMap) (b : List ℕ) (f : FileDisk Handle)
      → IsMap bs m
      → All (λ (e : ℕ × Buffer). bs * (e.0 + 1) < 2 ^ 63) m
      → IsFile open_at b f
      → f.disk.blk_size ≡ bs
      → Flushed open_at bs (overlay (file_view bs b) m) (flush_blocks fs m f)
  unfolding flush_blocks find_block
  flush_blocks-Flushed [] b f o is h e = record {
    after = f;
    returns = refl;
    file = b;
    is_file = h;
    block_size = e;
    view = λ k. refl;
  }
  flush_blocks-Flushed ((j, c) ∷ m) b f ((above, s), (entry, hs)) (i, is) h e =
      let w =
        write-overwritten fs open_at works bs j 1 c.bytes b f h e i (omega arith)
          (one bs (length c.bytes) entry.sized) in
      let b1 = overwritten (bs * j) (take (bs * 1) c.bytes) b in
      let r = flush_blocks-Flushed m b1 w.after (s, hs) is w.is_file (w.same_blocks ∙ e) in
      record {
        after = r.after;
        returns =
            ap (λ (t : Attempt Unit (FileDisk Handle)). after_write fs t (flush_blocks fs m))
              w.returns
            ∙ r.returns;
        file = r.file;
        is_file = r.is_file;
        block_size = r.block_size;
        view = λ k.
            r.view k
            ∙ ap (λ (t : List ℕ). shown t (find_block k m))
                (overwritten-updated bs j 1 c.bytes b (one bs (length c.bytes) entry.sized) k
                  ∙ at_one (file_view bs b) bs j k c.bytes entry.sized)
            ∙ by_key k (k == j) refl
                (λ t. ap (λ (i : ℕ). find_block i m) (eq_of k j t) ∙ find_block-above j m above);
      }
    where
      one : (bs l : ℕ) → l ≡ bs → bs * 1 ≤ l
      one bs l h = omega arith

      by_key :
          (k : ℕ) (t : Bool)
          → (k == j) ≡ t
          → ((k == j) ≡ true → find_block k m ≡ none)
          → shown (if t then c.bytes else file_view bs b k) (find_block k m)
            ≡ shown (file_view bs b k) (if t then some c else find_block k m)
      by_key k true q n = ap (shown c.bytes) (n q)
      by_key k false q n = refl

  -- `Flush` of a disk that is not write protected, on a file that works as documented and is smaller
  -- than 2^63 bytes, with its map in order and the blocks of the map ending below 2^63, returns true,
  -- leaves no block in memory, and every block shows what it showed before, now from the file.
  pub flush-Shows :
      (b : List ℕ) (m : BlockMap) (d : OverDisk Handle)
      → IsMap bs m
      → All (λ (e : ℕ × Buffer). bs * (e.0 + 1) < 2 ^ 63) m
      → IsOver open_at bs b m d
      → d.below.disk.wprot ≡ false
      → (s : Shows open_at bs (overlay (file_view bs b) m) (flush fs d)) × (s.blk_map ≡ [])
  unfolding flush find_block
  flush-Shows b m d o is h e =
      let t = tally-IsOver fs open_at works bs b m Stat.over_flush 1 d h in
      let r =
        flush_blocks-Flushed m b (tally Stat.over_flush 1 d).below o is t.is_file t.block_size in
      (
        record {
          after = record { below = r.after; blk_map = [] };
          returns =
              if_false _ _ e
              ∙ ap
                  (λ (u : BlockMap).
                    cleared fs d.blk_map (flush_blocks fs u (tally Stat.over_flush 1 d).below))
                  h.map_is
              ∙ ap (cleared fs d.blk_map) r.returns;
          file = r.file;
          blk_map = [];
          is_over = record { is_file = r.is_file; map_is = refl; block_size = r.block_size };
          in_order = (tt, tt);
          view = r.view;
        },
        refl,
      )
