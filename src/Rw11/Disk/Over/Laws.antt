-- ===== src/Rw11/Disk/Over/Laws.antt =====
-- Rw11VirtDiskOver.cpp against its view: the blocks in memory over those of the file.
use w.Base.{ℕ, ◌%◌, subst, suc, zero, ◌+◌, ◌-◌, ◌*◌, ◌^◌, ◌<◌, ◌≤◌, ◌≡◌, refl, sym, ap, ◌∙◌}
use w.Base.{Bool, true, false, Option, none, List, [], ◌∷◌, ◌++◌, append-nil, length, take, drop}
use w.Base.{All, ◌==◌, leb, if◌then◌else◌, if_true, if_false, arith, Option-cases}
use w.Base.{Bool-cases, inl, inr, length-drop}
use w.Rw11.Tape.Calls.{Files}
use w.Rw11.Disk.{Attempt, good}
use w.Rw11.Disk.Buffer.{Buffer}
use w.Rw11.Disk.BlockMap.{BlockMap, find_block, lower_bound, store_block}
use w.Rw11.Disk.BlockMap.Laws.{Sorted, IsMap, find_block-above, shown, overlay, eq_of}
use w.Rw11.Disk.BlockMap.Laws.{overlay-store_block}
use w.Rw11.Disk.BlockMap.Kept.{store_block-IsMap}
use w.Rw11.Disk.View.{View, blocks, narrowed, updated, within, file_view, mul-suc, mul-le}
use w.Rw11.Disk.File
use w.Rw11.Disk.File.{FileDisk}
use w.Rw11.Disk.File.Store.{drop-drop}
use w.Rw11.Disk.File.Laws.{Works, IsFile, read-blocks}
use w.Rw11.Disk.Over.{OverDisk, no_match, read_block, read_blocks, read, write_blocks, then_read}
use w.Rw11.Disk.Over.{from_below, tally}
use w.Rw11.Disk.Stat

-- The loop of `Write`, in the view.
pub write_blocks-updated :
    (v : View) (bs lba n k : ℕ) (ds : List ℕ) (m : BlockMap)
    → bs * n ≤ length ds
    → bs * (lba + n) < 2 ^ 64
    → lba + n < 2 ^ 32
    → IsMap bs m
    → overlay v (write_blocks bs lba n ds m) k ≡ updated bs lba n ds (overlay v m) k
unfolding write_blocks
write_blocks-updated v bs lba zero k ds m enough small narrow h = sym (if_false _ _ (nothing lba k))
  where
    nothing : (lba k : ℕ) → within lba zero k ≡ false
    nothing lba k = ground arith
write_blocks-updated v bs lba (suc n) k ds m enough small narrow h =
    ap (λ (j : ℕ). overlay v (write_blocks bs (lba + 1) n (drop bs ds) (store_block bs j ds m)) k)
      (narrowed lba (omega arith))
    ∙ write_blocks-updated v bs (lba + 1) n k (drop bs ds) (store_block bs lba ds m)
        (rest (bs * n) (bs * suc n) (length ds) (length (drop bs ds)) (mul-suc bs n) enough
          (length-drop bs ds))
        (below (bs * (lba + 1 + n)) (bs * (lba + suc n))
          (mul-le bs (lba + 1 + n) (lba + suc n) (omega arith)) small)
        (omega arith)
        (store_block-IsMap bs lba ds m
          (first (bs * n) (bs * suc n) (length ds) (mul-suc bs n) enough)
          (below (bs * (lba + 1)) (bs * (lba + suc n))
            (mul-le bs (lba + 1) (lba + suc n) (omega arith)) small)
          h)
    ∙ ap
        (λ (t : List ℕ).
          if within (lba + 1) n k then take bs (drop (bs * (k - (lba + 1))) (drop bs ds)) else t)
        (overlay-store_block v bs lba k ds m h.1)
    ∙ by_key (within (lba + 1) n k) (k == lba) (within lba (suc n) k) refl refl refl
  where
    rest : (x y l r : ℕ) → y ≡ bs + x → y ≤ l → r ≡ l - bs → x ≤ r
    rest x y l r e h f = omega arith

    first : (x y l : ℕ) → y ≡ bs + x → y ≤ l → bs ≤ l
    first x y l e h = omega arith

    below : (x y : ℕ) → x ≤ y → y < 2 ^ 64 → x < 2 ^ 64
    below x y h l = omega arith

    by_key :
        (a b c : Bool)
        → within (lba + 1) n k ≡ a
        → (k == lba) ≡ b
        → within lba (suc n) k ≡ c
        → (if a
            then take bs (drop (bs * (k - (lba + 1))) (drop bs ds))
            else (if b then take bs ds else overlay v m k))
          ≡ (if c then take bs (drop (bs * (k - lba)) ds) else overlay v m k)
    by_key true b true p q r = ap (take bs) (
        drop-drop bs (bs * (k - (lba + 1))) ds
        ∙ ap (λ (t : ℕ). drop t ds)
            (sym (mul-suc bs (k - (lba + 1))) ∙ ap (λ (t : ℕ). bs * t) (next k lba p)))
      where
        next : (k lba : ℕ) → within (lba + 1) n k ≡ true → suc (k - (lba + 1)) ≡ k - lba
        next k lba p = ground arith
    by_key true b false p q r = absurd (ground arith)
    by_key false true true p q r = ap (λ (t : ℕ). take bs (drop t ds)) (start (eq_of k lba q))
      where
        start : k ≡ lba → 0 ≡ bs * (k - lba)
        start e = grind (arith, e)
    by_key false true false p q r = absurd (ground arith)
    by_key false false true p q r = absurd (ground arith)
    by_key false false false p q r = refl

-- When the search from `lba` on finds no block below `lba + n`, there is none.
no_match-none :
    (lba n k : ℕ) (m : BlockMap)
    → Sorted m
    → no_match (lower_bound lba m) (lba + n) ≡ true
    → lba ≤ k
    → k < lba + n
    → find_block k m ≡ none
unfolding lower_bound find_block
no_match-none lba n k [] s h l u = refl
no_match-none lba n k ((j, b) ∷ m) (hs, s) h l u = elim (Bool-cases (leb lba j)) [
  | inl t ↦
      let far : lba + n ≤ j =
        bound j (sym (ap (λ (o : Option ℕ). no_match o (lba + n)) (if_true _ _ t)) ∙ h) in
      if_false _ _ (before k j (omega arith))
      ∙ find_block-above k m (all_above j m (omega arith) hs)
  | inr t ↦
      if_false _ _ (behind k j (ground arith))
      ∙ no_match-none lba n k m s
          (sym (ap (λ (o : Option ℕ). no_match o (lba + n)) (if_false _ _ t)) ∙ h) l u
]
  where
    bound : (j : ℕ) → leb (lba + n) j ≡ true → lba + n ≤ j
    bound j h = ground arith

    before : (a b : ℕ) → a < b → (a == b) ≡ false
    before a b h = ground arith

    behind : (a b : ℕ) → b < a → (a == b) ≡ false
    behind a b h = ground arith

    all_above :
        (j : ℕ) (m : BlockMap)
        → k < j
        → All (λ (e : ℕ × Buffer). j < e.0) m
        → All (λ (e : ℕ × Buffer). k < e.0) m
    all_above j [] h hs = tt
    all_above j (e ∷ m) h (i, hs) = (omega arith, all_above j m h hs)

pub blocks-same :
    (v w : View) (lba n : ℕ)
    → ((k : ℕ) → lba ≤ k → k < lba + n → v k ≡ w k)
    → blocks v lba n ≡ blocks w lba n
unfolding blocks
blocks-same v w lba zero h = refl
blocks-same v w lba (suc n) h =
    both (h lba (omega arith) (omega arith))
      (blocks-same v w (lba + 1) n (λ k l u. h k (omega arith) (omega arith)))
  where
    both : {a b c d : List ℕ} → a ≡ b → c ≡ d → a ++ c ≡ b ++ d
    both p q = rw (p, q) refl

-- An overlay disk on a file with the bytes `b`.
pub record IsOver {Handle : Type 0} (open_at : List ℕ → ℕ → Handle) (bs : ℕ) (b : List ℕ)
    (m : BlockMap) (d : OverDisk Handle) : Type 0 where
  pub is_file : IsFile open_at b d.below
  pub map_is : d.blk_map ≡ m
  pub block_size : d.below.disk.blk_size ≡ bs

-- A call that succeeds, and leaves an overlay disk as it is described.
pub record Keeps {Handle A : Type 0} (open_at : List ℕ → ℕ → Handle) (bs : ℕ) (b : List ℕ)
    (m : BlockMap) (a : A) (res : Attempt A (OverDisk Handle)) : Type 0 where
  pub after : OverDisk Handle
  pub returns : res ≡ good a after
  pub is_over : IsOver open_at bs b m after

module _ {Handle : Type 0} (fs : Files Handle) (open_at : List ℕ → ℕ → Handle)
    (works : Works fs open_at) (bs : ℕ) (b : List ℕ) (m : BlockMap) where
  pub tally-IsOver :
      (i n : ℕ) (d : OverDisk Handle)
      → IsOver open_at bs b m d
      → IsOver open_at bs b m (tally i n d)
  tally-IsOver i n d h = record {
    is_file = record {
      position = h.is_file.position;
      file_is = h.is_file.file_is;
      size_is = h.is_file.size_is;
      small = h.is_file.small;
    };
    map_is = h.map_is;
    block_size = h.block_size;
  }

  below-Keeps :
      (lba n : ℕ) (d : OverDisk Handle)
      → IsOver open_at bs b m d
      → bs * (lba + n) < 2 ^ 64
      → Keeps open_at bs b m
          (blocks (file_view bs b) lba n)
          (from_below d.blk_map (File.read fs lba n d.below))
  below-Keeps lba n d h small =
      let r = read-blocks fs open_at works bs lba n b d.below h.is_file h.block_size small in
      record {
        after = record { below = r.after; blk_map = d.blk_map };
        returns = ap (from_below d.blk_map) r.returns;
        is_over = record {
          is_file = r.is_file;
          map_is = h.map_is;
          block_size = r.same_blocks ∙ h.block_size;
        };
      }

  read_block-Keeps :
      (k : ℕ) (d : OverDisk Handle)
      → IsOver open_at bs b m d
      → bs * (k + 1) < 2 ^ 64
      → Keeps open_at bs b m
          (overlay (file_view bs b) m k)
          (read_block fs k d (find_block k d.blk_map))
  read_block-Keeps k d h small = elim (Option-cases (find_block k m)) [
    | inl e ↦
        let r = below-Keeps k 1 (tally Stat.over_read_blk_fp 1 d) (tally-IsOver _ _ d h) small in
        record {
          after = r.after;
          returns =
              ap (read_block fs k d) (ap (find_block k) h.map_is ∙ e)
              ∙ r.returns
              ∙ ap (λ (t : List ℕ). good t r.after)
                  (single ∙ sym (ap (shown (file_view bs b k)) e));
          is_over = r.is_over;
        }
    | inr (c, e) ↦ record {
      after = tally Stat.over_read_blk_o 1 d;
      returns =
          ap (read_block fs k d) (ap (find_block k) h.map_is ∙ e)
          ∙ ap (λ (t : List ℕ). good t (tally Stat.over_read_blk_o 1 d))
              (sym (ap (shown (file_view bs b k)) e));
      is_over = tally-IsOver _ _ d h;
    }
  ]
    where
      single : blocks (file_view bs b) k 1 ≡ file_view bs b k
      single = unfold blocks in append-nil (file_view bs b k)

  then_read-Keeps :
      (xs ys : List ℕ) (res : Attempt (List ℕ) (OverDisk Handle))
      (loop : OverDisk Handle → Attempt (List ℕ) (OverDisk Handle))
      → Keeps open_at bs b m xs res
      → ((d : OverDisk Handle) → IsOver open_at bs b m d → Keeps open_at bs b m ys (loop d))
      → Keeps open_at bs b m (xs ++ ys) (then_read res loop)
  then_read-Keeps xs ys res loop h k =
      let r = k h.after h.is_over in
      record { after = r.after; returns = rw (h.returns, r.returns) refl; is_over = r.is_over }

  read_blocks-Keeps :
      (k n : ℕ) (d : OverDisk Handle)
      → IsOver open_at bs b m d
      → bs * (k + n) < 2 ^ 64
      → k + n < 2 ^ 32
      → Keeps open_at bs b m (blocks (overlay (file_view bs b) m) k n) (read_blocks fs k n d)
  unfolding read_blocks blocks
  read_blocks-Keeps k zero d h small narrow = record { after = d; returns = refl; is_over = h }
  read_blocks-Keeps k (suc n) d h small narrow =
      then_read-Keeps _ _ _ (read_blocks fs (k + 1) n)
        (subst
          (λ (j : ℕ).
            Keeps open_at bs b m (overlay (file_view bs b) m k)
              (read_block fs k d (find_block j d.blk_map)))
          (sym (narrowed k (omega arith)))
          (read_block-Keeps k d h (
            below (bs * (k + 1)) (bs * (k + suc n)) (mul-le bs (k + 1) (k + suc n) (omega arith))
              small)))
        (λ d' h'.
          read_blocks-Keeps (k + 1) n d' h'
            (below (bs * (k + 1 + n)) (bs * (k + suc n))
              (mul-le bs (k + 1 + n) (k + suc n) (omega arith)) small)
            (omega arith))
    where
      below : (x y : ℕ) → x ≤ y → y < 2 ^ 64 → x < 2 ^ 64
      below x y h l = omega arith

  -- On a file that works as documented and is smaller than 2^63 bytes, `Read` returns true with the
  -- bytes of the blocks in memory over those of the file, whether or not any block is in memory,
  -- and changes neither; the map is in order, the block numbers fit into 32 bits, and the addresses
  -- of the bytes into 64 bits.
  pub read-Keeps :
      (lba n : ℕ) (d : OverDisk Handle)
      → Sorted m
      → IsOver open_at bs b m d
      → bs * (lba + n) < 2 ^ 64
      → lba + n < 2 ^ 32
      → Keeps open_at bs b m (blocks (overlay (file_view bs b) m) lba n) (read fs lba n d)
  unfolding read
  read-Keeps lba n d s h small narrow =
      elim (Bool-cases (no_match (lower_bound (lba % 2 ^ 32) d.blk_map) (lba + n))) [
        | inl t ↦
            let r =
              below-Keeps lba n (tally Stat.over_read_blk_ff n (tally Stat.over_read 1 d))
                (tally-IsOver _ _ _ (tally-IsOver _ _ d h)) small in
            record {
              after = r.after;
              returns =
                  if_true _ _ t
                  ∙ r.returns
                  ∙ ap (λ (u : List ℕ). good u r.after)
                      (blocks-same (file_view bs b) (overlay (file_view bs b) m) lba n (λ k l u.
                        sym (
                          ap (shown (file_view bs b k)) (
                            no_match-none lba n k m s
                              (sym (
                                  ap (λ (w : BlockMap). no_match (lower_bound lba w) (lba + n))
                                    h.map_is)
                                ∙ sym (
                                    ap (λ (j : ℕ). no_match (lower_bound j d.blk_map) (lba + n))
                                      (narrowed lba (omega arith)))
                                ∙ t)
                              l u))));
              is_over = r.is_over;
            }
        | inr t ↦
            let r =
              read_blocks-Keeps lba n (tally Stat.over_read 1 d) (tally-IsOver _ _ d h) small
                narrow in
            record { after = r.after; returns = if_false _ _ t ∙ r.returns; is_over = r.is_over }
      ]
