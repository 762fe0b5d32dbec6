-- ===== src/Rw11/Disk/File/Update.antt =====
-- A write into the file of Rw11VirtDiskFile.cpp, as it is seen in the blocks of the disk.
use w.Base.{ℕ, suc, ◌+◌, ◌-◌, ◌*◌, ◌^◌, ◌<◌, ◌≤◌, ◌≡◌, refl, sym, ap, ◌∙◌, true, false}
use w.Base.{List, length, length-drop, take, drop}
use w.Base.{if_true, if_false, arith, Bool-cases, inl, inr, ◌⊎◌}
use w.Rw11.Disk.File.Store.{overwritten, overwritten-front, overwritten-written, overwritten-back}
use w.Rw11.Disk.File.Store.{list-agrees, length-take, get_or-take, get_or-drop}
use w.Rw11.Disk.View.{bytes_at, window-same, updated, within, file_view, mul-suc, mul-le}
use w.Rw11.Disk.View.{mul-add}
use w.Rw11.Tape.Calls.{Files}
use w.Rw11.Disk.File.{FileDisk, write}
use w.Rw11.Disk.File.Laws.{Works, IsFile, Leaves, write-overwritten}

module _ (bs lba n : ℕ) (ds b : List ℕ) (enough : bs * n ≤ length ds) where
  abbrev new_file : List ℕ
  new_file = overwritten (bs * lba) (take (bs * n) ds) b

  inside :
      (k : ℕ) → lba ≤ k → k < lba + n → file_view bs new_file k ≡ take bs (drop (bs * (k - lba)) ds)
  inside k h l =
      let m = bs * (k - lba) in
      let fits : m + bs ≤ bs * n = fit (k - lba) (omega arith) in
      sym (
        list-agrees (take bs (drop m ds)) bs (bs * k) (bytes_at new_file)
          (length-take bs (drop m ds)
            (room m (bs * n) (length ds) (length (drop m ds)) fits enough (length-drop m ds)))
          (λ i c.
            get_or-take 0 bs (drop m ds) i c
            ∙ get_or-drop 0 m ds i
            ∙ sym (get_or-take 0 (bs * n) ds (m + i) (below m i (bs * n) fits c))
            ∙ sym (
                overwritten-written (bs * lba) (take (bs * n) ds) b (m + i)
                  (in_data m i (length (take (bs * n) ds)) (length-take (bs * n) ds enough) fits c))
            ∙ ap (bytes_at new_file) (at_block m i (k - lba) refl (omega arith))))
    where
      fit : (j : ℕ) → j < n → bs * j + bs ≤ bs * n
      fit j h =
          below_next (bs * j) (bs * suc j) (bs * n) (mul-suc bs j)
            (mul-le bs (suc j) n (omega arith))
        where
          below_next : (x y z : ℕ) → y ≡ bs + x → y ≤ z → x + bs ≤ z
          below_next x y z e h = omega arith

      room : (m t l r : ℕ) → m + bs ≤ t → t ≤ l → r ≡ l - m → bs ≤ r
      room m t l r p q e = omega arith

      below : (m i t : ℕ) → m + bs ≤ t → i < bs → m + i < t
      below m i t p q = omega arith

      in_data : (m i t : ℕ) → t ≡ bs * n → m + bs ≤ bs * n → i < bs → m + i < t
      in_data m i t e p q = go (bs * n) e p
        where
          go : (s : ℕ) → t ≡ s → m + bs ≤ s → m + i < t
          go s e p = omega arith

      at_block : (m i j : ℕ) → m ≡ bs * j → k ≡ lba + j → bs * lba + (m + i) ≡ bs * k + i
      at_block m i j e f = grind (arith, e, f)

  outside : (k : ℕ) → (k < lba) ⊎ (lba + n ≤ k) → file_view bs new_file k ≡ file_view bs b k
  outside k (inl h) = window-same bs (bs * k) (bs * k) (bytes_at new_file) (bytes_at b) (λ i c.
      overwritten-front (bs * lba) (take (bs * n) ds) b (bs * k + i) (
        before (bs * k) (bs * suc k) (bs * lba) i c (mul-suc bs k)
          (mul-le bs (suc k) lba (omega arith))))
    where
      before : (x y z i : ℕ) → i < bs → y ≡ bs + x → y ≤ z → x + i < z
      before x y z i c e h = omega arith
  outside k (inr h) = window-same bs (bs * k) (bs * k) (bytes_at new_file) (bytes_at b) (λ i c.
      overwritten-back (bs * lba) (take (bs * n) ds) b (bs * k + i) (
        behind (bs * lba) (length (take (bs * n) ds)) (bs * n) (bs * (lba + n)) (bs * k) i
          (length-take (bs * n) ds enough) (mul-add bs lba n) (mul-le bs (lba + n) k h)))
    where
      behind : (p l m t x i : ℕ) → l ≡ m → t ≡ p + m → t ≤ x → p + l ≤ x + i
      behind p l m t x i e f h = omega arith

  -- The blocks of the new file are those of the old one, with the written ones in their place.
  pub overwritten-updated :
      (k : ℕ) → file_view bs new_file k ≡ updated bs lba n ds (file_view bs b) k
  overwritten-updated k = elim (Bool-cases (within lba n k)) [
    | inl h ↦ (inside k (lower h) (upper h) ∙ sym (if_true _ _ h))
    | inr h ↦ (outside k (apart h) ∙ sym (if_false _ _ h))
  ]
    where
      lower : within lba n k ≡ true → lba ≤ k
      lower h = ground arith

      upper : within lba n k ≡ true → k < lba + n
      upper h = ground arith

      apart : within lba n k ≡ false → (k < lba) ⊎ (lba + n ≤ k)
      apart h = ground arith

-- `Write` of `n` blocks, one at least, on a file that works as documented and is smaller than 2^63
-- bytes, from a buffer that holds them and with the end of the last block below 2^63, returns true;
-- those blocks then show the bytes of the buffer, all others what they showed before, also when the
-- file grows by it; and the size that the disk keeps is that of the file.
pub write-updated :
    {Handle : Type 0} (fs : Files Handle) (open_at : List ℕ → ℕ → Handle) (works : Works fs open_at)
    (bs lba n : ℕ) (ds b : List ℕ) (d : FileDisk Handle)
    → IsFile open_at b d
    → d.disk.blk_size ≡ bs
    → bs * (lba + n) < 2 ^ 63
    → 0 < n
    → bs * n ≤ length ds
    → (b' : List ℕ) × Leaves open_at b' tt d (write fs lba n ds d)
      × ((k : ℕ) → file_view bs b' k ≡ updated bs lba n ds (file_view bs b) k)
write-updated fs open_at works bs lba n ds b d f e h k l = (
  overwritten (bs * lba) (take (bs * n) ds) b,
  write-overwritten fs open_at works bs lba n ds b d f e h k l,
  overwritten-updated bs lba n ds b l,
)
