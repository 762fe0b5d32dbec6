-- ===== src/Rw11/Disk/BlockMap/Kept.antt =====
-- A store keeps the order of the block map, and the size of its buffers.
use w.Base.{ℕ, suc, zero, ◌+◌, ◌*◌, ◌^◌, ◌<◌, ◌≤◌, ◌≡◌, refl, sym, ap, ◌∙◌, subst}
use w.Base.{Bool, true, false, Option, none, some, List, [], ◌∷◌, length, All}
use w.Base.{length-replicate, ◌==◌, ltb, if◌then◌else◌, arith}
use w.Base.{Option-cases, inl, inr, drop, length-drop, ◌-◌}
use w.Rw11.Disk.Buffer.{Buffer, write}
use w.Rw11.Disk.Buffer
use w.Rw11.Disk.BlockMap.{BlockMap, find_block, emplace, on_block, has_block, store_block}
use w.Rw11.Disk.BlockMap.Laws.{Sorted, IsEntry, IsMap}
use w.Rw11.Disk.Over.{write_blocks}
use w.Rw11.Disk.File.Store.{length-take}
use w.Rw11.Disk.View.{mul-suc, mul-le, narrowed}

All-emplace :
    (P : ℕ × Buffer → Type 0) (j : ℕ) (c : Buffer) (m : BlockMap)
    → P (j, c)
    → All P m
    → All P (emplace j c m)
unfolding emplace
All-emplace P j c [] p hs = (p, tt)
All-emplace P j c ((i, b) ∷ m) p (h, hs) = by_order (ltb j i) (All-emplace P j c m p hs)
  where
    by_order :
        (t : Bool)
        → All P (emplace j c m)
        → All P (if t then (j, c) ∷ (i, b) ∷ m else (i, b) ∷ emplace j c m)
    by_order true ih = (p, (h, hs))
    by_order false ih = (h, ih)

All-on_block :
    (P : ℕ × Buffer → Type 0) (f : Buffer → Buffer) (j : ℕ) (m : BlockMap)
    → ((i : ℕ) (b : Buffer) → P (i, b) → P (i, f b))
    → All P m
    → All P (on_block f j m)
unfolding on_block
All-on_block P f j [] k hs = tt
All-on_block P f j ((i, b) ∷ m) k (h, hs) = by_key (j == i) (All-on_block P f j m k hs)
  where
    by_key :
        (t : Bool)
        → All P (on_block f j m)
        → All P (if t then (i, f b) ∷ m else (i, b) ∷ on_block f j m)
    by_key true ih = (k i b h, hs)
    by_key false ih = (h, ih)

All-weaken :
    (j i : ℕ) (m : BlockMap)
    → j < i
    → All (λ (e : ℕ × Buffer). i < e.0) m
    → All (λ (e : ℕ × Buffer). j < e.0) m
All-weaken j i [] h hs = tt
All-weaken j i ((k, b) ∷ m) h (l, hs) = (omega arith, All-weaken j i m h hs)

Sorted-emplace :
    (j : ℕ) (c : Buffer) (m : BlockMap) → find_block j m ≡ none → Sorted m → Sorted (emplace j c m)
unfolding emplace find_block
Sorted-emplace j c [] e s = (tt, tt)
Sorted-emplace j c ((i, b) ∷ m) e (h, s) =
    by_order (ltb j i) (j == i) refl refl e (λ u. Sorted-emplace j c m u s)
  where
    by_order :
        (t u : Bool)
        → ltb j i ≡ t
        → (j == i) ≡ u
        → (if u then some b else find_block j m) ≡ none
        → (find_block j m ≡ none → Sorted (emplace j c m))
        → Sorted (if t then (j, c) ∷ (i, b) ∷ m else (i, b) ∷ emplace j c m)
    by_order true u t k e ih = ((ground arith, All-weaken j i m (ground arith) h), (h, s))
    by_order false true t k e ih = absurd (cc e)
    by_order false false t k e ih =
        (All-emplace (λ (e : ℕ × Buffer). i < e.0) j c m (ground arith) h, ih e)

Sorted-on_block : (f : Buffer → Buffer) (j : ℕ) (m : BlockMap) → Sorted m → Sorted (on_block f j m)
unfolding on_block
Sorted-on_block f j [] s = tt
Sorted-on_block f j ((i, b) ∷ m) (h, s) = by_key (j == i) (Sorted-on_block f j m s)
  where
    by_key :
        (t : Bool)
        → Sorted (on_block f j m)
        → Sorted (if t then (i, f b) ∷ m else (i, b) ∷ on_block f j m)
    by_key true ih = (h, s)
    by_key false ih = (All-on_block (λ (e : ℕ × Buffer). i < e.0) f j m (λ k b l. l) h, ih)

pub store_block-IsMap :
    (bs j : ℕ) (ds : List ℕ) (m : BlockMap)
    → bs ≤ length ds
    → bs * (j + 1) < 2 ^ 64
    → IsMap bs m
    → IsMap bs (store_block bs j ds m)
unfolding store_block write Buffer.create
store_block-IsMap bs j ds m enough small (s, hs) = elim (Option-cases (find_block j m)) [
  | inl e ↦
      subst (λ (t : BlockMap). IsMap bs (on_block (write ds) j t))
        (sym
          (ap (λ (o : Option Buffer). if has_block o then m else emplace j (Buffer.create bs) m) e))
        (written (emplace j (Buffer.create bs) m) (Sorted-emplace j (Buffer.create bs) m e s) (
          All-emplace (IsEntry bs) j (Buffer.create bs) m
            (record { sized = length-replicate {A = ℕ} bs 0; in_range = small }) hs))
  | inr (b, e) ↦
      subst (λ (t : BlockMap). IsMap bs (on_block (write ds) j t))
        (sym
          (ap (λ (o : Option Buffer). if has_block o then m else emplace j (Buffer.create bs) m) e))
        (written m s hs)
]
  where
    written : (t : BlockMap) → Sorted t → All (IsEntry bs) t → IsMap bs (on_block (write ds) j t)
    written t s hs =
        (Sorted-on_block (write ds) j t s, All-on_block (IsEntry bs) (write ds) j t kept hs)
      where
        kept : (i : ℕ) (b : Buffer) → IsEntry bs (i, b) → IsEntry bs (i, write ds b)
        kept i b h = record {
          sized = length-take (length b.bytes) ds (omega (arith, h.sized)) ∙ h.sized;
          in_range = h.in_range;
        }

-- The writes of `Rw11VirtDiskOver::Write` keep the map in order.
pub write_blocks-IsMap :
    (bs lba n : ℕ) (ds : List ℕ) (m : BlockMap)
    → bs * n ≤ length ds
    → bs * (lba + n) < 2 ^ 64
    → lba + n < 2 ^ 32
    → IsMap bs m
    → IsMap bs (write_blocks bs lba n ds m)
unfolding write_blocks
write_blocks-IsMap bs lba zero ds m enough small narrow h = h
write_blocks-IsMap bs lba (suc n) ds m enough small narrow h =
    subst (λ (j : ℕ). IsMap bs (write_blocks bs (lba + 1) n (drop bs ds) (store_block bs j ds m)))
      (sym (narrowed lba (omega arith)))
      (write_blocks-IsMap bs (lba + 1) n (drop bs ds) (store_block bs lba ds m)
        (rest (bs * n) (bs * suc n) (length ds) (length (drop bs ds)) (mul-suc bs n) enough
          (length-drop bs ds))
        (below (bs * (lba + 1 + n)) (bs * (lba + suc n))
          (mul-le bs (lba + 1 + n) (lba + suc n) (omega arith)) small)
        (omega arith)
        (store_block-IsMap bs lba ds m
          (first (bs * n) (bs * suc n) (length ds) (mul-suc bs n) enough)
          (below (bs * (lba + 1)) (bs * (lba + suc n))
            (mul-le bs (lba + 1) (lba + suc n) (omega arith)) small)
          h))
  where
    rest : (x y l r : ℕ) → y ≡ bs + x → y ≤ l → r ≡ l - bs → x ≤ r
    rest x y l r e h f = omega arith

    first : (x y l : ℕ) → y ≡ bs + x → y ≤ l → bs ≤ l
    first x y l e h = omega arith

    below : (x y : ℕ) → x ≤ y → y < 2 ^ 64 → x < 2 ^ 64
    below x y h l = omega arith
