-- ===== src/Rw11/Disk/BlockMap/Laws.antt =====
-- The block map: what is found after a store, and what is kept of its order and of its buffers.
use w.Base.{ℕ, ◌+◌, ◌*◌, ◌^◌, ◌<◌, ◌≡◌, refl, sym, ap, ◌∙◌, subst}
use w.Base.{Bool, true, false, Option, none, some, List, [], ◌∷◌, length, take, All}
use w.Base.{length-replicate, ◌==◌, ltb, if◌then◌else◌, if_true, if_false, arith}
use w.Base.{Option-cases, Bool-cases, inl, inr}
use w.Rw11.Disk.Buffer.{Buffer, write}
use w.Rw11.Disk.Buffer
use w.Rw11.Disk.BlockMap.{BlockMap, find_block, emplace, on_block, has_block, store_block}
use w.Rw11.Disk.View.{View}

-- The keys ascend.
abbrev pub Sorted : BlockMap → Type 0
Sorted [] = Unit
Sorted ((k, b) ∷ m) = All (λ (e : ℕ × Buffer). k < e.0) m × Sorted m

-- A buffer has the size of a block, and its end has an address of 64 bits.
pub record IsEntry (bs : ℕ) (e : ℕ × Buffer) : Type 0 where
  pub sized : length e.1.bytes ≡ bs
  pub in_range : bs * (e.0 + 1) < 2 ^ 64

abbrev pub IsMap : ℕ → BlockMap → Type 0
IsMap bs m = Sorted m × All (IsEntry bs) m

neq : (a b : ℕ) → a < b → (a == b) ≡ false
neq a b h = ground arith

neq_sym : (a b : ℕ) → b < a → (a == b) ≡ false
neq_sym a b h = ground arith

pub eq_of : (a b : ℕ) → (a == b) ≡ true → a ≡ b
eq_of a b h = ground arith

pub find_block-above :
    (k : ℕ) (m : BlockMap) → All (λ (e : ℕ × Buffer). k < e.0) m → find_block k m ≡ none
unfolding find_block
find_block-above k [] h = refl
find_block-above k ((j, b) ∷ m) (h, hs) = if_false _ _ (neq k j h) ∙ find_block-above k m hs

abbrev mapped : (Buffer → Buffer) → Option Buffer → Option Buffer
mapped f none = none
mapped f (some b) = some (f b)

find_block-on_block :
    (f : Buffer → Buffer) (j k : ℕ) (m : BlockMap)
    → find_block k (on_block f j m) ≡ (if k == j then mapped f (find_block k m) else find_block k m)
unfolding find_block on_block
find_block-on_block f j k [] = sym (both (k == j))
  where
    both : (b : Bool) → (if b then mapped f none else none) ≡ none
    both true = refl
    both false = refl
find_block-on_block f j k ((i, b) ∷ m) =
    by_keys (j == i) (k == i) (k == j) refl refl refl (find_block-on_block f j k m)
  where
    by_keys :
        (p q r : Bool)
        → (j == i) ≡ p
        → (k == i) ≡ q
        → (k == j) ≡ r
        → find_block k (on_block f j m) ≡ (if r then mapped f (find_block k m) else find_block k m)
        → find_block k (if p then (i, f b) ∷ m else (i, b) ∷ on_block f j m) ≡ (
            if r
            then mapped f (if q then some b else find_block k m)
            else (if q then some b else find_block k m))
    by_keys true true true p q r ih = if_true _ _ q
    by_keys true true false p q r ih = absurd (ground arith)
    by_keys true false true p q r ih = absurd (ground arith)
    by_keys true false false p q r ih = if_false _ _ q
    by_keys false true true p q r ih = absurd (ground arith)
    by_keys false true false p q r ih = if_true _ _ q
    by_keys false false true p q r ih = if_false _ _ q ∙ ih
    by_keys false false false p q r ih = if_false _ _ q ∙ ih

find_block-emplace :
    (j k : ℕ) (c : Buffer) (m : BlockMap)
    → find_block j m ≡ none
    → find_block k (emplace j c m) ≡ (if k == j then some c else find_block k m)
unfolding find_block emplace
find_block-emplace j k c [] h = refl
find_block-emplace j k c ((i, b) ∷ m) h =
    by_keys (ltb j i) (j == i) (k == i) (k == j) refl refl refl refl h
      (λ u. find_block-emplace j k c m u)
  where
    by_keys :
        (o p q r : Bool)
        → ltb j i ≡ o
        → (j == i) ≡ p
        → (k == i) ≡ q
        → (k == j) ≡ r
        → (if p then some b else find_block j m) ≡ none
        → (find_block j m ≡ none
            → find_block k (emplace j c m) ≡ (if k == j then some c else find_block k m))
        → find_block k (if o then (j, c) ∷ (i, b) ∷ m else (i, b) ∷ emplace j c m)
          ≡ (if r then some c else (if q then some b else find_block k m))
    by_keys true p q true o e f g h ih = if_true _ _ g
    by_keys true p true false o e f g h ih = if_false _ _ g ∙ if_true _ _ f
    by_keys true p false false o e f g h ih = if_false _ _ g ∙ if_false _ _ f
    by_keys false true q r o e f g h ih = absurd (cc h)
    by_keys false false true true o e f g h ih = absurd (ground arith)
    by_keys false false true false o e f g h ih = if_true _ _ f
    by_keys false false false true o e f g h ih = if_false _ _ f ∙ ih h ∙ if_true _ _ g
    by_keys false false false false o e f g h ih = if_false _ _ f ∙ ih h ∙ if_false _ _ g

-- The blocks of the map over those of another disk.
abbrev pub shown : List ℕ → Option Buffer → List ℕ
shown ds none = ds
shown ds (some b) = b.bytes

abbrev pub overlay : View → BlockMap → View
overlay v m k = shown (v k) (find_block k m)

find_block-sized :
    (bs k : ℕ) (m : BlockMap) (b : Buffer)
    → All (IsEntry bs) m
    → find_block k m ≡ some b
    → length b.bytes ≡ bs
unfolding find_block
find_block-sized bs k [] b hs e = absurd (cc e)
find_block-sized bs k ((j, c) ∷ m) b (h, hs) e = elim (Bool-cases (k == j)) [
  | inl t ↦ subst (λ (x : Buffer). length x.bytes ≡ bs) (some_inj (sym (if_true _ _ t) ∙ e)) h.sized
  | inr t ↦ find_block-sized bs k m b hs (sym (if_false _ _ t) ∙ e)
]
  where
    some_inj : {x y : Buffer} → some x ≡ some y → x ≡ y
    some_inj p = cc

-- A store shows the new bytes in its block, and nothing else changes.
pub overlay-store_block :
    (v : View) (bs j k : ℕ) (ds : List ℕ) (m : BlockMap)
    → All (IsEntry bs) m
    → overlay v (store_block bs j ds m) k ≡ (if k == j then take bs ds else overlay v m k)
unfolding store_block write Buffer.create
overlay-store_block v bs j k ds m hs = elim (Option-cases (find_block j m)) [
  | inl e ↦
      (ap (λ (t : BlockMap). overlay v (on_block (write ds) j t) k)
          (ap (λ (o : Option Buffer). if has_block o then m else emplace j (Buffer.create bs) m) e)
        ∙ ap (shown (v k)) (
            find_block-on_block (write ds) j k (emplace j (Buffer.create bs) m)
            ∙ ap (λ (o : Option Buffer). if k == j then mapped (write ds) o else o)
                (find_block-emplace j k (Buffer.create bs) m e))
        ∙ made (k == j))
  | inr (b, e) ↦
      (ap (λ (t : BlockMap). overlay v (on_block (write ds) j t) k)
          (ap (λ (o : Option Buffer). if has_block o then m else emplace j (Buffer.create bs) m) e)
        ∙ ap (shown (v k)) (find_block-on_block (write ds) j k m)
        ∙ there b (find_block-sized bs j m b hs e) (k == j) refl e)
]
  where
    made :
        (t : Bool)
        → shown (v k) (
            if t
            then mapped (write ds) (if t then some (Buffer.create bs) else find_block k m)
            else (if t then some (Buffer.create bs) else find_block k m))
          ≡ (if t then take bs ds else overlay v m k)
    made true = ap (λ (n : ℕ). take n ds) (length-replicate {A = ℕ} bs 0)
    made false = refl

    there :
        (b : Buffer)
        → length b.bytes ≡ bs
        → (t : Bool) → (k == j) ≡ t
        → find_block j m ≡ some b
        → shown (v k) (if t then mapped (write ds) (find_block k m) else find_block k m)
          ≡ (if t then take bs ds else overlay v m k)
    there b l true t e =
        ap (λ (i : ℕ). shown (v k) (mapped (write ds) (find_block i m))) (eq_of k j t)
        ∙ ap (λ (o : Option Buffer). shown (v k) (mapped (write ds) o)) e
        ∙ ap (λ (n : ℕ). take n ds) l
    there b l false t e = refl
