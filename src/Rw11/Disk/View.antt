-- ===== src/Rw11/Disk/View.antt =====
-- What a disk looks like from outside: its blocks by their number, independently of how they are
-- kept.
use w.Base.{ℕ, ◌%◌, ◌^◌, suc, zero, ◌+◌, ◌-◌, ◌*◌, ◌<◌, ◌≤◌, ◌≡◌, refl, sym, ap, ◌∙◌, Bool}
use w.Base.{List, [], ◌∷◌, ◌++◌, length, take, drop, get_or, ltb, leb}
use w.Base.{if◌then◌else◌, ◌&&◌, arith}

abbrev pub View : Type 0
View = ℕ → List ℕ

-- The bytes of `n` blocks from `lba` on.
unfoldable pub blocks : View → ℕ → ℕ → List ℕ
blocks v lba zero = []
blocks v lba (suc n) = v lba ++ blocks v (lba + 1) n

-- The view with `n` blocks from `lba` on taken from a buffer.
abbrev pub within : ℕ → ℕ → ℕ → Bool
within lba n k = leb lba k && ltb k (lba + n)

abbrev pub updated : ℕ → ℕ → ℕ → List ℕ → View → View
updated bs lba n ds v k = if within lba n k then take bs (drop (bs * (k - lba)) ds) else v k

-- The `n` bytes from address `a` on, of a store of bytes.
unfoldable pub window : ℕ → ℕ → (ℕ → ℕ) → List ℕ
window zero a f = []
window (suc n) a f = f a ∷ window n (a + 1) f

pub length-window : (n a : ℕ) (f : ℕ → ℕ) → length (window n a f) ≡ n
unfolding window
length-window zero a f = refl
length-window (suc n) a f = ap suc (length-window n (a + 1) f)

pub window-eq : {m n a b : ℕ} (f : ℕ → ℕ) → m ≡ n → a ≡ b → window m a f ≡ window n b f
window-eq f p q = rw (p, q) refl

pub window-append :
    (m n a : ℕ) (f : ℕ → ℕ) → window (m + n) a f ≡ window m a f ++ window n (a + m) f
unfolding window
window-append zero n a f =
    window-eq {m = zero + n} {n = n} {a = a} {b = a + zero} f (omega arith) (omega arith)
window-append (suc m) n a f =
    window-eq {m = suc m + n} {n = suc (m + n)} {a = a} {b = a} f (omega arith) refl
    ∙ ap (◌∷◌ (f a)) (
        window-append m n (a + 1) f
        ∙ ap (λ (t : List ℕ). window m (a + 1) f ++ t)
            (window-eq {m = n} {n = n} {a = a + 1 + m} {b = a + suc m} f refl (omega arith)))

pub window-same :
    (n a b : ℕ) (f g : ℕ → ℕ)
    → ((i : ℕ) → i < n → f (a + i) ≡ g (b + i))
    → window n a f ≡ window n b g
unfolding window
window-same zero a b f g h = refl
window-same (suc n) a b f g h = cons (ap f (omega arith) ∙ h 0 (omega arith) ∙ ap g (omega arith)) (
    window-same n (a + 1) (b + 1) f g
      (λ i l. ap f (omega arith) ∙ h (suc i) (omega arith) ∙ ap g (omega arith)))
  where
    cons : {x y : ℕ} {xs ys : List ℕ} → x ≡ y → xs ≡ ys → ◌≡◌ {A = List ℕ} (x ∷ xs) (y ∷ ys)
    cons p q = rw (p, q) refl

-- A file as a store of bytes: zeros behind its end.
abbrev pub bytes_at : List ℕ → ℕ → ℕ
bytes_at b i = get_or b i 0

-- The file as a disk.
abbrev pub file_view : ℕ → List ℕ → View
file_view bs b k = window bs (bs * k) (bytes_at b)

-- A block number that fits into the key of a block map.
pub narrowed : (k : ℕ) → k < 2 ^ 32 → k % 2 ^ 32 ≡ k
narrowed k h = omega arith

pub mul-suc : (bs n : ℕ) → bs * suc n ≡ bs + bs * n
mul-suc bs n = grind arith

pub mul-add : (bs a b : ℕ) → bs * (a + b) ≡ bs * a + bs * b
mul-add bs a b = grind arith

pub mul-le : (bs a b : ℕ) → a ≤ b → bs * a ≤ bs * b
mul-le bs a b h = grind arith

pub blocks-window :
    (bs : ℕ) (b : List ℕ) (n lba : ℕ)
    → blocks (file_view bs b) lba n ≡ window (bs * n) (bs * lba) (bytes_at b)
unfolding blocks window
blocks-window bs b zero lba =
    window-eq {m = zero} {n = bs * zero} {a = bs * lba} {b = bs * lba} (bytes_at b) (grind arith)
      refl
blocks-window bs b (suc n) lba =
    let f = bytes_at b in
    ap (λ (t : List ℕ). window bs (bs * lba) f ++ t)
      (blocks-window bs b n (lba + 1)
        ∙ window-eq {m = bs * n} {n = bs * n} {a = bs * (lba + 1)} {b = bs * lba + bs} f refl
            (grind arith))
    ∙ sym (window-append bs (bs * n) (bs * lba) f)
    ∙ window-eq {m = bs + bs * n} {n = bs * suc n} {a = bs * lba} {b = bs * lba} f
        (sym (mul-suc bs n)) refl
