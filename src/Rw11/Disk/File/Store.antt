-- ===== src/Rw11/Disk/File/Store.antt =====
-- A file as a list of bytes, read and written in the middle, behind its end with zeros.
use w.Base.{ℕ, suc, zero, ◌+◌, ◌-◌, ◌<◌, ◌≤◌, ◌≡◌, refl, sym, ap, ◌∙◌}
use w.Base.{List, [], ◌∷◌, ◌++◌, length, length-append, length-replicate, length-drop, take, drop}
use w.Base.{replicate, get_or, ltb, if◌then◌else◌, arith}
use w.Base.{Bool-cases, inl, inr}
use w.Rw11.Disk.View.{bytes_at, window, window-same}

module _ {A : Type 0} (d : A) where
  pub get_or-left : (xs ys : List A) (i : ℕ) → i < length xs → get_or (xs ++ ys) i d ≡ get_or xs i d
  get_or-left [] ys i h = absurd (omega arith)
  get_or-left (x ∷ xs) ys zero h = refl
  get_or-left (x ∷ xs) ys (suc i) h = get_or-left xs ys i (omega arith)

  pub get_or-right :
      (xs ys : List A) (i : ℕ) → length xs ≤ i → get_or (xs ++ ys) i d ≡ get_or ys (i - length xs) d
  get_or-right [] ys i h = ap (λ (t : ℕ). get_or ys t d) (omega arith)
  get_or-right (x ∷ xs) ys zero h = absurd (omega arith)
  get_or-right (x ∷ xs) ys (suc i) h =
      get_or-right xs ys i (omega arith) ∙ ap (λ (t : ℕ). get_or ys t d) (omega arith)

  pub get_or-take : (n : ℕ) (xs : List A) (i : ℕ) → i < n → get_or (take n xs) i d ≡ get_or xs i d
  get_or-take zero xs i h = absurd (omega arith)
  get_or-take (suc n) [] i h = refl
  get_or-take (suc n) (x ∷ xs) zero h = refl
  get_or-take (suc n) (x ∷ xs) (suc i) h = get_or-take n xs i (omega arith)

  pub get_or-drop : (n : ℕ) (xs : List A) (i : ℕ) → get_or (drop n xs) i d ≡ get_or xs (n + i) d
  get_or-drop zero xs i = ap (λ (t : ℕ). get_or xs t d) (omega arith)
  get_or-drop (suc n) [] i = refl
  get_or-drop (suc n) (x ∷ xs) i =
      get_or-drop n xs i
      ∙ ap (λ (t : ℕ). get_or (x ∷ xs) t d) {x = suc (n + i)} {y = suc n + i} (omega arith)

  pub get_or-replicate : (n i : ℕ) → get_or (replicate n d) i d ≡ d
  get_or-replicate zero i = refl
  get_or-replicate (suc n) zero = refl
  get_or-replicate (suc n) (suc i) = get_or-replicate n i

  pub get_or-past : (xs : List A) (i : ℕ) → length xs ≤ i → get_or xs i d ≡ d
  get_or-past [] i h = refl
  get_or-past (x ∷ xs) zero h = absurd (omega arith)
  get_or-past (x ∷ xs) (suc i) h = get_or-past xs i (omega arith)

pub length-take : {A : Type 0} (n : ℕ) (xs : List A) → n ≤ length xs → length (take n xs) ≡ n
length-take zero xs h = refl
length-take (suc n) [] h = absurd (omega arith)
length-take (suc n) (x ∷ xs) h = ap suc (length-take n xs (omega arith))

pub length-take-le : {A : Type 0} (n : ℕ) (xs : List A) → length (take n xs) ≤ n
length-take-le zero xs = omega arith
length-take-le (suc n) [] = omega arith
length-take-le (suc n) (x ∷ xs) = omega (arith, length-take-le n xs)

drop-nil : {A : Type 0} (n : ℕ) → ◌≡◌ {A = List A} (drop n []) []
drop-nil zero = refl
drop-nil (suc n) = refl

pub drop-drop : {A : Type 0} (m n : ℕ) (xs : List A) → drop n (drop m xs) ≡ drop (m + n) xs
drop-drop zero n xs = ap (λ (t : ℕ). drop t xs) {x = n} {y = zero + n} (omega arith)
drop-drop (suc m) n [] = drop-nil n ∙ sym (drop-nil (suc m + n))
drop-drop (suc m) n (x ∷ xs) =
    drop-drop m n xs
    ∙ ap (λ (t : ℕ). drop t (x ∷ xs)) {x = suc (m + n)} {y = suc m + n} (omega arith)

pub bytes_at-zeros : (xs : List ℕ) (n i : ℕ) → bytes_at (xs ++ replicate n 0) i ≡ bytes_at xs i
bytes_at-zeros xs n i = elim (Bool-cases (ltb i (length xs))) [
  | inl h ↦ get_or-left 0 xs _ i (ground arith)
  | inr h ↦
      (get_or-right 0 xs _ i (ground arith)
        ∙ get_or-replicate 0 n _
        ∙ sym (get_or-past 0 xs i (ground arith)))
]

-- A list is the window of its own bytes.
pub list-window : (xs : List ℕ) (n : ℕ) → length xs ≡ n → xs ≡ window n 0 (bytes_at xs)
unfolding window
list-window [] zero h = refl
list-window [] (suc n) h = absurd (omega arith)
list-window (x ∷ xs) zero h = absurd (omega arith)
list-window (x ∷ xs) (suc n) h = ap (◌∷◌ x) (
    list-window xs n (omega arith)
    ∙ window-same n 0 1 (bytes_at xs) (bytes_at (x ∷ xs)) (λ i l. shift i))
  where
    shift : (i : ℕ) → bytes_at xs (0 + i) ≡ bytes_at (x ∷ xs) (1 + i)
    shift i =
        ap (bytes_at xs) {x = 0 + i} {y = i} (omega arith)
        ∙ ap (bytes_at (x ∷ xs)) {x = suc i} {y = 1 + i} (omega arith)

-- A list of `n` bytes that agree with `f` from `a` on.
pub list-agrees :
    (xs : List ℕ) (n a : ℕ) (f : ℕ → ℕ)
    → length xs ≡ n
    → ((i : ℕ) → i < n → bytes_at xs i ≡ f (a + i))
    → xs ≡ window n a f
list-agrees xs n a f h k =
    list-window xs n h
    ∙ window-same n 0 a (bytes_at xs) f
        (λ i l. ap (bytes_at xs) {x = 0 + i} {y = i} (omega arith) ∙ k i l)

-- A read that is filled up with zeros.
pub filled-window :
    (n p : ℕ) (b : List ℕ)
    → take n (drop p b) ++ replicate (n - length (take n (drop p b))) 0 ≡ window n p (bytes_at b)
filled-window n p b =
    let got = take n (drop p b) in
    list-agrees (got ++ replicate (n - length got) 0) n p (bytes_at b)
      (omega (
        arith,
        length-append got (replicate (n - length got) 0),
        length-replicate {A = ℕ} (n - length got) 0,
        length-take-le n (drop p b),
      ))
      (λ i l.
        bytes_at-zeros got (n - length got) i
        ∙ get_or-take 0 n (drop p b) i l
        ∙ get_or-drop 0 p b i)

-- What a write at `p` makes of a file.
abbrev pub overwritten : ℕ → List ℕ → List ℕ → List ℕ
overwritten p ds b = take p (b ++ replicate (p - length b) 0) ++ (ds ++ drop (p + length ds) b)

length-front : (p : ℕ) (b : List ℕ) → length (take p (b ++ replicate (p - length b) 0)) ≡ p
length-front p b = length-take p (b ++ replicate (p - length b) 0) (
    omega (
      arith,
      length-append b (replicate (p - length b) 0),
      length-replicate {A = ℕ} (p - length b) 0,
    ))

pub length-overwritten :
    (p : ℕ) (ds b : List ℕ)
    → length (overwritten p ds b)
      ≡ (if ltb (length b) (p + length ds) then p + length ds else length b)
length-overwritten p ds b =
    let front = take p (b ++ replicate (p - length b) 0) in
    by_size (length b) (p + length ds) (length (overwritten p ds b)) (
      omega (
        arith,
        length-append front (ds ++ drop (p + length ds) b),
        length-append ds (drop (p + length ds) b),
        length-drop (p + length ds) b,
        length-front p b,
      ))
  where
    by_size : (n m l : ℕ) → l ≡ m + (n - m) → l ≡ (if ltb n m then m else n)
    by_size n m l h = ground arith

pub overwritten-front :
    (p : ℕ) (ds b : List ℕ) (i : ℕ) → i < p → bytes_at (overwritten p ds b) i ≡ bytes_at b i
overwritten-front p ds b i h =
    let front = take p (b ++ replicate (p - length b) 0) in
    get_or-left 0 front _ i (omega (arith, length-front p b))
    ∙ get_or-take 0 p _ i h
    ∙ bytes_at-zeros b (p - length b) i

pub overwritten-written :
    (p : ℕ) (ds b : List ℕ) (i : ℕ)
    → i < length ds
    → bytes_at (overwritten p ds b) (p + i) ≡ bytes_at ds i
overwritten-written p ds b i h =
    let front = take p (b ++ replicate (p - length b) 0) in
    get_or-right 0 front _ (p + i) (omega (arith, length-front p b))
    ∙ ap (bytes_at (ds ++ drop (p + length ds) b)) {x = p + i - length front} {y = i}
        (omega (arith, length-front p b))
    ∙ get_or-left 0 ds _ i h

pub overwritten-back :
    (p : ℕ) (ds b : List ℕ) (i : ℕ)
    → p + length ds ≤ i
    → bytes_at (overwritten p ds b) i ≡ bytes_at b i
overwritten-back p ds b i h =
    let front = take p (b ++ replicate (p - length b) 0) in
    get_or-right 0 front _ i (omega (arith, length-front p b))
    ∙ get_or-right 0 ds _ (i - length front) (omega (arith, length-front p b))
    ∙ get_or-drop 0 (p + length ds) b _
    ∙ ap (bytes_at b) {x = p + length ds + (i - length front - length ds)} {y = i}
        (omega (arith, length-front p b))
