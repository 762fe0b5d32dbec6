-- ===== src/Tools/Time/Laws.antt =====
-- The arithmetic of Rtime.ipp.
use w.Base.{ℕ, suc, ◌+◌, ◌-◌, ◌*◌, ◌<◌, ◌≤◌, ◌≡◌, refl, sym, ap, subst, ◌∙◌, true, false}
use w.Base.{◌&&◌, ◌||◌, ltb, leb, arith, Bool-cases, inl, inr, if_true, if_false, bind_some}
use w.Base.{◌↔◌, ◌^◌, Option, some}
use w.Base.Int.{ℤ, pos, negsuc, ◌+ℤ◌, ◌-ℤ◌, lt_int, eq_int, up, down}
use w.Tools.Time.{Time, billion, int64, time_of, fixup, add, subtract, less}

-- Between 0 and 999999999 nanoseconds.
pub record IsNormal (t : Time) : Type 0 where
  pub rest : ℕ
  pub nsec_is : t.nsec ≡ pos rest
  pub below : rest < billion

-- The time `r` is the sum of `t` and `u`, in nanoseconds.
pub record IsSum (t u r : Time) : Type 0 where
  pub sum :
      billion * (up r.sec + down t.sec + down u.sec) + (up r.nsec + down t.nsec + down u.nsec)
      ≡ billion * (down r.sec + up t.sec + up u.sec) + (down r.nsec + up t.nsec + up u.nsec)

-- Whole numbers in their parts.
plus-parts : (a b : ℤ) → up (a +ℤ b) + down a + down b ≡ down (a +ℤ b) + up a + up b
plus-parts (pos m) (pos n) = omega arith
plus-parts (pos m) (negsuc n) = ground arith
plus-parts (negsuc m) (pos n) = ground arith
plus-parts (negsuc m) (negsuc n) = omega arith

minus-parts : (a b : ℤ) → up a + down (a -ℤ b) + down b ≡ down a + up (a -ℤ b) + up b
minus-parts (pos m) (pos n) = ground arith
minus-parts (pos m) (negsuc n) = omega arith
minus-parts (negsuc m) (pos n) = omega arith
minus-parts (negsuc m) (negsuc n) = ground arith

-- Seconds of 64 bits, with a carry to both sides.
pub record HasCarry (s : ℤ) : Type 0 where
  pub above : up s + 1 < 2 ^ 63
  pub below : down s < 2 ^ 63

int64-small : (z : ℤ) → up z < 2 ^ 63 → down z ≤ 2 ^ 63 → int64 z ≡ some z
int64-small (pos n) h k = ground arith
int64-small (negsuc n) h k = ground arith

time_of-small :
    (s n : ℤ)
    → up s < 2 ^ 63
    → down s ≤ 2 ^ 63
    → up n < 2 ^ 63
    → down n ≤ 2 ^ 63
    → time_of s n ≡ some (record { sec = s; nsec = n })
time_of-small s n a b c d = bind_some _ _ (int64-small s a b) ∙ bind_some _ _ (int64-small n c d)

next_small : (s : ℤ) → HasCarry s → (up (s +ℤ pos 1) < 2 ^ 63) × (down (s +ℤ pos 1) ≤ 2 ^ 63)
next_small (pos n) h = grind (arith, h.above)
next_small (negsuc n) h = (below_carry n h.below, above_carry n h.below)
  where
    below_carry : (n : ℕ) → suc n < 2 ^ 63 → up (negsuc n +ℤ pos 1) < 2 ^ 63
    below_carry n h = ground arith

    above_carry : (n : ℕ) → suc n < 2 ^ 63 → down (negsuc n +ℤ pos 1) ≤ 2 ^ 63
    above_carry n h = ground arith

prev_small : (s : ℤ) → HasCarry s → (up (s -ℤ pos 1) < 2 ^ 63) × (down (s -ℤ pos 1) ≤ 2 ^ 63)
prev_small (pos n) h = (below_carry n h.above, above_carry n h.above)
  where
    below_carry : (n : ℕ) → n + 1 < 2 ^ 63 → up (pos n -ℤ pos 1) < 2 ^ 63
    below_carry n h = ground arith

    above_carry : (n : ℕ) → n + 1 < 2 ^ 63 → down (pos n -ℤ pos 1) ≤ 2 ^ 63
    above_carry n h = ground arith
prev_small (negsuc n) h = (omega arith, omega (arith, h.below))

-- The same time, in normal form.
record Fixed (x : Time) (res : Option Time) : Type 0 where
  r : Time
  returns : res ≡ some r
  normal : IsNormal r
  same :
      billion * (up r.sec + down x.sec) + (up r.nsec + down x.nsec)
      ≡ billion * (down r.sec + up x.sec) + (down r.nsec + up x.nsec)

fixup-Fixed :
    (s n : ℤ)
    → up n < 2 * billion
    → down n < billion
    → HasCarry s
    → Fixed (record { sec = s; nsec = n }) (fixup (record { sec = s; nsec = n }))
unfolding fixup
fixup-Fixed s (pos n) h k c = elim (Bool-cases (leb billion n)) [
  | inl t ↦
      let e : pos n -ℤ pos billion ≡ pos (n - billion) = if_false _ _ (enough n t) in
      let (a, b) = next_small s c in
      record {
        r = record { sec = s +ℤ pos 1; nsec = pos (n - billion) };
        returns =
            if_true _ _ t
            ∙ ap (time_of (s +ℤ pos 1)) e
            ∙ time_of-small (s +ℤ pos 1) (pos (n - billion)) a b (omega arith) (omega arith);
        normal = record { rest = n - billion; nsec_is = refl; below = omega arith };
        same =
            carry (up (s +ℤ pos 1)) (down s) (down (s +ℤ pos 1)) (up s) (plus-parts s (pos 1))
              (ground arith);
      }
  | inr t ↦ record {
    r = record { sec = s; nsec = pos n };
    returns = if_false _ _ t ∙ if_false _ _ (no_sign n);
    normal = record { rest = n; nsec_is = refl; below = ground arith };
    same = omega arith;
  }
]
  where
    no_sign : (n : ℕ) → ltb n 0 ≡ false
    no_sign n = ground arith

    enough : (n : ℕ) → leb billion n ≡ true → ltb n billion ≡ false
    enough n t = ground arith

    reached : (n : ℕ) → leb billion n ≡ true → billion ≤ n
    reached n t = ground arith

    carry :
        (a b c d : ℕ)
        → a + b + 0 ≡ c + d + 1
        → billion ≤ n
        → billion * (a + b) + (n - billion + 0) ≡ billion * (c + d) + (0 + n)
    carry a b c d h l = omega arith
fixup-Fixed s (negsuc n) h k c =
    let e : negsuc n +ℤ pos billion ≡ pos (billion - suc n) = if_true _ _ (fits n k) in
    let (a, b) = prev_small s c in
    record {
      r = record { sec = s -ℤ pos 1; nsec = pos (billion - suc n) };
      returns =
          ap (time_of (s -ℤ pos 1)) e
          ∙ time_of-small (s -ℤ pos 1) (pos (billion - suc n)) a b (omega arith) (omega arith);
      normal = record { rest = billion - suc n; nsec_is = refl; below = omega arith };
      same = borrow (up (s -ℤ pos 1)) (down s) (down (s -ℤ pos 1)) (up s) (minus-parts s (pos 1)) k;
    }
  where
    fits : (n : ℕ) → suc n < billion → ltb n billion ≡ true
    fits n h = ground arith

    borrow :
        (a b c d : ℕ)
        → d + c + 0 ≡ b + a + 1
        → suc n < billion
        → billion * (a + b) + (billion - suc n + suc n) ≡ billion * (c + d) + (0 + 0)
    borrow a b c d h l = omega arith

-- For two times in normal form the sum of whose seconds, with a carry to both sides, is a signed
-- number of 64 bits, `+=` does not overflow, and gives a time that is in normal form and the exact
-- sum.
pub add-IsSum :
    (t u : Time)
    → IsNormal t
    → IsNormal u
    → HasCarry (t.sec +ℤ u.sec)
    → (r : Time) × (add t u ≡ some r) × IsNormal r × IsSum t u r
unfolding add
add-IsSum t u p q c =
    let a = in_range t.nsec u.nsec p.rest q.rest p.nsec_is q.nsec_is p.below q.below in
    let b = no_minus t.nsec u.nsec p.rest q.rest p.nsec_is q.nsec_is in
    let f = fixup-Fixed (t.sec +ℤ u.sec) (t.nsec +ℤ u.nsec) a b c in
    (
      f.r,
      bind_some _ fixup (
            time_of-small (t.sec +ℤ u.sec) (t.nsec +ℤ u.nsec) (omega (arith, c.above))
              (omega (arith, c.below)) (omega (arith, a)) (omega (arith, b)))
          ∙ f.returns,
      f.normal,
      record {
        sum =
            join _ _ _ _ _ _ _ _ _ _ _ _ _ _ _ _ f.same (plus-parts t.sec u.sec)
              (plus-parts t.nsec u.nsec);
      },
    )
  where
    in_range :
        (a b : ℤ) (m n : ℕ)
        → a ≡ pos m
        → b ≡ pos n
        → m < billion
        → n < billion
        → up (a +ℤ b) < 2 * billion
    in_range a b m n e f h k = rw (e, f) (sum_small m n h k)
      where
        sum_small : (m n : ℕ) → m < billion → n < billion → m + n < 2 * billion
        sum_small m n h k = omega arith

    no_minus : (a b : ℤ) (m n : ℕ) → a ≡ pos m → b ≡ pos n → down (a +ℤ b) < billion
    no_minus a b m n e f = rw (e, f) (omega arith)

    join :
        (rs rd ns nd xs xd ms md ts td us ud tn tm un um : ℕ)
        → billion * (rs + xd) + (ns + md) ≡ billion * (rd + xs) + (nd + ms)
        → xs + td + ud ≡ xd + ts + us
        → ms + tm + um ≡ md + tn + un
        → billion * (rs + td + ud) + (ns + tm + um) ≡ billion * (rd + ts + us) + (nd + tn + un)
    join rs rd ns nd xs xd ms md ts td us ud tn tm un um a b c = omega arith

-- For two times in normal form the difference of whose seconds, with a carry to both sides, is a
-- signed number of 64 bits, `-=` does not overflow, and gives a time that is in normal form and the
-- exact difference.
pub subtract-IsSum :
    (t u : Time)
    → IsNormal t
    → IsNormal u
    → HasCarry (t.sec -ℤ u.sec)
    → (r : Time) × (subtract t u ≡ some r) × IsNormal r × IsSum r u t
unfolding subtract
subtract-IsSum t u p q c =
    let a = in_range t.nsec u.nsec p.rest q.rest p.nsec_is q.nsec_is p.below q.below in
    let b = low t.nsec u.nsec p.rest q.rest p.nsec_is q.nsec_is p.below q.below in
    let f = fixup-Fixed (t.sec -ℤ u.sec) (t.nsec -ℤ u.nsec) a b c in
    (
      f.r,
      bind_some _ fixup (
            time_of-small (t.sec -ℤ u.sec) (t.nsec -ℤ u.nsec) (omega (arith, c.above))
              (omega (arith, c.below)) (omega (arith, a)) (omega (arith, b)))
          ∙ f.returns,
      f.normal,
      record {
        sum =
            join _ _ _ _ _ _ _ _ _ _ _ _ _ _ _ _ f.same (minus-parts t.sec u.sec)
              (minus-parts t.nsec u.nsec);
      },
    )
  where
    in_range :
        (a b : ℤ) (m n : ℕ)
        → a ≡ pos m
        → b ≡ pos n
        → m < billion
        → n < billion
        → up (a -ℤ b) < 2 * billion
    in_range a b m n e f h k = rw (e, f) (small m n h)
      where
        small : (m n : ℕ) → m < billion → up (pos m -ℤ pos n) < 2 * billion
        small m n h = ground arith

    low :
        (a b : ℤ) (m n : ℕ)
        → a ≡ pos m
        → b ≡ pos n
        → m < billion
        → n < billion
        → down (a -ℤ b) < billion
    low a b m n e f h k = rw (e, f) (small m n k)
      where
        small : (m n : ℕ) → n < billion → down (pos m -ℤ pos n) < billion
        small m n h = ground arith

    join :
        (rs rd ns nd xs xd ms md ts td us ud tn tm un um : ℕ)
        → billion * (rs + xd) + (ns + md) ≡ billion * (rd + xs) + (nd + ms)
        → ts + xd + ud ≡ td + xs + us
        → tn + md + um ≡ tm + ms + un
        → billion * (ts + rd + ud) + (tn + nd + um) ≡ billion * (td + rs + us) + (tm + ns + un)
    join rs rd ns nd xs xd ms md ts td us ud tn tm un um a b c = omega arith

-- `<` on times in normal form is the order of their nanoseconds.
pub less_iff :
    (t u : Time)
    → IsNormal t
    → IsNormal u
    → (less t u ≡ true) ↔ (
        billion * (up t.sec + down u.sec) + up t.nsec
        < billion * (down t.sec + up u.sec) + up u.nsec)
unfolding less
less_iff t u p q =
    subst
      (λ (z : ℤ). (lt_int t.sec u.sec || (eq_int t.sec u.sec && lt_int z u.nsec) ≡ true) ↔ (
        billion * (up t.sec + down u.sec) + up z < billion * (down t.sec + up u.sec) + up u.nsec))
      (sym p.nsec_is)
      (subst
        (λ (z : ℤ).
          (lt_int t.sec u.sec || (eq_int t.sec u.sec && lt_int (pos p.rest) z) ≡ true)
          ↔ (billion * (up t.sec + down u.sec) + p.rest < billion * (down t.sec + up u.sec) + up z))
        (sym q.nsec_is) (by_sec t.sec u.sec p.rest q.rest p.below q.below))
  where
    by_sec :
        (a b : ℤ) (m n : ℕ)
        → m < billion
        → n < billion
        → ((lt_int a b || (eq_int a b && ltb m n)) ≡ true)
          ↔ (billion * (up a + down b) + m < billion * (down a + up b) + n)
    by_sec (pos i) (pos j) m n h k = ground arith
    by_sec (pos i) (negsuc j) m n h k = ground arith
    by_sec (negsuc i) (pos j) m n h k = ground arith
    by_sec (negsuc i) (negsuc j) m n h k = ground arith
