-- ===== src/Rw11/Disk/Ram/Laws.antt =====
-- Rw11VirtDiskRam.cpp against its view: the written blocks over a pattern.
use w.Base.{ℕ, suc, zero, ◌+◌, ◌-◌, ◌*◌, ◌%◌, ◌^◌, ◌<◌, ◌≤◌, ◌≡◌, refl, sym, ap, ◌∙◌}
use w.Base.{true, false, none, some, List, [], length, length-append}
use w.Base.{◌==◌, ==_refl, leb, ◌&&◌, ◌||◌, if_true, if_false, arith}
use w.Base.{Bool-cases, inl, inr}
use w.Rw11.Disk.Pattern.{Pattern, Geometry, geometry, fill, word_bytes, pattern_words, read_pattern}
use w.Rw11.Disk.Ram.{RamDisk, pattern_at}
use w.Rw11.Disk.View.{View}

-- The bytes of a pass.
abbrev chunk : Pattern → ℕ
chunk Pattern.zeros = 2
chunk Pattern.ones = 2
chunk Pattern.dead = 4
chunk Pattern.test = 16

chunk-words :
    (pat : Pattern) (lba addr : ℕ) (d : Geometry)
    → length (word_bytes (pattern_words pat lba addr d)) ≡ chunk pat
unfolding pattern_words
chunk-words Pattern.zeros lba addr d = refl
chunk-words Pattern.ones lba addr d = refl
chunk-words Pattern.dead lba addr d = refl
chunk-words Pattern.test lba addr d = refl

length-fill :
    (pat : Pattern) (lba : ℕ) (d : Geometry) (q fuel left addr : ℕ)
    → 0 < chunk pat
    → q ≤ fuel
    → left ≡ chunk pat * q
    → length (fill pat lba d fuel left addr) ≡ left
unfolding fill
length-fill pat lba d q zero left addr c h e =
    sym (e ∙ ap (λ (t : ℕ). chunk pat * t) {x = q} {y = 0} (omega arith) ∙ grind arith)
length-fill pat lba d zero (suc fuel) left addr c h e =
    let z : left ≡ 0 = grind (arith, e) in ap length (if_true _ _ (zero_test left z)) ∙ sym z
  where
    zero_test : (n : ℕ) → n ≡ 0 → (n == 0) ≡ true
    zero_test n h = ground arith
length-fill pat lba d (suc q) (suc fuel) left addr c h e =
    let bytes = word_bytes (pattern_words pat lba addr d) in
    let w = chunk-words pat lba addr d in
    let s : chunk pat * suc q ≡ chunk pat + chunk pat * q = grind arith in
    let ih =
      length-fill pat lba d q fuel (left - length bytes) ((addr + 16) % 2 ^ 64) c (omega arith)
        (less left (length bytes) (chunk pat) (chunk pat * q) (e ∙ s) w) in
    ap length (if_false _ _ (positive left (chunk pat) (chunk pat * q) c (e ∙ s)))
    ∙ length-append bytes (fill pat lba d fuel (left - length bytes) ((addr + 16) % 2 ^ 64))
    ∙ whole left (length bytes) (chunk pat) (chunk pat * q) _ (e ∙ s) w ih
  where
    less : (l b c r : ℕ) → l ≡ c + r → b ≡ c → l - b ≡ r
    less l b c r h k = omega arith

    positive : (l c r : ℕ) → 0 < c → l ≡ c + r → (l == 0) ≡ false
    positive l c r h k = ground arith

    whole : (l b c r x : ℕ) → l ≡ c + r → b ≡ c → x ≡ l - b → b + x ≡ l
    whole l b c r x h k e = omega arith

-- A geometry that the pattern can be made for: the blocks hold a boot message and whole passes.
pub record HasPatterns (d : RamDisk) : Type 0 where
  pub units : ℕ
  pub block_size : d.disk.blk_size ≡ 16 * units
  pub boot_fits : 22 < d.disk.blk_size
  pub sectors : 0 < d.disk.n_sect
  pub heads : 0 < d.disk.n_head

-- What an unwritten block shows.
abbrev pub pattern_view : RamDisk → View
pattern_view d k = elim (pattern_at k d) [ none ↦ [] | some ds ↦ ds ]

fill_whole :
    (pat : Pattern) (lba : ℕ) (d : Geometry) (u : ℕ) (addr : ℕ)
    → d.blk_size ≡ 16 * u
    → length (fill pat lba d d.blk_size d.blk_size addr) ≡ d.blk_size
fill_whole Pattern.zeros lba d u addr e =
    length-fill Pattern.zeros lba d (8 * u) _ _ addr (omega arith) (omega arith) (omega arith)
fill_whole Pattern.ones lba d u addr e =
    length-fill Pattern.ones lba d (8 * u) _ _ addr (omega arith) (omega arith) (omega arith)
fill_whole Pattern.dead lba d u addr e =
    length-fill Pattern.dead lba d (4 * u) _ _ addr (omega arith) (omega arith) (omega arith)
fill_whole Pattern.test lba d u addr e =
    length-fill Pattern.test lba d u _ _ addr (omega arith) (omega arith) (omega arith)

pub pattern_at-some :
    (k : ℕ) (d : RamDisk) → HasPatterns d → (ds : List ℕ) × (pattern_at k d ≡ some ds)
unfolding pattern_at read_pattern
pattern_at-some k d h = elim (Bool-cases ((k == 0) && d.no_boot)) [
  | inl t ↦ (_, if_true _ _ t ∙ if_false _ _ (above d.disk.blk_size h.boot_fits))
  | inr t ↦
      let whole =
        fill_whole d.pat_typ k (geometry d.disk) h.units (k * d.disk.blk_size % 2 ^ 64)
          h.block_size in
      (
        _,
        if_false _ _ t
            ∙ if_false _ _ (usable d.disk.n_sect d.disk.n_head h.sectors h.heads)
            ∙ if_true _ _ (ap (λ (n : ℕ). n == d.disk.blk_size) whole ∙ ==_refl d.disk.blk_size),
      )
]
  where
    above : (n : ℕ) → 22 < n → leb n 22 ≡ false
    above n h = ground arith

    usable : (a b : ℕ) → 0 < a → 0 < b → ((a == 0) || (b == 0)) ≡ false
    usable a b h k = ground arith
