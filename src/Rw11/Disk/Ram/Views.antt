-- ===== src/Rw11/Disk/Ram/Views.antt =====
-- `Read` and `Write` of Rw11VirtDiskRam.cpp, in the view of the disk.
use w.Base.{
  ℕ, arith, ◌%◌, suc, zero, ◌+◌, ◌*◌, ◌^◌, ◌<◌, ◌≤◌, ◌≡◌, refl, sym, ap, ◌∙◌, subst, Bool, true,
  false,
}
use w.Base.{Option, none, some, List, [], ◌++◌, length, drop, if◌then◌else◌, bind_some}
use w.Base.{Option-cases, inl, inr}
use w.Rw11.Disk.Ram.{RamDisk, pattern_at, read_block, read_blocks, read, write_blocks, write, tally}
use w.Rw11.Disk.Ram.Laws.{HasPatterns, pattern_view, pattern_at-some}
use w.Rw11.Disk.BlockMap.{BlockMap, find_block, store_block, has_block}
use w.Rw11.Disk.BlockMap.Laws.{IsMap, shown, overlay}
use w.Rw11.Disk.BlockMap.Kept.{write_blocks-IsMap}
use w.Rw11.Disk.Over
use w.Rw11.Disk.Over.Laws.{write_blocks-updated, blocks-same}
use w.Rw11.Disk.View.{blocks, narrowed, updated}
use w.Rw11.Disk.Stat

-- The same disk, but for its counters.
record Same (d e : RamDisk) : Type 0 where
  map_kept : e.blk_map ≡ d.blk_map
  patterns_kept : (k : ℕ) → pattern_at k e ≡ pattern_at k d
  has_patterns : HasPatterns e

Same-trans : (d e f : RamDisk) → Same d e → Same e f → Same d f
Same-trans d e f p q = record {
  map_kept = q.map_kept ∙ p.map_kept;
  patterns_kept = λ k. q.patterns_kept k ∙ p.patterns_kept k;
  has_patterns = q.has_patterns;
}

tally-Same : (i n : ℕ) (d : RamDisk) → HasPatterns d → Same d (tally i n d)
unfolding pattern_at
tally-Same i n d h = record {
  map_kept = refl;
  patterns_kept = λ k. refl;
  has_patterns = record {
    units = h.units;
    block_size = h.block_size;
    boot_fits = h.boot_fits;
    sectors = h.sectors;
    heads = h.heads;
  };
}

record Reads (d : RamDisk) (ds : List ℕ) (res : Option (List ℕ × RamDisk)) : Type 0 where
  after : RamDisk
  returns : res ≡ some (ds, after)
  same : Same d after

read_block-Reads :
    (k : ℕ) (d : RamDisk)
    → HasPatterns d
    → Reads d (overlay (pattern_view d) d.blk_map k) (read_block k d (find_block k d.blk_map))
read_block-Reads k d h = elim (Option-cases (find_block k d.blk_map)) [
  | inl e ↦
      let (ds, p) = pattern_at-some k d h in
      record {
        after = d;
        returns =
            ap (read_block k d) e
            ∙ bind_some _ _ p
            ∙ ap (λ (t : List ℕ). some (t, d))
                (sym (
                  ap (shown (pattern_view d k)) e
                  ∙ ap (λ (o : Option (List ℕ)). elim o [ none ↦ [] | some ds ↦ ds ]) p));
        same = record { map_kept = refl; patterns_kept = λ k. refl; has_patterns = h };
      }
  | inr (b, e) ↦ record {
    after = tally Stat.ram_read 1 d;
    returns =
        ap (read_block k d) e
        ∙ ap (λ (t : List ℕ). some (t, tally Stat.ram_read 1 d))
            (sym (ap (shown (pattern_view d k)) e));
    same = tally-Same Stat.ram_read 1 d h;
  }
]

view_of :
    (k : ℕ) (d e : RamDisk)
    → Same d e
    → overlay (pattern_view e) e.blk_map k ≡ overlay (pattern_view d) d.blk_map k
view_of k d e s =
    ap (λ (m : BlockMap). overlay (pattern_view e) m k) s.map_kept
    ∙ ap
        (λ (o : Option (List ℕ)).
          shown (elim o [ none ↦ [] | some ds ↦ ds ]) (find_block k d.blk_map))
        (s.patterns_kept k)

blocks-view_of :
    (k n : ℕ) (d e : RamDisk)
    → Same d e
    → blocks (overlay (pattern_view e) e.blk_map) k n
      ≡ blocks (overlay (pattern_view d) d.blk_map) k n
blocks-view_of k n d e s = blocks-same _ _ k n (λ i l u. view_of i d e s)

read_blocks-Reads :
    (k n : ℕ) (d : RamDisk)
    → HasPatterns d
    → k + n < 2 ^ 32
    → Reads d (blocks (overlay (pattern_view d) d.blk_map) k n) (read_blocks k n d)
unfolding read_blocks blocks
read_blocks-Reads k zero d h narrow = record {
  after = d;
  returns = refl;
  same = record { map_kept = refl; patterns_kept = λ k. refl; has_patterns = h };
}
read_blocks-Reads k (suc n) d h narrow =
    let one =
      subst
        (λ (j : ℕ).
          Reads d (overlay (pattern_view d) d.blk_map k) (read_block k d (find_block j d.blk_map)))
        (sym (narrowed k (omega arith))) (read_block-Reads k d h) in
    let ih = read_blocks-Reads (k + 1) n one.after one.same.has_patterns (omega arith) in
    record {
      after = ih.after;
      returns =
          bind_some _ _ one.returns
          ∙ bind_some _ _ ih.returns
          ∙ ap (λ (t : List ℕ). some (overlay (pattern_view d) d.blk_map k ++ t, ih.after))
              (blocks-view_of (k + 1) n d one.after one.same);
      same = Same-trans d one.after ih.after one.same ih.same;
    }

-- `Read` of a disk in memory is defined and returns the blocks: those that were written with their
-- bytes, all others with the pattern of the disk; nothing changes but the counters. The geometry
-- has sectors and heads, and a block size of whole passes of the patterns, with room for the boot
-- message, and the block numbers fit into 32 bits.
pub read-view :
    (lba n : ℕ) (d : RamDisk)
    → HasPatterns d
    → lba + n < 2 ^ 32
    → (after : RamDisk) × (read lba n d
        ≡ some (blocks (overlay (pattern_view d) d.blk_map) lba n, after))
      × ((k : ℕ)
          → overlay (pattern_view after) after.blk_map k ≡ overlay (pattern_view d) d.blk_map k)
unfolding read
read-view lba n d h narrow =
    let s1 = tally-Same Stat.n_read 1 d h in
    let d1 = tally Stat.n_read 1 d in
    let s2 = tally-Same Stat.n_read_blk n d1 s1.has_patterns in
    let d2 = tally Stat.n_read_blk n d1 in
    let r = read_blocks-Reads lba n d2 s2.has_patterns narrow in
    let s = Same-trans d d1 d2 s1 s2 in
    (
      r.after,
      r.returns ∙ ap (λ (t : List ℕ). some (t, r.after)) (blocks-view_of lba n d d2 s),
      λ k. view_of k d r.after (Same-trans d d2 r.after s r.same),
    )

-- The loop of `Write` is that of the overlay disk, with counters of its own.
record Writes (d : RamDisk) (m : BlockMap) (e : RamDisk) : Type 0 where
  map_is : e.blk_map ≡ m
  patterns_kept : (k : ℕ) → pattern_at k e ≡ pattern_at k d

write_blocks-Writes :
    (k n nblk : ℕ) (ds : List ℕ) (d : RamDisk)
    → Writes d (Over.write_blocks d.disk.blk_size k n ds d.blk_map) (write_blocks k n nblk ds d)
unfolding write_blocks Over.write_blocks pattern_at
write_blocks-Writes k zero nblk ds d = record { map_is = refl; patterns_kept = λ i. refl }
write_blocks-Writes k (suc n) nblk ds d =
    by_found (has_block (find_block (k % 2 ^ 32) d.blk_map))
      (write_blocks-Writes (k + 1) n nblk (drop d.disk.blk_size ds))
  where
    by_found :
        (t : Bool)
        → ((e : RamDisk)
            → Writes e
                (Over.write_blocks e.disk.blk_size (k + 1) n (drop d.disk.blk_size ds) e.blk_map)
                (write_blocks (k + 1) n nblk (drop d.disk.blk_size ds) e))
        → Writes d
            (Over.write_blocks d.disk.blk_size
              (k + 1)
              n
              (drop d.disk.blk_size ds)
              (store_block d.disk.blk_size (k % 2 ^ 32) ds d.blk_map))
            (write_blocks
              (k + 1)
              n
              nblk
              (drop d.disk.blk_size ds)
              (record (if t then tally Stat.ram_write_over nblk d else d) {
                blk_map = store_block d.disk.blk_size (k % 2 ^ 32) ds d.blk_map;
              }))
    by_found true ih =
        let w = ih (record (tally Stat.ram_write_over nblk d) {
          blk_map = store_block d.disk.blk_size (k % 2 ^ 32) ds d.blk_map;
        }) in
        record { map_is = w.map_is; patterns_kept = w.patterns_kept }
    by_found false ih =
        let w = ih (record d { blk_map = store_block d.disk.blk_size (k % 2 ^ 32) ds d.blk_map }) in
        record { map_is = w.map_is; patterns_kept = w.patterns_kept }

-- `Write` of `n` blocks, from a buffer that holds them, on a disk with its map in order: they show
-- the bytes of the buffer afterwards, all others what they showed before, and the map stays in order;
-- the block numbers fit into 32 bits, and the addresses into 64.
pub write-view :
    (lba n : ℕ) (ds : List ℕ) (d : RamDisk)
    → IsMap d.disk.blk_size d.blk_map
    → d.disk.blk_size * n ≤ length ds
    → d.disk.blk_size * (lba + n) < 2 ^ 64
    → lba + n < 2 ^ 32
    → IsMap d.disk.blk_size (write lba n ds d).blk_map
      × ((k : ℕ)
          → overlay (pattern_view (write lba n ds d)) (write lba n ds d).blk_map k
            ≡ updated d.disk.blk_size lba n ds (overlay (pattern_view d) d.blk_map) k)
unfolding write pattern_at
write-view lba n ds d o enough small narrow =
    let bs = d.disk.blk_size in
    let d2 = tally Stat.n_write_blk n (tally Stat.n_write 1 d) in
    let w = write_blocks-Writes lba n n ds d2 in
    let out = write_blocks lba n n ds d2 in
    (
      subst (IsMap bs) (sym w.map_is)
          (write_blocks-IsMap bs lba n ds d.blk_map enough small narrow o),
      λ k.
          ap (λ (m : BlockMap). overlay (pattern_view out) m k) w.map_is
          ∙ ap
              (λ (o : Option (List ℕ)).
                shown (elim o [ none ↦ [] | some ds ↦ ds ])
                  (find_block k (Over.write_blocks bs lba n ds d.blk_map)))
              (w.patterns_kept k)
          ∙ write_blocks-updated (pattern_view d) bs lba n k ds d.blk_map enough small narrow o,
    )
