-- ===== src/Rlink/Stats.antt =====
-- tools/src/librtools/Rstats.ipp, as far as the other components use it: a vector of counters that
-- `Inc(ind, val)` adds to. The counts are whole numbers, below the 2 ^ 53 that a double holds exactly.
use w.Base.{ℕ, zero, suc, ◌+◌, List, [], ◌∷◌}

abbrev pub Stats : Type 0
Stats = List ℕ

-- An index that is not defined is ignored here; the callers use the constants of their own enum.
unfoldable pub inc : ℕ → ℕ → Stats → Stats
inc i n [] = []
inc zero n (x ∷ xs) = (x + n) ∷ xs
inc (suc i) n (x ∷ xs) = x ∷ inc i n xs
