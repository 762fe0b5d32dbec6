-- ===== src/Rlink/Command/Expect.antt =====
-- tools/src/librlink/RlinkCommandExpect.{cpp,ipp}: what the caller of a command expects to get back.
use w.Base.{ℕ, ◌+◌, bit_and, Bool, true, false, not, ◌||◌, List, [], ◌∷◌, get_or, length}
use w.Base.{leb, ◌==◌, if◌then◌else◌}

pub record Expect : Type 0 where
  pub data_val : ℕ
  pub data_msk : ℕ
  pub block_val : List ℕ
  pub block_msk : List ℕ

-- The constructors, by their arguments.
unfoldable pub of_data : ℕ → ℕ → Expect
of_data val msk = record { data_val = val; data_msk = msk; block_val = []; block_msk = [] }

unfoldable pub create : Expect
unfolding of_data
create = of_data 0 0

unfoldable pub of_block : List ℕ → List ℕ → Expect
of_block val msk = record { data_val = 0; data_msk = 0; block_val = val; block_msk = msk }

unfoldable pub set_data : ℕ → ℕ → Expect → Expect
set_data val msk e = record e { data_val = val; data_msk = msk }

unfoldable pub set_done : ℕ → Bool → Expect → Expect
set_done n check e = record e { data_val = n; data_msk = if check then 0xffff else 0 }

unfoldable pub set_block : List ℕ → List ℕ → Expect → Expect
set_block val msk e = record e { block_val = val; block_msk = msk }

-- The mask of one word of a block; no mask means that all bits count.
abbrev pub block_mask_at : Expect → ℕ → ℕ
block_mask_at e i = get_or e.block_msk i 0xffff

unfoldable pub block_check : Expect → ℕ → ℕ → Bool
block_check e i val =
    if leb (length e.block_val) i
    then true
    else bit_and val (block_mask_at e i) == get_or e.block_val i 0

-- The loop of the second `BlockCheck` from index `i` on, over the words left: the count of errors.
unfoldable pub block_errors_from : Expect → ℕ → List ℕ → ℕ → ℕ
block_errors_from e i [] nerr = nerr
block_errors_from e i (v ∷ vs) nerr =
    let bad = not (bit_and v (block_mask_at e i) == get_or e.block_val i 0) in
    let rest = block_errors_from e (i + 1) vs (if bad then nerr + 1 else nerr) in
    if leb (length e.block_val) i then nerr else rest

unfoldable pub block_errors : Expect → List ℕ → ℕ
block_errors e vs = block_errors_from e 0 vs 0

unfoldable pub block_is_checked : Expect → ℕ → Bool
block_is_checked e i =
    if leb (length e.block_val) i
    then false
    else (if leb (length e.block_msk) i then true else not (get_or e.block_msk i 0 == 0))

abbrev pub data_is_checked : Expect → Bool
data_is_checked e = not (e.data_msk == 0)

abbrev pub done_is_checked : Expect → Bool
done_is_checked e = not (e.data_msk == 0)

unfoldable pub data_check : Expect → ℕ → Bool
data_check e val = bit_and val e.data_msk == e.data_val

unfoldable pub done_check : Expect → ℕ → Bool
done_check e val = not (done_is_checked e) || (val == e.data_val)
