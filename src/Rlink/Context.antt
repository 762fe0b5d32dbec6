-- ===== src/Rlink/Context.antt =====
-- tools/src/librlink/RlinkContext.{cpp,ipp}: the default status check of a client, and its count of
-- errors.
use w.Base.{ℕ, ◌+◌, bit_and, Bool, not, ◌==◌}

pub record Context : Type 0 where
  pub status_val : ℕ
  pub status_msk : ℕ
  pub err_cnt : ℕ

unfoldable create : Context
create = record { status_val = 0; status_msk = 0; err_cnt = 0 }

unfoldable set_status : ℕ → ℕ → Context → Context
set_status stat statmsk c = record c { status_val = stat; status_msk = statmsk }

unfoldable set_status_value : ℕ → Context → Context
set_status_value stat c = record c { status_val = stat }

unfoldable set_status_mask : ℕ → Context → Context
set_status_mask statmsk c = record c { status_msk = statmsk }

unfoldable status_is_checked : Context → Bool
status_is_checked c = not (c.status_msk == 0)

unfoldable status_check : ℕ → Context → Bool
status_check val c = bit_and val c.status_msk == c.status_val

unfoldable pub inc_error_count : ℕ → Context → Context
inc_error_count n c = record c { err_cnt = c.err_cnt + n }

unfoldable clear_error_count : Context → Context
clear_error_count c = record c { err_cnt = 0 }
