-- ===== src/Tools/Time.antt =====
-- tools/src/librtools/Rtime.{cpp,ipp}: a time as seconds and nanoseconds, both signed numbers of 64
-- bits. The overflow of a sum or difference, which is undefined, is `none`.
pub mod Laws
pub mod Tests
use w.Base.{Bool, true, false, not, ◌&&◌, ◌||◌, Option, none, some, ℕ, ◌^◌, ◌>>=◌, ltb, leb}
use w.Base.{if◌then◌else◌}
use w.Base.Int.{ℤ, pos, negsuc, ◌+ℤ◌, ◌-ℤ◌, lt_int, le_int, eq_int, up, down}

pub record Time : Type 0 where
  pub sec : ℤ
  pub nsec : ℤ

abbrev pub billion : ℕ
billion = 1000000000

unfoldable pub clear : Time
clear = record { sec = pos 0; nsec = pos 0 }

unfoldable set_sec : ℤ → Time → Time
set_sec sec t = record t { sec = sec }

-- `none` is an exception.
unfoldable set_nsec : ℤ → Time → Option Time
set_nsec nsec t =
    if lt_int nsec (pos 0) || lt_int (pos 999999999) nsec
    then none
    else some (record t { nsec = nsec })

unfoldable is_zero : Time → Bool
is_zero t = eq_int t.sec (pos 0) && eq_int t.nsec (pos 0)

unfoldable is_positive : Time → Bool
is_positive t = lt_int (pos 0) t.sec || (eq_int t.sec (pos 0) && lt_int (pos 0) t.nsec)

unfoldable is_negative : Time → Bool
is_negative t = lt_int t.sec (pos 0)

-- A signed number of 64 bits.
abbrev pub int64 : ℤ → Option ℤ
int64 z = if ltb (up z) (2 ^ 63) && leb (down z) (2 ^ 63) then some z else none

-- A time whose seconds and nanoseconds have been calculated.
abbrev pub time_of : ℤ → ℤ → Option Time
time_of s n = do sec ← int64 s; nsec ← int64 n; some (record { sec = sec; nsec = nsec })

unfoldable pub fixup : Time → Option Time
fixup t =
    if le_int (pos billion) t.nsec
    then time_of (t.sec +ℤ pos 1) (t.nsec -ℤ pos billion)
    else (if lt_int t.nsec (pos 0)
        then time_of (t.sec -ℤ pos 1) (t.nsec +ℤ pos billion)
        else some t)

unfoldable pub add : Time → Time → Option Time
add t u = do r ← time_of (t.sec +ℤ u.sec) (t.nsec +ℤ u.nsec); fixup r

unfoldable pub subtract : Time → Time → Option Time
subtract t u = do r ← time_of (t.sec -ℤ u.sec) (t.nsec -ℤ u.nsec); fixup r

unfoldable equals : Time → Time → Bool
equals t u = eq_int t.sec u.sec && eq_int t.nsec u.nsec

unfoldable pub less : Time → Time → Bool
less t u = lt_int t.sec u.sec || (eq_int t.sec u.sec && lt_int t.nsec u.nsec)

unfoldable less_equal : Time → Time → Bool
less_equal t u = lt_int t.sec u.sec || (eq_int t.sec u.sec && le_int t.nsec u.nsec)

unfoldable greater : Time → Time → Bool
unfolding less_equal
greater t u = not (less_equal t u)

unfoldable greater_equal : Time → Time → Bool
unfolding less
greater_equal t u = not (less t u)
