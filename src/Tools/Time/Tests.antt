-- ===== src/Tools/Time/Tests.antt =====
-- Rtime.ipp on concrete times.
use w.Base.{◌+◌, ◌*◌, ◌<◌, ◌≡◌, ◌↔◌, refl, true, some, arith}
use w.Base.Int.{pos, negsuc, up, down}
use w.Tools.Time.{Time, billion, add, subtract, less}
use w.Tools.Time.Laws.{IsNormal, IsSum, add-IsSum, subtract-IsSum, less_iff}

-- -1.3 s, and 2.9 s.
abbrev early : Time
early = record { sec = negsuc 1; nsec = pos 700000000 }

abbrev late : Time
late = record { sec = pos 2; nsec = pos 900000000 }

early-IsNormal : IsNormal early
early-IsNormal = record { rest = 700000000; nsec_is = refl; below = omega arith }

late-IsNormal : IsNormal late
late-IsNormal = record { rest = 900000000; nsec_is = refl; below = omega arith }

add-IsSum_example : (r : Time) × (add early late ≡ some r) × IsNormal r × IsSum early late r
add-IsSum_example =
    add-IsSum early late early-IsNormal late-IsNormal
      (record { above = omega arith; below = omega arith })

subtract-IsSum_example :
    (r : Time) × (subtract early late ≡ some r) × IsNormal r × IsSum r late early
subtract-IsSum_example =
    subtract-IsSum early late early-IsNormal late-IsNormal
      (record { above = omega arith; below = omega arith })

less_iff_example : (less early late ≡ true) ↔ (
    billion * (up early.sec + down late.sec) + up early.nsec
    < billion * (down early.sec + up late.sec) + up late.nsec)
less_iff_example = less_iff early late early-IsNormal late-IsNormal
