-- ===== src/Rlink/Command/Code.antt =====
-- The command codes of RlinkCommand.hpp.
use w.Base.{ℕ}

abbrev pub rreg : ℕ
rreg = 0

abbrev pub rblk : ℕ
rblk = 1

abbrev pub wreg : ℕ
wreg = 2

abbrev pub wblk : ℕ
wblk = 3

abbrev pub labo : ℕ
labo = 4

abbrev pub attn : ℕ
attn = 5

abbrev pub init : ℕ
init = 6
