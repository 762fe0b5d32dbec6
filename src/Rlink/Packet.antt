-- ===== src/Rlink/Packet.antt =====
-- tools/src/librlink/RlinkPacketBuf.hpp: the constants of the framing, which the send and the
-- receive buffer share.
-- A packet is framed by the escapes <SOP> and <EOP>; an escape is the byte `sym_esc` and a code
-- byte, which holds a three-bit code twice, once complemented.
pub mod Flag
pub mod Ec
pub mod Snd
pub mod Rcv
pub mod Codes
pub mod Bytewise
pub mod Process
pub mod RoundTrip
use w.Base.{ℕ, ◌*◌, ◌/◌, ◌%◌, bit_and, bit_or, bit_xor, not, ◌||◌, ◌==◌, if◌then◌else◌}

abbrev pub sym_esc : ℕ
sym_esc = 0xca

abbrev pub sym_fill : ℕ
sym_fill = 0xd5

abbrev pub sym_xon : ℕ
sym_xon = 0x11

abbrev pub sym_xoff : ℕ
sym_xoff = 0x13

abbrev pub sym_ed_pref : ℕ
sym_ed_pref = 0x40

abbrev pub nc_inval : ℕ
nc_inval = 8

-- `~x` of a byte: the source keeps only bits below the eighth of it.
abbrev pub complement : ℕ → ℕ
complement x = bit_xor x 0xff

-- `kSymEdPref | ((~ec)&0x7)<<3 | ec`, the code byte of `PutRawEsc`.
unfoldable pub code_byte : ℕ → ℕ
code_byte ec = bit_or (bit_or sym_ed_pref (bit_and (complement ec) 7 * 8)) ec % 256

-- The code that `GetEcode` finds in a code byte.
unfoldable pub ecode : ℕ → ℕ
ecode c =
    let ec = bit_and c 7 in
    if not (bit_and c 0xc0 == sym_ed_pref) || not (bit_and (complement c / 8) 7 == ec)
    then Ec.clobber
    else ec
