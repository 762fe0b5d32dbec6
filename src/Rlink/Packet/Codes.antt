-- ===== src/Rlink/Packet/Codes.antt =====
-- The escape codes and the escaped form of a packet: what the framing guarantees on the line.
use w.Base.{ℕ, ◌+◌, ◌*◌, ◌^◌, ◌≤◌, ◌<◌, ◌≡◌, ◌≢◌, refl, sym, ap, ◌∙◌, bit_xor}
use w.Base.{Bool, true, List, [], ◌∷◌, ◌++◌, All, length, length-append, ◌==◌}
use w.Base.{==_iff, if_true, if_false, Bool-cases, inl, inr, arith, subst}
use w.Base.Bits.{all_below, all_below_sound}
use w.Rlink.Packet.{sym_esc, sym_xon, sym_xoff, code_byte, ecode}
use w.Rlink.Packet.Ec
use w.Rlink.Packet.Snd.{Snd, frame_packet}
use w.Rlink.Packet.RoundTrip.{escaped, escaped_all, frame_packet-framed}

code_checked : all_below 8 (λ ec. ecode (code_byte ec) == ec) ≡ true
unfolding all_below ecode code_byte
code_checked = refl

-- One flipped bit, at position `i`, of a code byte.
abbrev flipped : ℕ → ℕ → ℕ
flipped ec i = bit_xor (code_byte ec) (2 ^ i)

flips_checked : all_below 8 (λ ec. all_below 8 (λ i. ecode (flipped ec i) == Ec.clobber)) ≡ true
unfolding all_below ecode code_byte
flips_checked = refl

-- A code comes back from its code byte, and a code byte with any single bit flipped is recognised
-- as clobbered.
pub ecode-code_byte :
    (ec i : ℕ)
    → ec < 8
    → i < 8
    → (ecode (code_byte ec) ≡ ec) × (ecode (bit_xor (code_byte ec) (2 ^ i)) ≡ Ec.clobber)
ecode-code_byte ec i h hi = (
  (==_iff _ _).0 (all_below_sound 8 (λ ec. ecode (code_byte ec) == ec) ec code_checked h),
  (==_iff _ _).0 (
      all_below_sound 8 (λ i. ecode (flipped ec i) == Ec.clobber) i
        (all_below_sound 8 (λ ec. all_below 8 (λ i. ecode (flipped ec i) == Ec.clobber)) ec
          flips_checked h)
        hi),
)

-- Neither of the flow control bytes.
abbrev pub IsQuiet : ℕ → Type 0
IsQuiet c = (c ≢ sym_xon) × (c ≢ sym_xoff)

All-append {ℓ κ} :
    {A : Type ℓ} (P : A → Type κ) (xs ys : List A) → All P xs → All P ys → All P (xs ++ ys)
All-append P [] ys h k = k
All-append P (x ∷ xs) ys h k = (h.0, All-append P xs ys h.1 k)

escaped-IsQuiet : (c : ℕ) → All IsQuiet (escaped true c)
unfolding code_byte
escaped-IsQuiet c = elim (Bool-cases (c == sym_esc)) [
  | inl h ↦
      subst (All IsQuiet) (sym (if_true _ _ h))
        ((omega arith, omega arith), ((omega arith, omega arith), tt))
  | inr h ↦ elim (Bool-cases (c == sym_xon)) [
    | inl h1 ↦
        subst (All IsQuiet) (sym (if_false _ _ h ∙ if_true _ _ h1))
          ((omega arith, omega arith), ((omega arith, omega arith), tt))
    | inr h1 ↦ elim (Bool-cases (c == sym_xoff)) [
      | inl h2 ↦
          subst (All IsQuiet) (sym (if_false _ _ h ∙ if_false _ _ h1 ∙ if_true _ _ h2))
            ((omega arith, omega arith), ((omega arith, omega arith), tt))
      | inr h2 ↦
          subst (All IsQuiet) (sym (if_false _ _ h ∙ if_false _ _ h1 ∙ if_false _ _ h2))
            ((ground arith, ground arith), tt)
    ]
  ]
]

escaped_all-IsQuiet : (cs : List ℕ) → All IsQuiet (escaped_all true cs)
escaped_all-IsQuiet [] = tt
escaped_all-IsQuiet (c ∷ cs) =
    All-append IsQuiet (escaped true c) (escaped_all true cs) (escaped-IsQuiet c)
      (escaped_all-IsQuiet cs)

-- With XON escaping on, the raw data of a packet hold no XON and no XOFF byte, whatever the packet.
pub frame_packet-IsQuiet : (s : Snd) → s.xon_escape ≡ true → All IsQuiet (frame_packet s).raw_buf
unfolding code_byte
frame_packet-IsQuiet s h =
    subst (All IsQuiet)
      (ap
          (λ (x : Bool).
            sym_esc
            ∷ code_byte Ec.sop
            ∷ (escaped_all x s.pkt_buf ++ (sym_esc ∷ code_byte Ec.eop ∷ [])))
          (sym h)
        ∙ sym (frame_packet-framed s))
      (
        (omega arith, omega arith),
        (
          (omega arith, omega arith),
          All-append IsQuiet (escaped_all true s.pkt_buf) (sym_esc ∷ code_byte Ec.eop ∷ [])
              (escaped_all-IsQuiet s.pkt_buf)
              ((omega arith, omega arith), ((omega arith, omega arith), tt)),
        ),
      )

length-escaped : (xon : Bool) (c : ℕ) → length (escaped xon c) ≤ 2
length-escaped xon c = ground arith

length-escaped_all : (xon : Bool) (cs : List ℕ) → length (escaped_all xon cs) ≤ 2 * length cs
length-escaped_all xon [] = omega arith
length-escaped_all xon (c ∷ cs) = omega (
  arith,
  length-append (escaped xon c) (escaped_all xon cs),
  length-escaped xon c,
  length-escaped_all xon cs,
)

-- The raw data never outgrow the `2*fPktBuf.size()+4` bytes that `SndPacket` reserves.
pub length-frame_packet : (s : Snd) → length (frame_packet s).raw_buf ≤ 2 * length s.pkt_buf + 4
length-frame_packet s = omega (
  arith,
  ap length (frame_packet-framed s),
  length-append (escaped_all s.xon_escape s.pkt_buf) (sym_esc ∷ code_byte Ec.eop ∷ []),
  length-escaped_all s.xon_escape s.pkt_buf,
)
