-- ===== src/Wire/Decode/Canonical.antt =====
-- What `decode` accepts is what `encode` sends: fuzz/fuzz_targets/decode_roundtrip.rs states it.
use catp.Base.{
  ℕ, ◌+◌, ◌*◌, ◌/◌, ◌%◌, ◌<◌, ◌≤◌, ◌≡◌, ◌∙◌, arith, bit_and, bit_or, [], ◌∷◌, length, take, All,
}
use catp.Base.Bits.{and_0x07, and_0x0f, and_0x1f, or_bytes}
use catp.Base.Words.{Bytes, IsByte, shl, shr, u32_from_be}
use catp.Wire.Datagram.{header_bytes}
use catp.Wire.Datagram.Header.{IsHeader, header_bytes-eq}
use catp.Wire.Decode.{parse_header}

-- The header's offset in plain arithmetic.
offset_of :
    (b2 b3 b4 : ℕ)
    → b3 < 256
    → b4 < 256
    → bit_or (bit_or (shl (bit_and b2 0x07) 16) (shl b3 8)) b4 ≡ (b2 % 8 * 256 + b3) * 256 + b4
offset_of b2 b3 b4 h3 h4 =
    let low : bit_and b2 0x07 ≡ b2 % 8 = and_0x07 b2 in rw low (or_bytes (b2 % 8) b3 b4 h3 h4)

module _ (a b c d e f g h i : ℕ) (rest : Bytes) where
  abbrev nine : Bytes
  nine = a ∷ b ∷ c ∷ d ∷ e ∷ f ∷ g ∷ h ∷ i ∷ rest

  header_bytes-parse_header_at :
      IsByte a
      → IsByte b
      → IsByte c
      → IsByte d
      → IsByte e
      → IsByte f
      → IsByte g
      → IsByte h
      → IsByte i
      → header_bytes (parse_header nine) ≡ a ∷ b ∷ c ∷ d ∷ e ∷ f ∷ g ∷ h ∷ i ∷ []
  unfolding parse_header
  header_bytes-parse_header_at ha hb hc hd he hf hg hh hi =
      let off = offset_of c d e hd he in
      let v : IsHeader (parse_header nine) = record {
        version_lt = omega (arith, and_0x07 (a / 32));
        msg_type_lt = omega (arith, and_0x1f a);
        cipher_lt = omega (arith, and_0x0f (b / 16));
        epoch_lt = omega (arith, and_0x0f b);
        reserved_lt = omega (arith, and_0x1f (c / 8));
        offset_lt = omega (arith, off);
        sender_lt = omega arith;
      } in
      let o = bit_or (bit_or (shl (bit_and c 0x07) 16) (shl d 8)) e in
      let n = u32_from_be f g h i in
      let p1 : bit_and (shr a 5) 0x07 * 32 + bit_and a 0x1f ≡ a =
        omega (arith, and_0x07 (a / 32), and_0x1f a) in
      let p2 : bit_and (shr b 4) 0x0f * 16 + bit_and b 0x0f ≡ b =
        omega (arith, and_0x0f (b / 16), and_0x0f b) in
      let p3 : bit_and (shr c 3) 0x1f * 8 + o / 65536 ≡ c = omega (arith, and_0x1f (c / 8), off) in
      let p4 : o / 256 % 256 ≡ d = omega (arith, off) in
      let p5 : o % 256 ≡ e = omega (arith, off) in
      let p6 : n / 0x1000000 % 256 ≡ f = omega arith in
      let p7 : n / 0x10000 % 256 ≡ g = omega arith in
      let p8 : n / 0x100 % 256 ≡ h = omega arith in
      let p9 : n % 256 ≡ i = omega arith in
      header_bytes-eq (parse_header nine) v ∙ cc (p1, p2, p3, p4, p5, p6, p7, p8, p9)

-- The header's fields are written as they were read.
pub header_bytes-parse_header :
    (buf : Bytes) → All IsByte buf → 9 ≤ length buf → header_bytes (parse_header buf) ≡ take 9 buf
header_bytes-parse_header (a ∷ b ∷ c ∷ d ∷ e ∷ f ∷ g ∷ h ∷ i ∷ rest)
      (ha, (hb, (hc, (hd, (he, (hf, (hg, (hh, (hi, hs))))))))) n =
    header_bytes-parse_header_at a b c d e f g h i rest ha hb hc hd he hf hg hh hi
header_bytes-parse_header [] hs n = absurd (omega arith)
header_bytes-parse_header (a ∷ []) hs n = absurd (omega arith)
header_bytes-parse_header (a ∷ b ∷ []) hs n = absurd (omega arith)
header_bytes-parse_header (a ∷ b ∷ c ∷ []) hs n = absurd (omega arith)
header_bytes-parse_header (a ∷ b ∷ c ∷ d ∷ []) hs n = absurd (omega arith)
header_bytes-parse_header (a ∷ b ∷ c ∷ d ∷ e ∷ []) hs n = absurd (omega arith)
header_bytes-parse_header (a ∷ b ∷ c ∷ d ∷ e ∷ f ∷ []) hs n = absurd (omega arith)
header_bytes-parse_header (a ∷ b ∷ c ∷ d ∷ e ∷ f ∷ g ∷ []) hs n = absurd (omega arith)
header_bytes-parse_header (a ∷ b ∷ c ∷ d ∷ e ∷ f ∷ g ∷ h ∷ []) hs n = absurd (omega arith)
