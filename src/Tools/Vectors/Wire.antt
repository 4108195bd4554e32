-- ===== src/Tools/Vectors/Wire.antt =====
-- tools/src/bin/vectors.rs, `authentic_with_payload`, against `Datagram::encode` of src/wire.rs.
use catp.Base.{
  ℕ, ◌+◌, ◌*◌, ◌<◌, ◌≡◌, refl, ap, ◌∙◌, sym, bit_and, bit_or, arith, false, some, ◌∷◌, ◌++◌, length,
  get_or, All, take, drop, length-append,
}
use catp.Base.Bits.{and_0x0f, and_0xf0, bit_or_sum}
use catp.Base.Words.{Bytes, shl}
use catp.Crypto.{Primitives, epoch_key}
use catp.Crypto.Laws.{mac_cases, too_long}
use catp.Errors.{ok}
use catp.Registry.{Direction}
use catp.Registry.CipherId
use catp.Registry.CipherId.{CipherId}
use catp.Tools.Vectors.{authentic_with_payload}
use catp.Wire.Datagram.{Datagram, header_bytes, auth_header, encode, payload_len}
use catp.Wire.Datagram.Encode.{wire_bytes}
use catp.Wire.Datagram.Header.{IsHeader, length-auth_header}
use catp.Wire.Datagram.Payload.{Fits, payload_bytes, length-payload_bytes}
use catp.Wire.Decode.RoundTrip.{encode-ok}

-- The suite's nibble, and the low epoch bits back beside it.
restored_nibble :
    (suite low : ℕ)
    → suite < 16
    → low < 16
    → bit_or (bit_and (bit_or (shl (bit_and suite 0x0f) 4) (bit_and low 0x0f)) 0xf0) low
      ≡ bit_or (shl (bit_and suite 0x0f) 4) (bit_and low 0x0f)
restored_nibble suite low hs hl =
    let joined : bit_or (suite * 16) low ≡ suite * 16 + low = bit_or_sum 4 suite low hl in
    let a : bit_and suite 0x0f ≡ suite = omega (arith, and_0x0f suite) in
    let b : bit_and low 0x0f ≡ low = omega (arith, and_0x0f low) in
    let high : bit_and (suite * 16 + low) 0xf0 ≡ suite * 16 =
      omega (arith, and_0xf0 (suite * 16 + low)) in
    rw (a, b, joined, high) joined

abbrev header_from : Bytes → ℕ → Bytes → Bytes
header_from ah low rest =
    get_or ah 0 0
    ∷ bit_or (get_or ah 1 0) low
    ∷ get_or ah 2 0
    ∷ get_or ah 3 0
    ∷ get_or ah 4 0
    ∷ (take 4 (drop 9 ah) ++ rest)

header_from-auth_header :
    (d : Datagram) (epoch : ℕ) (rest : Bytes)
    → d.cipher_id < 16
    → d.epoch_low < 16
    → header_from (auth_header d epoch) d.epoch_low rest ≡ header_bytes d ++ rest
unfolding auth_header header_bytes
header_from-auth_header d epoch rest hc hl = rw (restored_nibble d.cipher_id d.epoch_low hc hl) refl

-- For a datagram whose header fields have their widths, putting the wire form together from the
-- authenticated header, the payload and the tag gives what `encode` sends.
pub authentic_with_payload-encode :
    (prim : Primitives) (c : CipherId) (d : Datagram) (secret : Bytes) (epoch : ℕ) (dir : Direction)
    (max_size : ℕ) (wire : Bytes)
    → IsHeader d
    → CipherId.from_u8 d.cipher_id ≡ some c
    → All Fits d.records
    → encode prim d secret epoch dir max_size ≡ ok wire
    → authentic_with_payload prim secret d epoch dir (payload_bytes d) ≡ some wire
unfolding authentic_with_payload
authentic_with_payload-encode prim c d secret epoch dir max_size wire header suite fits h =
    let (room, sent) = encode-ok prim c d suite secret epoch dir max_size wire fits h in
    let key = epoch_key prim secret d.sender_id epoch dir in
    let message = auth_header d epoch ++ payload_bytes d in
    let long : length message ≡ 13 + payload_len d = omega (
      arith,
      length-append (auth_header d epoch) (payload_bytes d),
      length-auth_header d epoch,
      length-payload_bytes d,
    ) in
    let short : too_long c (length message) ≡ false = rw long room in
    rw (authentic_with_payload, suite, mac_cases prim c key message d.datagram_offset, short)
      (ap some (
        header_from-auth_header d epoch _ header.cipher_lt header.epoch_lt
        ∙ sym (sent ∙ (unfold wire_bytes in refl))))
