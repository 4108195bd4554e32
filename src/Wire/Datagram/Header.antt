-- ===== src/Wire/Datagram/Header.antt =====
-- The datagram header as arithmetic, and the image that the MAC covers.
use catp.Base.{
  ℕ, ◌+◌, ◌*◌, ◌/◌, ◌%◌, ◌^◌, ◌<◌, ◌≡◌, refl, sym, ap, ◌∙◌, arith, bit_and, bit_or, ◌∷◌, ◌++◌,
  length, get_or,
}
use catp.Base.Bits.{and_0x07, and_0x0f, and_0x1f, and_0x7ffff, and_0xf0, bit_or_sum}
use catp.Base.Words.{Bytes, as_u8, shr, u32_to_be}
use catp.Wire.Datagram.{Datagram, header_bytes, auth_header}

-- Every field of the header fits its width.
pub record IsHeader (d : Datagram) : Type 0 where
  pub version_lt : d.version < 8
  pub msg_type_lt : d.msg_type < 32
  pub cipher_lt : d.cipher_id < 16
  pub epoch_lt : d.epoch_low < 16
  pub reserved_lt : d.reserved < 32
  pub offset_lt : d.datagram_offset < 2 ^ 19
  pub sender_lt : d.sender_id < 2 ^ 32

five :
    (a b c d e a' b' c' d' e' : ℕ) (t : Bytes)
    → a ≡ a'
    → b ≡ b'
    → c ≡ c'
    → d ≡ d'
    → e ≡ e'
    → a ∷ b ∷ c ∷ d ∷ e ∷ t ≡ a' ∷ b' ∷ c' ∷ d' ∷ e' ∷ t
five a b c d e a' b' c' d' e' t p q r s u = rw (p, q, r, s, u)

-- A well-formed header in plain arithmetic.
pub header_bytes-eq :
    (d : Datagram)
    → IsHeader d
    → header_bytes d
      ≡ (d.version * 32 + d.msg_type)
        ∷ (d.cipher_id * 16 + d.epoch_low)
        ∷ (d.reserved * 8 + d.datagram_offset / 65536)
        ∷ (d.datagram_offset / 256 % 256)
        ∷ (d.datagram_offset % 256)
        ∷ u32_to_be d.sender_id
unfolding header_bytes
header_bytes-eq d v =
    five _ _ _ _ _ _ _ _ _ _ _ (first ∙ bit_or_sum 5 d.version d.msg_type v.msg_type_lt)
      (second ∙ bit_or_sum 4 d.cipher_id d.epoch_low v.epoch_lt)
      (third ∙ bit_or_sum 3 d.reserved (d.datagram_offset / 65536) (omega arith))
      (omega (arith, and_0x7ffff d.datagram_offset)) (omega (arith, and_0x7ffff d.datagram_offset))
  where
    first :
        bit_or (bit_and d.version 0x07 * 32) (bit_and d.msg_type 0x1f)
        ≡ bit_or (d.version * 32) d.msg_type
    first =
        let p : bit_and d.version 0x07 ≡ d.version = omega (arith, and_0x07 d.version) in
        let q : bit_and d.msg_type 0x1f ≡ d.msg_type = omega (arith, and_0x1f d.msg_type) in
        rw (p, q)

    second :
        bit_or (bit_and d.cipher_id 0x0f * 16) (bit_and d.epoch_low 0x0f)
        ≡ bit_or (d.cipher_id * 16) d.epoch_low
    second =
        let p : bit_and d.cipher_id 0x0f ≡ d.cipher_id = omega (arith, and_0x0f d.cipher_id) in
        let q : bit_and d.epoch_low 0x0f ≡ d.epoch_low = omega (arith, and_0x0f d.epoch_low) in
        rw (p, q)

    third :
        bit_or
          (bit_and d.reserved 0x1f * 8)
          (bit_and (as_u8 (shr (bit_and d.datagram_offset 0x7ffff) 16)) 0x07)
        ≡ bit_or (d.reserved * 8) (d.datagram_offset / 65536)
    third =
        let p : bit_and d.reserved 0x1f ≡ d.reserved = omega (arith, and_0x1f d.reserved) in
        let o : bit_and (as_u8 (shr (bit_and d.datagram_offset 0x7ffff) 16)) 0x07
            ≡ d.datagram_offset / 65536 =
          omega (
            arith,
            and_0x7ffff d.datagram_offset,
            and_0x07 (as_u8 (shr (bit_and d.datagram_offset 0x7ffff) 16)),
          ) in
        rw (p, o)

pub length-header_bytes : (d : Datagram) → length (header_bytes d) ≡ 9
unfolding header_bytes
length-header_bytes d = refl

pub length-auth_header : (d : Datagram) (e : ℕ) → length (auth_header d e) ≡ 13
unfolding auth_header
length-auth_header d e = refl

-- The authenticated image in plain arithmetic.
pub auth_header-eq :
    (d : Datagram) (e : ℕ)
    → IsHeader d
    → auth_header d e
      ≡ (d.version * 32 + d.msg_type)
        ∷ (d.cipher_id * 16)
        ∷ (d.reserved * 8 + d.datagram_offset / 65536)
        ∷ (d.datagram_offset / 256 % 256)
        ∷ (d.datagram_offset % 256)
        ∷ (u32_to_be e ++ u32_to_be d.sender_id)
unfolding auth_header
auth_header-eq d e v =
    let low : bit_and (d.cipher_id * 16 + d.epoch_low) 0xf0 ≡ d.cipher_id * 16 =
      omega (arith, and_0xf0 (d.cipher_id * 16 + d.epoch_low)) in
    rw (header_bytes-eq d v) (rw low)

-- For two well-formed headers and two u32 epochs: if the authenticated images are the same, then
-- the epochs are, and so are all fields of the header but the four epoch bits.
pub auth_header_binds :
    (d d' : Datagram) (e e' : ℕ)
    → IsHeader d
    → IsHeader d'
    → e < 2 ^ 32
    → e' < 2 ^ 32
    → auth_header d e ≡ auth_header d' e'
    → (d.version ≡ d'.version)
      × (d.msg_type ≡ d'.msg_type)
      × (d.cipher_id ≡ d'.cipher_id)
      × (d.reserved ≡ d'.reserved)
      × (d.datagram_offset ≡ d'.datagram_offset)
      × (d.sender_id ≡ d'.sender_id)
      × (e ≡ e')
auth_header_binds d d' e e' v v' he he' h =
    let same = sym (auth_header-eq d e v) ∙ h ∙ auth_header-eq d' e' v' in
    let at = λ (i : ℕ). ap (λ (l : Bytes). get_or l i 0) same in
    (
      omega (arith, at 0),
      omega (arith, at 0),
      omega (arith, at 1),
      omega (arith, at 2),
      omega (arith, at 2, at 3, at 4),
      omega (arith, at 9, at 10, at 11, at 12),
      omega (arith, at 5, at 6, at 7, at 8),
    )
