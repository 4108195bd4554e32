-- ===== src/Crypto.antt =====
-- src/lib.rs, the key schedule and the MAC: `DeviceSecret`, `mac_parts`, `mac_into`, `mac`, `ct_eq`.
-- HKDF, HMAC, SipHash, ChaCha20-Poly1305 and the comparison of `subtle` are other crates: they are
-- the operations of `Primitives`, with the output lengths that their documentation fixes.
pub mod Laws
pub mod Keys
use catp.Base.{
  ℕ, ◌+◌, ◌-◌, ◌*◌, ◌^◌, ◌≡◌, Bool, true, false, not, ltb, ◌!=◌, ◌==◌, ◌↔◌, if◌then◌else◌, List, [],
  ◌∷◌, ◌++◌, length, take, replicate, drop,
}
use catp.Base.Words.{Bytes, u32_to_be, u64_to_be}
use catp.Errors.{
  Error, cipher_unimplemented, buffer_too_small, oversize, Result, ok, err, ◌>>=◌, ◌>>◌, reject_if,
}
use catp.Registry.{Direction, direction_byte, max_datagram_ipv4}
use catp.Registry.CipherId
use catp.Registry.CipherId.{
  CipherId, hmac_sha256_t64, sip_hash24, cha_cha20_poly1305, hmac_sha256_t32, tag_len, implemented,
}

pub record Primitives : Type 0 where
  -- `Hkdf::<Sha256>::new(None, secret).expand(info)` into 32 bytes
  pub hkdf : Bytes → Bytes → Bytes
  -- HMAC-SHA256 of a message under a key
  pub hmac_sha256 : Bytes → Bytes → Bytes
  -- SipHash-2-4 of a message under a key of 16 bytes, as a u64
  pub sip_hash : Bytes → Bytes → ℕ
  -- the tag of ChaCha20-Poly1305 over associated data, under a key and a nonce
  pub cha_cha_tag : Bytes → Bytes → Bytes → Bytes
  -- `subtle`'s comparison of two slices of one length
  pub equal_slices : Bytes → Bytes → Bool
  pub length-hmac : (key msg : Bytes) → length (hmac_sha256 key msg) ≡ 32
  pub length-cha_cha : (key nonce aad : Bytes) → length (cha_cha_tag key nonce aad) ≡ 16
  pub equal_iff : (a b : Bytes) → (equal_slices a b ≡ true) ↔ (a ≡ b)

-- `b"CATP1"` and `b"CATP1-time"`
abbrev catp1 : Bytes
catp1 = b'C' ∷ b'A' ∷ b'T' ∷ b'P' ∷ b'1' ∷ []

abbrev catp1_time : Bytes
catp1_time = b'C' ∷ b'A' ∷ b'T' ∷ b'P' ∷ b'1' ∷ b'-' ∷ b't' ∷ b'i' ∷ b'm' ∷ b'e' ∷ []

-- The info buffers of `epoch_key` and `time_key`.
unfoldable pub epoch_info : ℕ → ℕ → Direction → Bytes
epoch_info sender_id epoch_id dir =
    catp1 ++ (u32_to_be sender_id ++ (u32_to_be epoch_id ++ (direction_byte dir ∷ [])))

unfoldable pub time_info : ℕ → Direction → Bytes
time_info sender_id direction =
    catp1_time ++ (u32_to_be sender_id ++ (direction_byte direction ∷ []))

-- The copy of the parts into the 512-byte scratch buffer, `used` bytes of which are filled.
unfoldable pub stage_parts : ℕ → List Bytes → Result Bytes
stage_parts used [] = ok []
stage_parts used (part ∷ parts) =
    let rest = stage_parts (used + length part) parts in
    do
      reject_if (ltb (max_datagram_ipv4 - used) (length part)) (oversize (used + length part))
      staged ← rest
      ok (part ++ staged)

-- `update` and `write`, part by part, hash the concatenation.
unfoldable pub concat : List Bytes → Bytes
concat [] = []
concat (part ∷ parts) = part ++ concat parts

module _ (prim : Primitives) where
  open prim use {hkdf, hmac_sha256, sip_hash, cha_cha_tag, equal_slices}

  unfoldable pub epoch_key : Bytes → ℕ → ℕ → Direction → Bytes
  epoch_key secret sender_id epoch_id dir = hkdf secret (epoch_info sender_id epoch_id dir)

  unfoldable pub time_key : Bytes → ℕ → Direction → Bytes
  time_key secret sender_id direction = hkdf secret (time_info sender_id direction)

  -- The arms of the `match` on the suite: the tag that is written to the front of `out`.
  unfoldable pub tag_of : CipherId → Bytes → List Bytes → ℕ → Result Bytes
  unfolding stage_parts concat
  tag_of hmac_sha256_t64 key parts datagram_offset = ok (take 8 (hmac_sha256 key (concat parts)))
  tag_of hmac_sha256_t32 key parts datagram_offset = ok (take 4 (hmac_sha256 key (concat parts)))
  tag_of sip_hash24 key parts datagram_offset =
      ok (u64_to_be (sip_hash (take 16 key) (concat parts)))
  tag_of cha_cha20_poly1305 key parts datagram_offset = do
    staged ← stage_parts 0 parts
    ok (take 16 (cha_cha_tag key (replicate 8 0 ++ u32_to_be datagram_offset) staged))

  -- `mac_parts` into the buffer `out`: its new content.
  unfoldable pub mac_parts : CipherId → Bytes → List Bytes → ℕ → Bytes → Result Bytes
  mac_parts cipher key parts datagram_offset out = do
    reject_if (not (implemented cipher)) (cipher_unimplemented (CipherId.to_u8 cipher))
    reject_if (ltb (length out) (tag_len cipher)) (buffer_too_small (length out) (tag_len cipher))
    tag ← tag_of cipher key parts datagram_offset
    ok (tag ++ drop (tag_len cipher) out)

  unfoldable pub mac_into : CipherId → Bytes → Bytes → ℕ → Bytes → Result Bytes
  mac_into cipher key msg datagram_offset out = mac_parts cipher key (msg ∷ []) datagram_offset out

  unfoldable pub mac : CipherId → Bytes → Bytes → ℕ → Result Bytes
  mac cipher key msg datagram_offset =
      mac_into cipher key msg datagram_offset (replicate (tag_len cipher) 0)

  unfoldable pub ct_eq : Bytes → Bytes → Bool
  ct_eq a b = if length a != length b then false else equal_slices a b
