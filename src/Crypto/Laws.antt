-- ===== src/Crypto/Laws.antt =====
-- What the MAC functions compute, and how their layers agree.
use catp.Base.{
  ℕ, ◌+◌, ◌≤◌, ◌≡◌, refl, ap, ◌↔◌, arith, Bool, true, false, [], ◌∷◌, ◌++◌, length, take, drop,
  replicate, if◌then◌else◌, length-take, ltb, ◌!=◌, Bool-cases, inl, inr, ge→ltb,
}
use catp.Base.Words.{Bytes, u32_to_be, u64_to_be}
use catp.Errors.{oversize, ok, err}
use catp.Registry.CipherId.{
  CipherId, hmac_sha256_t64, sip_hash24, cha_cha20_poly1305, hmac_sha256_t32, tag_len,
}
use catp.Crypto.{Primitives, stage_parts, concat, tag_of, mac_parts, mac_into, mac, ct_eq}
use mathlib.Core.List.{append-nil}

-- Only ChaCha20-Poly1305 bounds the message, by the scratch buffer.
abbrev pub too_long : CipherId → ℕ → Bool
too_long cha_cha20_poly1305 n = ltb 512 n
too_long _ n = false

module _ (prim : Primitives) where
  -- The tag of a suite over one message.
  unfoldable pub tag : CipherId → Bytes → Bytes → ℕ → Bytes
  tag hmac_sha256_t64 key msg offset = take 8 (prim.hmac_sha256 key msg)
  tag hmac_sha256_t32 key msg offset = take 4 (prim.hmac_sha256 key msg)
  tag sip_hash24 key msg offset = u64_to_be (prim.sip_hash (take 16 key) msg)
  tag cha_cha20_poly1305 key msg offset =
      take 16 (prim.cha_cha_tag key (replicate 8 0 ++ u32_to_be offset) msg)

  pub length-tag :
      (c : CipherId) (key msg : Bytes) (offset : ℕ) → length (tag c key msg offset) ≡ tag_len c
  unfolding tag
  length-tag hmac_sha256_t64 key msg offset =
      omega (arith, length-take 8 (prim.hmac_sha256 key msg), prim.length-hmac key msg)
  length-tag hmac_sha256_t32 key msg offset =
      omega (arith, length-take 4 (prim.hmac_sha256 key msg), prim.length-hmac key msg)
  length-tag sip_hash24 key msg offset = refl
  length-tag cha_cha20_poly1305 key msg offset =
      let nonce = replicate 8 0 ++ u32_to_be offset in
      omega
        (arith, length-take 16 (prim.cha_cha_tag key nonce msg), prim.length-cha_cha key nonce msg)

  concat_one : (msg : Bytes) → concat (msg ∷ []) ≡ msg
  unfolding concat
  concat_one msg = append-nil msg

  concat_two : (a b : Bytes) → concat (a ∷ b ∷ []) ≡ a ++ b
  unfolding concat
  concat_two a b = ap (λ t. a ++ t) (append-nil b)

  stage_one :
      (msg : Bytes)
      → stage_parts 0 (msg ∷ [])
        ≡ (if ltb 512 (length msg) then err (oversize (length msg)) else ok msg)
  unfolding stage_parts
  stage_one msg = ground (arith, append-nil msg)

  stage_two :
      (a b : Bytes)
      → length a ≤ 512
      → stage_parts 0 (a ∷ b ∷ []) ≡ (
          if ltb 512 (length a + length b)
          then err (oversize (length a + length b))
          else ok (a ++ b))
  unfolding stage_parts
  stage_two a b h = ground (arith, append-nil b)

  -- `mac` returns the suite's tag, except that it refuses with `Oversize` a message of more than
  -- 512 bytes under the suite 0x03, which stages it in a buffer of that size.
  pub mac_cases :
      (c : CipherId) (key msg : Bytes) (offset : ℕ)
      → mac prim c key msg offset ≡ (
          if too_long c (length msg)
          then err (oversize (length msg))
          else ok (tag c key msg offset))
  unfolding mac mac_into mac_parts tag_of tag
  mac_cases hmac_sha256_t64 key msg offset = rw (concat_one msg, append-nil)
  mac_cases hmac_sha256_t32 key msg offset = rw (concat_one msg, append-nil)
  mac_cases sip_hash24 key msg offset = rw (concat_one msg)
  mac_cases cha_cha20_poly1305 key msg offset = elim (Bool-cases (ltb 512 (length msg))) [
    | inl long ↦ rw (stage_one msg, long)
    | inr fits ↦ rw (stage_one msg, fits, append-nil)
  ]

  -- For a header of at most 512 bytes and a buffer with room for the tag: `mac_parts` over the
  -- header and a payload writes the tag of their concatenation to the front of the buffer and
  -- leaves the rest, or refuses a message that the suite's scratch buffer cannot hold.
  pub mac_parts_cases :
      (c : CipherId) (key head msg : Bytes) (offset : ℕ) (out : Bytes)
      → length head ≤ 512
      → tag_len c ≤ length out
      → mac_parts prim c key (head ∷ msg ∷ []) offset out ≡ (
          if too_long c (length head + length msg)
          then err (oversize (length head + length msg))
          else ok (tag c key (head ++ msg) offset ++ drop (tag_len c) out))
  unfolding mac_parts tag_of tag
  mac_parts_cases hmac_sha256_t64 key head msg offset out h room =
      rw (ge→ltb _ _ room, concat_two head msg)
  mac_parts_cases hmac_sha256_t32 key head msg offset out h room =
      rw (ge→ltb _ _ room, concat_two head msg)
  mac_parts_cases sip_hash24 key head msg offset out h room =
      rw (ge→ltb _ _ room, concat_two head msg)
  mac_parts_cases cha_cha20_poly1305 key head msg offset out h room =
      elim (Bool-cases (ltb 512 (length head + length msg))) [
        | inl long ↦ rw (ge→ltb _ _ room, stage_two head msg h, long)
        | inr fits ↦ rw (ge→ltb _ _ room, stage_two head msg h, fits)
      ]

  -- `ct_eq` holds of two byte strings exactly when they are equal.
  pub ct_eq_iff : (a b : Bytes) → (ct_eq prim a b ≡ true) ↔ (a ≡ b)
  unfolding ct_eq
  ct_eq_iff a b = (forwards, backwards)
    where
      forwards : (if length a != length b then false else prim.equal_slices a b) ≡ true → a ≡ b
      forwards h = elim (Bool-cases (length a != length b)) [
        | inl differ ↦ let k : false ≡ true = rw differ at h in cc
        | inr same ↦ (prim.equal_iff a b).0 (rw same at h)
      ]

      backwards : a ≡ b → (if length a != length b then false else prim.equal_slices a b) ≡ true
      backwards e =
          let same : (length b != length b) ≡ false = ground arith in
          rw (e, same) ((prim.equal_iff b b).1 refl)
