-- ===== src/Registry/CipherId.antt =====
-- src/lib.rs, `enum CipherId`.
use catp.Base.{ℕ, Bool, true, false, Option, none, some, ◌==◌, if◌then◌else◌}

pub data CipherId : Type 0 where
  hmac_sha256_t64 sip_hash24 cha_cha20_poly1305 hmac_sha256_t32 : CipherId

-- `cipher as u8`
abbrev pub to_u8 : CipherId → ℕ
to_u8 hmac_sha256_t64 = 0x01
to_u8 sip_hash24 = 0x02
to_u8 cha_cha20_poly1305 = 0x03
to_u8 hmac_sha256_t32 = 0x04

unfoldable pub from_u8 : ℕ → Option CipherId
from_u8 v =
    if v == 0x01
    then some hmac_sha256_t64
    else if v == 0x02
    then some sip_hash24
    else if v == 0x03
    then some cha_cha20_poly1305
    else if v == 0x04
    then some hmac_sha256_t32
    else none

abbrev pub tag_len : CipherId → ℕ
tag_len hmac_sha256_t64 = 8
tag_len sip_hash24 = 8
tag_len cha_cha20_poly1305 = 16
tag_len hmac_sha256_t32 = 4

abbrev pub implemented : CipherId → Bool
implemented hmac_sha256_t64 = true
implemented hmac_sha256_t32 = true
implemented sip_hash24 = true
implemented cha_cha20_poly1305 = true

abbrev pub requires_inbound_rate_limit : CipherId → Bool
requires_inbound_rate_limit hmac_sha256_t32 = true
requires_inbound_rate_limit _ = false
