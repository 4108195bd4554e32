-- ===== src/Provisioning/Config.antt =====
-- src/provisioning.rs, `Bundle::into_peer_config`, against `PeerState::new` of src/peer.rs.
use catp.Base.{arith, ℕ, inl, inr, Option-cases, Bool-cases, ◌≡◌, refl, ◌&&◌, Option, some}
use catp.Errors.{cipher_unimplemented, ok, ◌>>=◌, ok_or}
use catp.Limiter.{RateLimit}
use catp.PeerState
use catp.PeerState.{PeerState, is_none}
use catp.Provisioning.{Bundle, into_peer_config}
use catp.Registry.CipherId
use catp.Registry.CipherId.{CipherId, requires_inbound_rate_limit}
use catp.Wire.Decode.{PeerConfig}

-- The bundle's values, the suite that its byte names, and the caller's limit.
abbrev pub config_of : Bundle → CipherId → Option RateLimit → PeerConfig
config_of b cipher inbound_rate_limit = record {
  sender_id = b.sender_id;
  secret = b.device_secret;
  cipher = cipher;
  layouts = b.layouts;
  inbound_rate_limit = inbound_rate_limit;
}

to_u8-from_u8 : (v : ℕ) (c : CipherId) → CipherId.from_u8 v ≡ some c → CipherId.to_u8 c ≡ v
unfolding CipherId.from_u8
to_u8-from_u8 v CipherId.hmac_sha256_t64 h = ground arith
to_u8-from_u8 v CipherId.sip_hash24 h = ground arith
to_u8-from_u8 v CipherId.cha_cha20_poly1305 h = ground arith
to_u8-from_u8 v CipherId.hmac_sha256_t32 h = ground arith

-- A bundle gives a configuration, or the error, that starting a receiver on its values would: an
-- unregistered suite is refused by its byte; otherwise the result is what `PeerState::new` makes of
-- that configuration, its refusal of a suite without the limit it requires included.
pub into_peer_config-new :
    (b : Bundle) (limit : Option RateLimit)
    → into_peer_config b limit ≡ (
        ok_or (CipherId.from_u8 b.cipher_id) (cipher_unimplemented b.cipher_id) >>= λ cipher.
        PeerState.new (config_of b cipher limit) >>= λ peer. ok peer.config)
unfolding into_peer_config PeerState.new
into_peer_config-new b limit = elim (Option-cases (CipherId.from_u8 b.cipher_id)) [
  | inl e ↦ rw e refl
  | inr (cipher, e) ↦ elim (Bool-cases (requires_inbound_rate_limit cipher && is_none limit)) [
    | inl needed ↦ rw (e, needed, to_u8-from_u8 b.cipher_id cipher e) refl
    | inr free ↦ rw (e, free) refl
  ]
]
