-- ===== src/Registry/Laws.antt =====
-- The bytes of the registries name their members.
use catp.Base.{◌≡◌, refl, some}
use catp.Registry.CipherId
use catp.Registry.CipherId.{CipherId}
use catp.Registry.MsgType
use catp.Registry.MsgType.{MsgType}

pub CipherId_round : (c : CipherId) → CipherId.from_u8 (CipherId.to_u8 c) ≡ some c
unfolding CipherId.from_u8
CipherId_round CipherId.hmac_sha256_t64 = refl
CipherId_round CipherId.sip_hash24 = refl
CipherId_round CipherId.cha_cha20_poly1305 = refl
CipherId_round CipherId.hmac_sha256_t32 = refl

pub MsgType_round : (mt : MsgType) → MsgType.from_u8 (MsgType.to_u8 mt) ≡ some mt
unfolding MsgType.from_u8
MsgType_round MsgType.message = refl
MsgType_round MsgType.event = refl
MsgType_round MsgType.alarm = refl
MsgType_round MsgType.number = refl
MsgType_round MsgType.series = refl
MsgType_round MsgType.epoch_announce = refl
MsgType_round MsgType.time_announce = refl
MsgType_round MsgType.time_request = refl
MsgType_round MsgType.heartbeat = refl
MsgType_round MsgType.capability_advertise = refl
