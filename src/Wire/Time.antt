-- ===== src/Wire/Time.antt =====
-- src/wire.rs, the time-recovery messages: `time_announce`, `time_request`, and their decoders.
pub mod RoundTrip
use catp.Base.{
  ℕ, ◌+◌, bit_and, bit_or, Bool, not, ◌!=◌, List, [], ◌∷◌, ◌++◌, length, get_or, take, drop,
  if◌then◌else◌,
}
use catp.Base.Int.{ℤ}
use catp.Base.Words.{Bytes, shl, shr, u32_from_be, i64_from_be, i64_to_be}
use catp.Errors.{
  Error, too_short, unsupported_version, bad_msg_type, unknown_sender, cipher_mismatch, auth_failed,
  framing, Result, ok, err, ◌>>=◌, ◌>>◌, reject_if,
}
use catp.Registry.{Direction, node_to_collector, collector_to_node, version, header_len}
use catp.Registry.CipherId
use catp.Registry.CipherId.{hmac_sha256_t64, tag_len}
use catp.Registry.MsgType
use catp.Registry.MsgType.{MsgType}
use catp.Crypto.{Primitives, time_key, mac, ct_eq}
use catp.Wire.Datagram.{Datagram, header_bytes, auth_header}

-- The struct literal that the four functions start from.
unfoldable pub time_datagram : MsgType → ℕ → ℕ → Bytes → Datagram
time_datagram msg_type reserved sender_id raw = record {
  version = version;
  msg_type = MsgType.to_u8 msg_type;
  cipher_id = CipherId.to_u8 hmac_sha256_t64;
  epoch_low = 0;
  reserved = reserved;
  datagram_offset = 0;
  sender_id = sender_id;
  records = [];
  raw = raw;
}

-- Its buffers are never shorter than the header.
unfoldable pub check_time_header : Bytes → MsgType → ℕ → Result ℕ
check_time_header buf want sender_id = do
  reject_if (bit_and (shr (get_or buf 0 0) 5) 0x07 != version)
      (unsupported_version (bit_and (shr (get_or buf 0 0) 5) 0x07))
  reject_if (bit_and (get_or buf 0 0) 0x1f != MsgType.to_u8 want)
      (bad_msg_type (bit_and (get_or buf 0 0) 0x1f))
  reject_if (bit_and (shr (get_or buf 1 0) 4) 0x0f != CipherId.to_u8 hmac_sha256_t64)
      (cipher_mismatch (bit_and (shr (get_or buf 1 0) 4) 0x0f) (CipherId.to_u8 hmac_sha256_t64))
  reject_if (bit_and (get_or buf 1 0) 0x0f != 0) (framing "time-recovery epoch_low must be zero")
  let off =
      bit_or (bit_or (shl (bit_and (get_or buf 2 0) 0x07) 16) (shl (get_or buf 3 0) 8))
        (get_or buf 4 0)
  reject_if (off != 0) (framing "time-recovery datagram_offset must be zero")
  let got = u32_from_be (get_or buf 5 0) (get_or buf 6 0) (get_or buf 7 0) (get_or buf 8 0)
  reject_if (got != sender_id) (unknown_sender got)
  ok (bit_and (shr (get_or buf 2 0) 3) 0x1f)

module _ (prim : Primitives) where
  unfoldable pub time_announce : ℕ → ℤ → Bytes → Result Bytes
  unfolding time_datagram
  time_announce sender_id asserted_time secret = do
    let d = time_datagram MsgType.time_announce 0 sender_id (i64_to_be asserted_time)
    let key = time_key prim secret sender_id collector_to_node
    tag ← mac prim hmac_sha256_t64 key (auth_header d 0 ++ d.raw) 0
    ok (header_bytes d ++ (d.raw ++ tag))

  unfoldable pub time_request : ℕ → Bytes → Result Bytes
  unfolding time_datagram
  time_request sender_id secret = do
    let d = time_datagram MsgType.time_request 0 sender_id []
    let key = time_key prim secret sender_id node_to_collector
    tag ← mac prim hmac_sha256_t64 key (auth_header d 0) 0
    ok (header_bytes d ++ tag)

  unfoldable pub decode_time_request : Bytes → ℕ → Bytes → Result (Unit {0})
  unfolding check_time_header time_datagram
  decode_time_request buf sender_id secret = do
    reject_if (length buf != header_len + tag_len hmac_sha256_t64) too_short
    reserved ← check_time_header buf MsgType.time_request sender_id
    let d = time_datagram MsgType.time_request reserved sender_id []
    let key = time_key prim secret sender_id node_to_collector
    expected ← mac prim hmac_sha256_t64 key (auth_header d 0) 0
    reject_if (not (ct_eq prim expected (drop header_len buf))) auth_failed
    ok tt

  unfoldable pub decode_time_announce : Bytes → ℕ → Bytes → Result ℤ
  unfolding check_time_header time_datagram i64_from_be
  decode_time_announce buf sender_id secret = do
    reject_if (length buf != header_len + 8 + tag_len hmac_sha256_t64) too_short
    reserved ← check_time_header buf MsgType.time_announce sender_id
    let payload = take 8 (drop header_len buf)
    let d = time_datagram MsgType.time_announce reserved sender_id payload
    let key = time_key prim secret sender_id collector_to_node
    expected ← mac prim hmac_sha256_t64 key (auth_header d 0 ++ payload) 0
    reject_if (not (ct_eq prim expected (drop (header_len + 8) buf))) auth_failed
    ok (i64_from_be payload)
