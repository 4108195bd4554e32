-- ===== src/Wire/Datagram.antt =====
-- src/wire.rs, `Datagram`: its constructors, its header, and the encoding into a buffer.
pub mod Build
pub mod Header
pub mod Payload
pub mod Encode
use catp.Base.{
  ℕ, ◌+◌, ◌-◌, ◌*◌, ◌/◌, ◌%◌, ◌^◌, bit_and, bit_or, Bool, true, false, not, ◌&&◌, ltb, leb, ◌==◌,
  if◌then◌else◌, Option, none, List, [], ◌∷◌, ◌++◌, length, get_or, take, drop, replicate,
}
use catp.Base.Int.{ℤ}
use catp.Base.Words.{Bytes, as_u8, shl, shr, u16_to_be, u32_to_be, i16_to_be}
use catp.Errors.{
  Error, framing, bad_number, bad_series, buffer_too_small, cipher_unimplemented, oversize, Result,
  ok, err, ◌>>=◌, ◌>>◌, reject_if, ok_or, to_option,
}
use catp.Registry.{Direction, version, header_len, ticks_per_epoch, is_control}
use catp.Registry.CipherId
use catp.Registry.CipherId.{CipherId, tag_len}
use catp.Registry.MsgType
use catp.Registry.MsgType.{MsgType, is_record_framed, is_single}
use catp.Payload.{scale_is_valid, validate_number, validate_series, is_empty}
use catp.Crypto.{Primitives, epoch_key, mac_parts}
use catp.Wire.Record.{Record, wire_len, write_into}

pub record Datagram : Type 0 where
  pub version : ℕ
  pub msg_type : ℕ
  pub cipher_id : ℕ
  pub epoch_low : ℕ
  pub reserved : ℕ
  pub datagram_offset : ℕ
  pub sender_id : ℕ
  pub records : List Record
  pub raw : Bytes

unfoldable pub base : MsgType → CipherId → ℕ → ℕ → ℕ → Datagram
base msg_type cipher sender_id epoch_id off = record {
  version = version;
  msg_type = MsgType.to_u8 msg_type;
  cipher_id = CipherId.to_u8 cipher;
  epoch_low = as_u8 (bit_and epoch_id 0x0f);
  reserved = 0;
  datagram_offset = off;
  sender_id = sender_id;
  records = [];
  raw = [];
}

-- `Datagram::data`
unfoldable pub record_datagram : MsgType → CipherId → ℕ → ℕ → ℕ → List Record → Result Datagram
record_datagram msg_type cipher sender_id epoch_id datagram_offset records = do
  reject_if (not (is_record_framed msg_type)) (framing "msg_type is not record-framed")
  reject_if (is_empty records) (framing "record-framed datagram needs at least one record")
  reject_if (is_single msg_type && ltb 1 (length records))
      (framing "EVENT and ALARM carry exactly one record")
  reject_if (leb ticks_per_epoch datagram_offset) (framing "datagram_offset exceeds 19 bits")
  let d = base msg_type cipher sender_id epoch_id datagram_offset
  ok (record d { records = records })

unfoldable pub number : CipherId → ℕ → ℕ → ℕ → ℕ → ℤ → Result Datagram
number cipher sender_id epoch_id datagram_offset scale mantissa = do
  reject_if (not (scale_is_valid scale)) (bad_number "scale must be 0x01..=0x07")
  reject_if (leb ticks_per_epoch datagram_offset) (framing "datagram_offset exceeds 19 bits")
  let d = base MsgType.number cipher sender_id epoch_id datagram_offset
  ok (record d { raw = scale ∷ i16_to_be mantissa })

-- The loop over `readings[1..]`: the bytes that it appends, and `prev` after it.
unfoldable pub write_entries : ℕ → List (ℕ × ℤ) → Result (Bytes × ℕ)
write_entries prev [] = ok ([], prev)
write_entries prev ((offset, mantissa) ∷ readings) =
    let rest = write_entries offset readings in
    do
      reject_if (leb offset prev) (bad_series "reading instants must strictly increase")
      reject_if (ltb 65535 (offset - prev)) (bad_series "gap between readings exceeds 65535 ticks")
      (bytes, last) ← rest
      ok (u16_to_be (offset - prev) ++ (i16_to_be mantissa ++ bytes), last)

-- `series` once `readings[0]` is taken off; the readings have at least two elements here.
unfoldable pub series_from : CipherId → ℕ → ℕ → ℕ → ℕ × ℤ → List (ℕ × ℤ) → Result Datagram
series_from cipher sender_id epoch_id scale (first_offset, first_mantissa) readings = do
  reject_if (leb ticks_per_epoch first_offset) (framing "datagram_offset exceeds 19 bits")
  (entries, prev) ← write_entries first_offset readings
  reject_if (leb ticks_per_epoch prev) (bad_series "reading instant crosses the epoch boundary")
  let d = base MsgType.series cipher sender_id epoch_id first_offset
  ok (record d { raw = scale ∷ (i16_to_be first_mantissa ++ entries) })

unfoldable pub series : CipherId → ℕ → ℕ → ℕ → List (ℕ × ℤ) → Result Datagram
unfolding series_from write_entries
series cipher sender_id epoch_id scale [] = do
  reject_if (not (scale_is_valid scale)) (bad_series "scale must be 0x01..=0x07")
  err (bad_series "SERIES must carry at least two readings")
series cipher sender_id epoch_id scale (first ∷ readings) = do
  reject_if (not (scale_is_valid scale)) (bad_series "scale must be 0x01..=0x07")
  reject_if (ltb (length (first ∷ readings)) 2)
      (bad_series "SERIES must carry at least two readings")
  series_from cipher sender_id epoch_id scale first readings

unfoldable pub control : MsgType → CipherId → ℕ → ℕ → ℕ → Bytes → Result Datagram
control msg_type cipher sender_id epoch_id datagram_offset body = do
  reject_if (not (is_control (MsgType.to_u8 msg_type))) (framing "not a control type")
  reject_if (leb ticks_per_epoch datagram_offset) (framing "datagram_offset exceeds 19 bits")
  let d = base msg_type cipher sender_id epoch_id datagram_offset
  ok (record d { raw = body })

unfoldable pub header_bytes : Datagram → Bytes
header_bytes d =
    let b0 = bit_or (shl (bit_and d.version 0x07) 5) (bit_and d.msg_type 0x1f) in
    let b1 = bit_or (shl (bit_and d.cipher_id 0x0f) 4) (bit_and d.epoch_low 0x0f) in
    let o = bit_and d.datagram_offset 0x7ffff in
    let b2 = bit_or (shl (bit_and d.reserved 0x1f) 3) (bit_and (as_u8 (shr o 16)) 0x07) in
    b0 ∷ b1 ∷ b2 ∷ as_u8 (shr o 8) ∷ as_u8 o ∷ u32_to_be d.sender_id

unfoldable pub auth_header : Datagram → ℕ → Bytes
auth_header d epoch_id =
    let h = header_bytes d in
    get_or h 0 0
    ∷ bit_and (get_or h 1 0) 0xf0
    ∷ get_or h 2 0
    ∷ get_or h 3 0
    ∷ get_or h 4 0
    ∷ (u32_to_be epoch_id ++ (get_or h 5 0 ∷ get_or h 6 0 ∷ get_or h 7 0 ∷ get_or h 8 0 ∷ []))

unfoldable pub records_len : List Record → ℕ
records_len [] = 0
records_len (r ∷ rs) = wire_len r + records_len rs

unfoldable pub payload_len : Datagram → ℕ
unfolding records_len
payload_len d = if is_empty d.records then length d.raw else records_len d.records

-- The loop over the records, on what is left of the buffer.
unfoldable pub write_records : List Record → Bytes → Result (ℕ × Bytes)
write_records [] out = ok (0, out)
write_records (r ∷ rs) out = do
  (n, out') ← write_into r out
  (used, rest) ← write_records rs (drop n out')
  ok (n + used, take n out' ++ rest)

unfoldable pub payload_into : Datagram → Bytes → Result (ℕ × Bytes)
unfolding write_records
payload_into d out = do
  let need = payload_len d
  reject_if (ltb (length out) need) (buffer_too_small (length out) need)
  if is_empty d.records
      then ok (need, d.raw ++ drop need out)
      else (do (used, out') ← write_records d.records out; ok (need, out'))

module _ (prim : Primitives) where
  -- The number of bytes written, and the buffer's new content.
  unfoldable pub encode_into : Datagram → Bytes → ℕ → Direction → Bytes → Result (ℕ × Bytes)
  encode_into d secret epoch_id dir out = do
    cipher ← ok_or (CipherId.from_u8 d.cipher_id) (cipher_unimplemented d.cipher_id)
    let need = header_len + payload_len d + tag_len cipher
    reject_if (ltb (length out) need) (buffer_too_small (length out) need)
    (plen, body) ← payload_into d (take (payload_len d) (drop header_len out))
    let key = epoch_key prim secret d.sender_id epoch_id dir
    let written = header_bytes d ++ (body ++ drop (header_len + payload_len d) out)
    let payload = take plen (drop header_len written)
    let tag = take (tag_len cipher) (drop plen (drop header_len written))
    tag' ← mac_parts prim cipher key (auth_header d epoch_id ∷ payload ∷ []) d.datagram_offset tag
    ok (
      header_len + plen + tag_len cipher,
      take (header_len + plen) written ++ (tag' ++ drop (header_len + plen + tag_len cipher) out),
    )

  unfoldable pub encode : Datagram → Bytes → ℕ → Direction → ℕ → Result Bytes
  encode d secret epoch_id dir max_datagram_size = do
    cipher ← ok_or (CipherId.from_u8 d.cipher_id) (cipher_unimplemented d.cipher_id)
    let buffer = replicate (header_len + payload_len d + tag_len cipher) 0
    (n, out) ← encode_into d secret epoch_id dir buffer
    reject_if (ltb max_datagram_size (length (take n out))) (oversize (length (take n out)))
    ok (take n out)

-- `number_value` and `series_values`
unfoldable pub number_value : Datagram → Option (ℕ × ℤ)
number_value d =
    if d.msg_type == MsgType.to_u8 MsgType.number then to_option (validate_number d.raw) else none

unfoldable pub series_values : Datagram → Option (ℕ × List (ℕ × ℤ))
series_values d =
    if d.msg_type == MsgType.to_u8 MsgType.series
    then to_option (validate_series d.raw d.datagram_offset)
    else none
