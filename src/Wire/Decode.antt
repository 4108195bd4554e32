-- ===== src/Wire/Decode.antt =====
-- src/wire.rs, `PeerConfig`, `Accepted` and `decode`: the receiver's checks in their order.
pub mod Header
pub mod Steps
pub mod Framing
pub mod Frames
pub mod Accepts
pub mod RoundTrip
pub mod Window
pub mod Sent
pub mod Raw
pub mod Canonical
pub mod Reframe
pub mod Reencode
use catp.Base.{
  ℕ, zero, suc, ◌+◌, ◌-◌, ◌*◌, ◌/◌, ◌%◌, ◌^◌, bit_and, bit_or, Bool, true, false, not, ◌&&◌, ◌||◌,
  ltb, ◌==◌, ◌!=◌, if◌then◌else◌, Option, none, some, List, [], ◌∷◌, ◌++◌, length, get_or, take,
  drop,
}
use catp.Base.Words.{Bytes, shl, shr, u32_from_be}
use catp.Errors.{
  Error, too_short, unsupported_version, bad_msg_type, unknown_sender, cipher_mismatch,
  cipher_unimplemented, epoch_out_of_window, auth_failed, framing, Result, ok, err, ◌>>=◌, ◌>>◌,
  reject_if, ok_or,
}
use catp.Registry.{Direction, version, header_len, record_header_len}
use catp.Registry.CipherId
use catp.Registry.CipherId.{CipherId, tag_len}
use catp.Registry.MsgType
use catp.Registry.MsgType.{MsgType, message, event, alarm, number, series, is_single, is_time}
use catp.Epoch.{reconstruct_epoch}
use catp.Limiter.{RateLimit}
use catp.Payload.{validate_number, validate_series, is_empty}
use catp.Crypto.{Primitives, epoch_key, mac, ct_eq}
use catp.Replay.{ReplayWindow, check_and_set}
use catp.Wire.Record
use catp.Wire.Record.{Record}
use catp.Wire.Datagram.{Datagram, auth_header}

pub record Accepted : Type 0 where
  pub datagram : Datagram
  pub epoch_id : ℕ
  pub datagram_offset : ℕ
  pub skipped : List Record

-- The secret is its 32 bytes.
pub record PeerConfig : Type 0 where
  pub sender_id : ℕ
  pub secret : Bytes
  pub cipher : CipherId
  pub layouts : List (ℕ × ℕ)
  pub inbound_rate_limit : Option RateLimit

-- The header's fields, and the datagram `out` that they start.
unfoldable pub parse_header : Bytes → Datagram
parse_header buf = record {
  version = bit_and (shr (get_or buf 0 0) 5) 0x07;
  msg_type = bit_and (get_or buf 0 0) 0x1f;
  cipher_id = bit_and (shr (get_or buf 1 0) 4) 0x0f;
  epoch_low = bit_and (get_or buf 1 0) 0x0f;
  reserved = bit_and (shr (get_or buf 2 0) 3) 0x1f;
  datagram_offset =
      bit_or (bit_or (shl (bit_and (get_or buf 2 0) 0x07) 16) (shl (get_or buf 3 0) 8))
        (get_or buf 4 0);
  sender_id = u32_from_be (get_or buf 5 0) (get_or buf 6 0) (get_or buf 7 0) (get_or buf 8 0);
  records = [];
  raw = [];
}

-- What steps 1 to 7 hand to the steps behind them.
pub record Verified : Type 0 where
  pub out : Datagram
  pub kind : MsgType
  pub epoch_id : ℕ
  pub payload : Bytes

-- `while pos < payload.len()`: `skip` counts the bytes up to `pos`. The two tests at the end of the
-- input are the loop's condition and the check that follows it.
unfoldable pub read_records : ℕ → Bytes → Result (List Record)
read_records zero [] = ok []
read_records (suc skip) [] = err (framing "trailing bytes after final record")
read_records (suc skip) (b ∷ bs) = read_records skip bs
read_records zero (b ∷ bs) = do
  (r, used) ← Record.decode (b ∷ bs)
  rest ← read_records (used - 1) bs
  ok (r ∷ rest)

-- The arm of step 9 for record-framed types.
unfoldable pub frame_records : MsgType → Datagram → Bytes → Result Datagram
frame_records mt out payload = do
  reject_if (ltb (length payload) record_header_len)
      (framing "payload shorter than one record header")
  recs ← read_records 0 payload
  reject_if (is_single mt && ltb 1 (length recs))
      (framing "EVENT and ALARM carry exactly one record")
  ok (record out { records = recs })

-- Step 9.
unfoldable pub frame : MsgType → Datagram → Bytes → Result Datagram
unfolding frame_records
frame message out payload = frame_records message out payload
frame event out payload = frame_records event out payload
frame alarm out payload = frame_records alarm out payload
frame number out payload = do v ← validate_number payload; ok (record out { raw = payload })
frame series out payload = do
  v ← validate_series payload out.datagram_offset
  ok (record out { raw = payload })
frame _ out payload = ok (record out { raw = payload })

-- `layouts.contains(&(format, schema_version))`
unfoldable pub holds : List (ℕ × ℕ) → Record → Bool
holds [] r = false
holds ((f, s) ∷ layouts) r = f == r.format && s == r.schema_version || holds layouts r

-- `partition`
unfoldable pub partition : List (ℕ × ℕ) → List Record → List Record × List Record
partition layouts [] = ([], [])
partition layouts (r ∷ rs) =
    let (keep, skip) = partition layouts rs in
    if holds layouts r then (r ∷ keep, skip) else (keep, r ∷ skip)

-- Step 10, and the result. On no records both parts are empty.
unfoldable pub skip_unknown : List (ℕ × ℕ) → ℕ → Datagram → Accepted
skip_unknown layouts epoch_id out =
    let (keep, skip) = partition layouts out.records in
    record {
      datagram = record out { records = keep };
      epoch_id = epoch_id;
      datagram_offset = out.datagram_offset;
      skipped = skip;
    }

-- Steps 1 to 5, and the length that the suite's tag needs: the header, its type and its suite.
unfoldable pub check_header : Bytes → PeerConfig → Result (Datagram × MsgType × CipherId)
check_header buf peer = do
  reject_if (ltb (length buf) header_len) too_short
  let out = parse_header buf
  reject_if (out.version != version) (unsupported_version out.version)
  mt ← ok_or (MsgType.from_u8 out.msg_type) (bad_msg_type out.msg_type)
  reject_if (is_time mt) (bad_msg_type out.msg_type)
  reject_if (out.sender_id != peer.sender_id) (unknown_sender out.sender_id)
  reject_if (out.cipher_id != CipherId.to_u8 peer.cipher)
      (cipher_mismatch out.cipher_id (CipherId.to_u8 peer.cipher))
  cipher ← ok_or (CipherId.from_u8 out.cipher_id) (cipher_unimplemented out.cipher_id)
  reject_if (ltb (length buf) (header_len + tag_len cipher)) too_short
  ok (out, mt, cipher)

module _ (prim : Primitives) where
  -- Steps 6 and 7.
  unfoldable pub authenticate :
      Bytes → PeerConfig → ℕ → Direction → Datagram × MsgType × CipherId → Result Verified
  authenticate buf peer local_epoch dir (out, mt, cipher) = do
    epoch_id ← ok_or (reconstruct_epoch local_epoch out.epoch_low) epoch_out_of_window
    let payload = take (length buf - tag_len cipher - header_len) (drop header_len buf)
    let tag = drop (length buf - tag_len cipher) buf
    let key = epoch_key prim peer.secret out.sender_id epoch_id dir
    expected ← mac prim cipher key (auth_header out epoch_id ++ payload) out.datagram_offset
    reject_if (not (ct_eq prim expected tag)) auth_failed
    ok (record { out = out; kind = mt; epoch_id = epoch_id; payload = payload })

  -- Steps 1 to 7. Nothing here touches the window.
  unfoldable pub verify : Bytes → PeerConfig → ℕ → Direction → Result Verified
  verify buf peer local_epoch dir = do
    checked ← check_header buf peer
    authenticate buf peer local_epoch dir checked

  module _ (words : ℕ) where
    -- Steps 8 to 10 on a verified datagram.
    unfoldable pub admit : Verified → PeerConfig → ReplayWindow → Result Accepted × ReplayWindow
    admit v peer window =
        let (r, window') = check_and_set words window v.out.datagram_offset in
        (
          (do
            u ← r
            out ← frame v.kind v.out v.payload
            ok (skip_unknown peer.layouts v.epoch_id out)),
          window',
        )

    -- `decode`, with the window that `&mut window` leaves.
    unfoldable pub decode :
        Bytes → PeerConfig → ℕ → Direction → ReplayWindow → Result Accepted × ReplayWindow
    unfolding admit
    decode buf peer local_epoch dir window = elim (verify buf peer local_epoch dir) [
      | ok v ↦ admit v peer window
      | err e ↦ (err e, window)
    ]
