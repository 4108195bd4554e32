-- ===== src/Control.antt =====
-- src/control.rs: the control payloads.
pub mod RoundTrip
use catp.Base.{
  ℕ, ◌+◌, ◌*◌, Bool, not, ◌||◌, ltb, ◌!=◌, List, [], ◌∷◌, ◌++◌, length, get_or, take, drop,
  if◌then◌else◌,
}
use catp.Base.Int.{ℤ}
use catp.Base.Words.{Bytes, as_u8, u32_from_be, u32_to_be, i64_from_be, i64_to_be}
use catp.Errors.{Error, framing, Result, ok, err, ◌>>=◌, ◌>>◌, reject_if}
use catp.Registry.MsgType.{MsgType, epoch_announce, time_announce, heartbeat, capability_advertise}
use catp.Payload.{is_empty}

pub record Capability : Type 0 where
  pub max_version : ℕ
  pub ciphers : List ℕ
  pub layouts : List (ℕ × ℕ)

pub data Control : Type 0 where
  -- target_epoch
  announce_epoch : ℕ → Control
  -- asserted_time
  announce_time : ℤ → Control
  beat : Control
  capability : Capability → Control

-- The loop that pushes the pairs.
unfoldable pub pair_bytes : List (ℕ × ℕ) → Bytes
pair_bytes [] = []
pair_bytes ((f, s) ∷ layouts) = f ∷ s ∷ pair_bytes layouts

unfoldable pub encode_capability : Capability → Result Bytes
unfolding pair_bytes
encode_capability c = do
  reject_if (ltb 255 (length c.ciphers) || ltb 255 (length c.layouts))
      (framing "capability list longer than 255")
  ok (
      c.max_version
      ∷ as_u8 (length c.ciphers)
      ∷ (c.ciphers ++ (as_u8 (length c.layouts) ∷ pair_bytes c.layouts)))

-- `as_chunks::<2>` and the `map` over its pairs; the remainder is dropped.
unfoldable pub read_pairs : Bytes → List (ℕ × ℕ)
read_pairs (f ∷ s ∷ rest) = (f, s) ∷ read_pairs rest
read_pairs _ = []

unfoldable pub parse_capability : Bytes → Result Capability
unfolding read_pairs
parse_capability p = do
  reject_if (ltb (length p) 3) (framing "CAPABILITY_ADVERTISE shorter than 3 bytes")
  let nc = get_or p 1 0
  reject_if (ltb (length p) (2 + nc + 1)) (framing "cipher list overruns payload")
  let nl = get_or p (2 + nc) 0
  reject_if (length p != 3 + nc + nl * 2) (framing "CAPABILITY_ADVERTISE length mismatch")
  ok (record {
    max_version = get_or p 0 0;
    ciphers = take nc (drop 2 p);
    layouts = read_pairs (drop (3 + nc) p);
  })

unfoldable pub parse : MsgType → Bytes → Result Control
unfolding i64_from_be parse_capability
parse epoch_announce p = do
  reject_if (length p != 4) (framing "EPOCH_ANNOUNCE payload is not 4 bytes")
  ok (announce_epoch (u32_from_be (get_or p 0 0) (get_or p 1 0) (get_or p 2 0) (get_or p 3 0)))
parse time_announce p = do
  reject_if (length p != 8) (framing "TIME_ANNOUNCE payload is not 8 bytes")
  ok (announce_time (i64_from_be p))
parse heartbeat p = do
  reject_if (not (is_empty p)) (framing "HEARTBEAT payload is not empty")
  ok beat
parse capability_advertise p = do c ← parse_capability p; ok (capability c)
parse _ p = err (framing "not a control message type")

unfoldable pub encode : Control → Result Bytes
unfolding encode_capability
encode (announce_epoch target_epoch) = ok (u32_to_be target_epoch)
encode (announce_time asserted_time) = ok (i64_to_be asserted_time)
encode beat = ok []
encode (capability c) = encode_capability c

abbrev pub msg_type : Control → MsgType
msg_type (announce_epoch target_epoch) = epoch_announce
msg_type (announce_time asserted_time) = time_announce
msg_type beat = heartbeat
msg_type (capability c) = capability_advertise
