-- ===== src/PeerState/Offsets.antt =====
-- The offset of an accepted datagram is that of its header.
use catp.Base.{ℕ, ◌^◌, ◌<◌, ◌≡◌, ap, arith, bit_and, List, [], ◌∷◌, All, get_or, zero, suc}
use catp.Base.Bits.{and_0x07, or_bytes}
use catp.Base.Words.{Bytes, IsByte}
use catp.Errors.{ok}
use catp.Registry.MsgType.{
  MsgType, message, event, alarm, number, series, epoch_announce, time_announce, time_request,
  heartbeat, capability_advertise,
}
use catp.Wire.Datagram.{Datagram}
use catp.Wire.Decode.{Accepted, parse_header, frame_records, frame, skip_unknown}

pub accepted_parts :
    (layouts : List (ℕ × ℕ)) (epoch_id : ℕ) (out : Datagram) (acc : Accepted)
    → acc ≡ skip_unknown layouts epoch_id out
    → (acc.epoch_id ≡ epoch_id) × (acc.datagram_offset ≡ out.datagram_offset)
unfolding skip_unknown
accepted_parts layouts epoch_id out acc h =
    (ap (λ (x : Accepted). x.epoch_id) h, ap (λ (x : Accepted). x.datagram_offset) h)

get_or-IsByte : (bs : Bytes) (i : ℕ) → All IsByte bs → get_or bs i 0 < 256
get_or-IsByte [] i h = omega arith
get_or-IsByte (b ∷ bs) zero (hb, h) = hb
get_or-IsByte (b ∷ bs) (suc i) (hb, h) = get_or-IsByte bs i h

-- The offset of a header fits its 19 bits.
pub parse_header-lt : (buf : Bytes) → All IsByte buf → (parse_header buf).datagram_offset < 2 ^ 19
unfolding parse_header
parse_header-lt buf h = omega (
  arith,
  and_0x07 (get_or buf 2 0),
  get_or-IsByte buf 3 h,
  get_or-IsByte buf 4 h,
  or_bytes (bit_and (get_or buf 2 0) 0x07) (get_or buf 3 0) (get_or buf 4 0) (get_or-IsByte buf 3 h)
      (get_or-IsByte buf 4 h),
)

frame_records-offset :
    (kind : MsgType) (o : Datagram) (payload : Bytes) (out : Datagram)
    → frame_records kind o payload ≡ ok out
    → out.datagram_offset ≡ o.datagram_offset
unfolding frame_records
frame_records-offset kind o payload out h = ground arith

pub frame-offset :
    (kind : MsgType) (o : Datagram) (payload : Bytes) (out : Datagram)
    → frame kind o payload ≡ ok out
    → out.datagram_offset ≡ o.datagram_offset
unfolding frame
frame-offset message o payload out h = frame_records-offset message o payload out h
frame-offset event o payload out h = frame_records-offset event o payload out h
frame-offset alarm o payload out h = frame_records-offset alarm o payload out h
frame-offset number o payload out h = ground arith
frame-offset series o payload out h = ground arith
frame-offset epoch_announce o payload out h = ground arith
frame-offset time_announce o payload out h = ground arith
frame-offset time_request o payload out h = ground arith
frame-offset heartbeat o payload out h = ground arith
frame-offset capability_advertise o payload out h = ground arith
