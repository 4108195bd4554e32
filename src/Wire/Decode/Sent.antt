-- ===== src/Wire/Decode/Sent.antt =====
-- From `Datagram::data` over `encode` to `decode`.
use catp.Base.{
  ℕ, ◌+◌, ◌^◌, ◌<◌, ◌≡◌, refl, sym, ap, ◌∙◌, arith, true, false, not, ltb, leb, ◌&&◌, List, length,
  All, ◌⊎◌, subst,
}
use catp.Base.Bits.{and_0x0f}
use catp.Base.Words.{Bytes}
use catp.Errors.{ok, framing}
use catp.Errors.Laws.{ok_inj, guard-eq-ok}
use catp.Registry.{Direction, ticks_per_epoch}
use catp.Registry.MsgType.{MsgType, is_record_framed, is_single, is_time}
use catp.Crypto.{Primitives}
use catp.Payload.{is_empty}
use catp.Replay.{ReplayWindow, check_and_set}
use catp.Wire.Record.{Record}
use catp.Wire.Record.RoundTrip.{IsWellFormed}
use catp.Wire.Datagram.{Datagram, base, record_datagram, encode}
use catp.Wire.Decode.{PeerConfig, skip_unknown, decode}
use catp.Wire.Decode.Accepts.{IsFrom}
use catp.Wire.Decode.RoundTrip.{Framed, decode-encode}

not_time_of : (mt : MsgType) → not (is_record_framed mt) ≡ false → is_time mt ≡ false
not_time_of mt h = ground arith

framed_of : (mt : MsgType) → not (is_record_framed mt) ≡ false → is_record_framed mt ≡ true
framed_of mt h = ground arith

-- The datagram that `Datagram::data` returns, and the checks that it has passed.
record Built (mt : MsgType) (peer : PeerConfig) (epoch_id off : ℕ) (records : List Record)
    (d : Datagram) : Type 0 where
  value : record (base mt peer.cipher peer.sender_id epoch_id off) { records = records } ≡ d
  framed : not (is_record_framed mt) ≡ false
  some_records : is_empty records ≡ false
  single : (is_single mt && ltb 1 (length records)) ≡ false
  room : leb ticks_per_epoch off ≡ false

record_datagram-Built :
    (mt : MsgType) (peer : PeerConfig) (epoch_id off : ℕ) (records : List Record) (d : Datagram)
    → record_datagram mt peer.cipher peer.sender_id epoch_id off records ≡ ok d
    → Built mt peer epoch_id off records d
unfolding record_datagram
record_datagram-Built mt peer epoch_id off records d h =
    let (framed, h1) =
      guard-eq-ok (not (is_record_framed mt)) (framing "msg_type is not record-framed") _ h in
    let (some_records, h2) =
      guard-eq-ok (is_empty records) (framing "record-framed datagram needs at least one record") _
        h1 in
    let (single, h3) =
      guard-eq-ok (is_single mt && ltb 1 (length records))
        (framing "EVENT and ALARM carry exactly one record") _ h2 in
    let (room, h4) =
      guard-eq-ok (leb ticks_per_epoch off) (framing "datagram_offset exceeds 19 bits") _ h3 in
    record {
      value = ok_inj h4;
      framed = framed;
      some_records = some_records;
      single = single;
      room = room;
    }

module _ (mt : MsgType) (peer : PeerConfig) (epoch_id off : ℕ) (records : List Record)
    (d : Datagram) (b : Built mt peer epoch_id off records d) where
  data-IsFrom :
      (local_epoch : ℕ)
      → peer.sender_id < 2 ^ 32
      → (epoch_id ≡ local_epoch) ⊎ (epoch_id + 1 ≡ local_epoch)
      → IsFrom peer local_epoch epoch_id mt d
  unfolding base
  data-IsFrom local_epoch sender near = subst (IsFrom peer local_epoch epoch_id mt) b.value record {
    header = record {
      version_lt = omega arith;
      msg_type_lt = ground arith;
      cipher_lt = ground arith;
      epoch_lt = omega (arith, and_0x0f epoch_id);
      reserved_lt = omega arith;
      offset_lt = ground (arith, b.room);
      sender_lt = sender;
    };
    version_eq = refl;
    kind_eq = refl;
    not_time = not_time_of mt b.framed;
    sender = refl;
    suite = refl;
    low = omega (arith, and_0x0f epoch_id);
    near = near;
  }

  data-Framed : All IsWellFormed records → Framed mt d
  unfolding base
  data-Framed v = subst (Framed mt) b.value record {
    framed = framed_of mt b.framed;
    some_records = b.some_records;
    well_formed = v;
    single = b.single;
    no_raw = refl;
  }

-- For a u32 sender: a datagram that `Datagram::data` builds from well-formed records and `encode`
-- seals is decoded by a receiver with the same configuration in the same epoch or the next, if its
-- window takes the offset: the receiver gets the built datagram and its epoch, records of unknown
-- layouts set apart.
pub decode-encode-record_datagram :
    (prim : Primitives) (words : ℕ) (mt : MsgType) (peer : PeerConfig)
    (local_epoch epoch_id off : ℕ) (records : List Record) (d : Datagram) (dir : Direction)
    (window : ReplayWindow) (max_size : ℕ) (wire : Bytes)
    → peer.sender_id < 2 ^ 32
    → (epoch_id ≡ local_epoch) ⊎ (epoch_id + 1 ≡ local_epoch)
    → All IsWellFormed records
    → record_datagram mt peer.cipher peer.sender_id epoch_id off records ≡ ok d
    → encode prim d peer.secret epoch_id dir max_size ≡ ok wire
    → (check_and_set words window off).0 ≡ ok tt
    → (decode prim words wire peer local_epoch dir window).0
      ≡ ok (skip_unknown peer.layouts epoch_id d)
decode-encode-record_datagram prim words mt peer local_epoch epoch_id off records d dir window
      max_size wire sender near v built sent fresh =
    let b = record_datagram-Built mt peer epoch_id off records d built in
    let same : d.datagram_offset ≡ off =
      unfold base in sym (ap (λ (x : Datagram). x.datagram_offset) b.value) in
    ap (λ x. x.0)
      (decode-encode prim words peer local_epoch epoch_id mt d dir window max_size wire
        (data-IsFrom mt peer epoch_id off records d b local_epoch sender near)
        (data-Framed mt peer epoch_id off records d b v) sent)
    ∙ rw (same, fresh) refl
