-- ===== src/Wire/Decode/Raw.antt =====
-- From `Datagram::number`, `series` and `control` over `encode` to `decode`, and to the readings or the
-- control message.
use catp.Base.{
  ℕ, ◌+◌, ◌^◌, ◌<◌, ◌≡◌, refl, ap, ◌∙◌, arith, false, leb, some, List, [], ◌∷◌, All, ◌⊎◌, subst,
}
use catp.Base.Bits.{and_0x0f}
use catp.Base.Int.{ℤ}
use catp.Base.Words.{Bytes, IsI16}
use catp.Control
use catp.Control.{Control, msg_type}
use catp.Control.RoundTrip.{IsControl, parse-encode}
use catp.Crypto.{Primitives}
use catp.Errors.{Result, ok, err, framing, bad_number, bad_series, to_option}
use catp.Errors.Laws.{ok_inj, guard-eq-ok, >>=-eq-ok}
use catp.Payload.{validate_number, validate_series}
use catp.Registry.{Direction, ticks_per_epoch}
use catp.Registry.Laws.{CipherId_round}
use catp.Registry.MsgType.{MsgType, is_time}
use catp.Replay.{ReplayWindow, check_and_set}
use catp.Wire.Datagram.{
  Datagram, base, number, series, series_from, control, encode, number_value, series_values,
  write_entries,
}
use catp.Wire.Datagram.Build.{number_value-number, series_values-series}
use catp.Wire.Datagram.Payload.{payload_bytes}
use catp.Wire.Decode.{PeerConfig, Accepted, frame, skip_unknown, partition, admit, decode}
use catp.Wire.Decode.Accepts.{IsFrom, verify-wire_bytes}
use catp.Wire.Decode.Header.{bare}
use catp.Wire.Decode.RoundTrip.{encode-ok, decode-verify}

-- A datagram with a payload of its own in place of records.
abbrev pub raw_datagram : MsgType → PeerConfig → ℕ → ℕ → Bytes → Datagram
raw_datagram kind peer epoch_id off raw =
    record (base kind peer.cipher peer.sender_id epoch_id off) { raw = raw }

-- What the receiver returns for it.
abbrev pub whole : ℕ → Datagram → Accepted
whole epoch_id d = record {
  datagram = d;
  epoch_id = epoch_id;
  datagram_offset = d.datagram_offset;
  skipped = [];
}

module _ (kind : MsgType) (peer : PeerConfig) (local_epoch epoch_id off : ℕ) (raw : Bytes) where
  raw-IsFrom :
      is_time kind ≡ false
      → leb ticks_per_epoch off ≡ false
      → peer.sender_id < 2 ^ 32
      → (epoch_id ≡ local_epoch) ⊎ (epoch_id + 1 ≡ local_epoch)
      → IsFrom peer local_epoch epoch_id kind (raw_datagram kind peer epoch_id off raw)
  unfolding base
  raw-IsFrom plain room sender near = record {
    header = record {
      version_lt = omega arith;
      msg_type_lt = ground arith;
      cipher_lt = ground arith;
      epoch_lt = omega (arith, and_0x0f epoch_id);
      reserved_lt = omega arith;
      offset_lt = ground arith;
      sender_lt = sender;
    };
    version_eq = refl;
    kind_eq = refl;
    not_time = plain;
    sender = refl;
    suite = refl;
    low = omega (arith, and_0x0f epoch_id);
    near = near;
  }

  module _ (prim : Primitives) (words : ℕ) where
    decode-raw :
        (dir : Direction) (window : ReplayWindow) (max_size : ℕ) (wire : Bytes)
        → IsFrom peer local_epoch epoch_id kind (raw_datagram kind peer epoch_id off raw)
        → frame kind (raw_datagram kind peer epoch_id off []) raw
          ≡ ok (raw_datagram kind peer epoch_id off raw)
        → encode prim (raw_datagram kind peer epoch_id off raw) peer.secret epoch_id dir max_size
          ≡ ok wire
        → (check_and_set words window off).0 ≡ ok tt
        → (decode prim words wire peer local_epoch dir window).0
          ≡ ok (whole epoch_id (raw_datagram kind peer epoch_id off raw))
    unfolding admit skip_unknown partition payload_bytes base
    decode-raw dir window max_size wire from framed sent fresh =
        let d = raw_datagram kind peer epoch_id off raw in
        let (short, here) =
          encode-ok prim peer.cipher d (CipherId_round peer.cipher) peer.secret epoch_id dir
            max_size wire tt sent in
        ap (λ x. x.0)
          (decode-verify prim words wire peer local_epoch dir window
            (record { out = bare d; kind = kind; epoch_id = epoch_id; payload = raw })
            (rw here (verify-wire_bytes peer local_epoch epoch_id kind d from prim dir short)))
        ∙ rw (fresh, framed) refl

to_option-eq-some {ℓ} : {A : Type ℓ} (r : Result A) {a : A} → to_option r ≡ some a → r ≡ ok a
to_option-eq-some (ok b) h = cc
to_option-eq-some (err e) h = cc

-- The datagrams that the constructors return.
number-raw :
    (peer : PeerConfig) (epoch_id off scale : ℕ) (mantissa : ℤ) (d : Datagram)
    → number peer.cipher peer.sender_id epoch_id off scale mantissa ≡ ok d
    → (raw : Bytes) × (raw_datagram MsgType.number peer epoch_id off raw ≡ d)
      × (leb ticks_per_epoch off ≡ false)
unfolding number
number-raw peer epoch_id off scale mantissa d h =
    let (valid, h1) = guard-eq-ok _ (bad_number "scale must be 0x01..=0x07") _ h in
    let (room, h2) = guard-eq-ok _ (framing "datagram_offset exceeds 19 bits") _ h1 in
    (_, ok_inj h2, room)

series-raw :
    (peer : PeerConfig) (epoch_id scale off : ℕ) (m : ℤ) (readings : List (ℕ × ℤ)) (d : Datagram)
    → series peer.cipher peer.sender_id epoch_id scale ((off, m) ∷ readings) ≡ ok d
    → (raw : Bytes) × (raw_datagram MsgType.series peer epoch_id off raw ≡ d)
      × (leb ticks_per_epoch off ≡ false)
unfolding series series_from
series-raw peer epoch_id scale off m readings d h =
    let (valid, h1) = guard-eq-ok _ (bad_series "scale must be 0x01..=0x07") _ h in
    let (two, h2) = guard-eq-ok _ (bad_series "SERIES must carry at least two readings") _ h1 in
    let (room, h3) = guard-eq-ok _ (framing "datagram_offset exceeds 19 bits") _ h2 in
    let ((entries, prev), written, h4) = >>=-eq-ok (write_entries off readings) _ h3 in
    let (inside, h5) =
      guard-eq-ok _ (bad_series "reading instant crosses the epoch boundary") _ h4 in
    (_, ok_inj h5, room)

control-raw :
    (kind : MsgType) (peer : PeerConfig) (epoch_id off : ℕ) (body : Bytes) (d : Datagram)
    → control kind peer.cipher peer.sender_id epoch_id off body ≡ ok d
    → (raw_datagram kind peer epoch_id off body ≡ d) × (leb ticks_per_epoch off ≡ false)
unfolding control
control-raw kind peer epoch_id off body d h =
    let (known, h1) = guard-eq-ok _ (framing "not a control type") _ h in
    let (room, h2) = guard-eq-ok _ (framing "datagram_offset exceeds 19 bits") _ h1 in
    (ok_inj h2, room)

number-frames :
    (peer : PeerConfig) (epoch_id off : ℕ) (raw : Bytes) (v : ℕ × ℤ)
    → number_value (raw_datagram MsgType.number peer epoch_id off raw) ≡ some v
    → frame MsgType.number (raw_datagram MsgType.number peer epoch_id off []) raw
      ≡ ok (raw_datagram MsgType.number peer epoch_id off raw)
unfolding number_value frame base
number-frames peer epoch_id off raw v h = rw (to_option-eq-some (validate_number raw) h) refl

series-frames :
    (peer : PeerConfig) (epoch_id off : ℕ) (raw : Bytes) (v : ℕ × List (ℕ × ℤ))
    → series_values (raw_datagram MsgType.series peer epoch_id off raw) ≡ some v
    → frame MsgType.series (raw_datagram MsgType.series peer epoch_id off []) raw
      ≡ ok (raw_datagram MsgType.series peer epoch_id off raw)
unfolding series_values frame base
series-frames peer epoch_id off raw v h = rw (to_option-eq-some (validate_series raw off) h) refl

-- A control payload is taken as it is; TIME_ANNOUNCE does not come this way.
control-frames :
    (c : Control) (peer : PeerConfig) (epoch_id off : ℕ) (raw : Bytes)
    → is_time (msg_type c) ≡ false
    → frame (msg_type c) (raw_datagram (msg_type c) peer epoch_id off []) raw
      ≡ ok (raw_datagram (msg_type c) peer epoch_id off raw)
unfolding frame base
control-frames (Control.announce_epoch e) peer epoch_id off raw h = refl
control-frames (Control.announce_time t) peer epoch_id off raw h = cc
control-frames Control.beat peer epoch_id off raw h = refl
control-frames (Control.capability c) peer epoch_id off raw h = refl

module _ (prim : Primitives) (words : ℕ) (peer : PeerConfig) (local_epoch epoch_id : ℕ)
    (dir : Direction) (window : ReplayWindow) (max_size : ℕ) (wire : Bytes) where
  -- For a u32 sender and an i16 mantissa: a NUMBER that `Datagram::number` builds and `encode` seals is
  -- decoded by a receiver with the same configuration in the same epoch or the next, if its window
  -- takes the offset: the receiver gets the built datagram, and reads the scale and the mantissa from
  -- it.
  pub decode-encode-number :
      (off scale : ℕ) (mantissa : ℤ) (d : Datagram)
      → peer.sender_id < 2 ^ 32
      → (epoch_id ≡ local_epoch) ⊎ (epoch_id + 1 ≡ local_epoch)
      → IsI16 mantissa
      → number peer.cipher peer.sender_id epoch_id off scale mantissa ≡ ok d
      → encode prim d peer.secret epoch_id dir max_size ≡ ok wire
      → (check_and_set words window off).0 ≡ ok tt
      → ((decode prim words wire peer local_epoch dir window).0 ≡ ok (whole epoch_id d))
        × (number_value d ≡ some (scale, mantissa))
  decode-encode-number off scale mantissa d sender near small built sent fresh =
      let value =
        number_value-number peer.cipher peer.sender_id epoch_id off scale mantissa d small built in
      let (raw, same, room) = number-raw peer epoch_id off scale mantissa d built in
      let from =
        raw-IsFrom MsgType.number peer local_epoch epoch_id off raw refl room sender near in
      let framed = number-frames peer epoch_id off raw (scale, mantissa) (rw same value) in
      let received =
        decode-raw MsgType.number peer local_epoch epoch_id off raw prim words dir window max_size
          wire from framed (rw same sent) fresh in
      (received ∙ ap (λ x. ok (whole epoch_id x)) same, value)

  -- For a u32 sender and i16 mantissas: a SERIES that `Datagram::series` builds and `encode` seals is
  -- decoded by a receiver with the same configuration in the same epoch or the next, if its window
  -- takes the first reading's instant: the receiver gets the built datagram, and reads the scale and
  -- all the readings from it, in order.
  pub decode-encode-series :
      (scale off : ℕ) (m : ℤ) (readings : List (ℕ × ℤ)) (d : Datagram)
      → peer.sender_id < 2 ^ 32
      → (epoch_id ≡ local_epoch) ⊎ (epoch_id + 1 ≡ local_epoch)
      → All (λ r. IsI16 r.1) ((off, m) ∷ readings)
      → series peer.cipher peer.sender_id epoch_id scale ((off, m) ∷ readings) ≡ ok d
      → encode prim d peer.secret epoch_id dir max_size ≡ ok wire
      → (check_and_set words window off).0 ≡ ok tt
      → ((decode prim words wire peer local_epoch dir window).0 ≡ ok (whole epoch_id d))
        × (series_values d ≡ some (scale, (off, m) ∷ readings))
  decode-encode-series scale off m readings d sender near small built sent fresh =
      let value =
        series_values-series peer.cipher peer.sender_id epoch_id scale ((off, m) ∷ readings) d small
          built in
      let (raw, same, room) = series-raw peer epoch_id scale off m readings d built in
      let from =
        raw-IsFrom MsgType.series peer local_epoch epoch_id off raw refl room sender near in
      let framed =
        series-frames peer epoch_id off raw (scale, (off, m) ∷ readings) (rw same value) in
      let received =
        decode-raw MsgType.series peer local_epoch epoch_id off raw prim words dir window max_size
          wire from framed (rw same sent) fresh in
      (received ∙ ap (λ x. ok (whole epoch_id x)) same, value)

  -- For a u32 sender and a control message with fields of their widths, a TIME_ANNOUNCE excepted: its
  -- payload in a datagram that `Datagram::control` builds and `encode` seals is decoded by a receiver
  -- with the same configuration in the same epoch or the next, if its window takes the offset: the
  -- receiver gets the built datagram, and its payload parses to the message.
  pub decode-encode-control :
      (c : Control) (off : ℕ) (body : Bytes) (d : Datagram)
      → peer.sender_id < 2 ^ 32
      → (epoch_id ≡ local_epoch) ⊎ (epoch_id + 1 ≡ local_epoch)
      → IsControl c
      → is_time (msg_type c) ≡ false
      → Control.encode c ≡ ok body
      → control (msg_type c) peer.cipher peer.sender_id epoch_id off body ≡ ok d
      → encode prim d peer.secret epoch_id dir max_size ≡ ok wire
      → (check_and_set words window off).0 ≡ ok tt
      → ((decode prim words wire peer local_epoch dir window).0 ≡ ok (whole epoch_id d))
        × (Control.parse (msg_type c) d.raw ≡ ok c)
  decode-encode-control c off body d sender near v plain written built sent fresh =
      let (same, room) = control-raw (msg_type c) peer epoch_id off body d built in
      let from =
        raw-IsFrom (msg_type c) peer local_epoch epoch_id off body plain room sender near in
      let received =
        decode-raw (msg_type c) peer local_epoch epoch_id off body prim words dir window max_size
          wire from (control-frames c peer epoch_id off body plain) (rw same sent) fresh in
      let payload : body ≡ d.raw = ap (λ (x : Datagram). x.raw) same in
      (
        received ∙ ap (λ x. ok (whole epoch_id x)) same,
        subst (λ p. Control.parse (msg_type c) p ≡ ok c) payload (parse-encode c body v written),
      )
