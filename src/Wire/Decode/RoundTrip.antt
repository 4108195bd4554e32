-- ===== src/Wire/Decode/RoundTrip.antt =====
-- What the receiver returns for what `encode` sent.
use catp.Base.{
  ℕ, ◌+◌, ◌≡◌, refl, sym, ap, ◌∙◌, arith, true, false, ltb, ◌&&◌, some, List, [], ◌∷◌, length, All,
  ge→ltb, Bool-cases, inl, inr,
}
use catp.Base.Words.{Bytes}
use catp.Errors.{ok, ◌>>=◌}
use catp.Registry.{Direction}
use catp.Registry.Laws.{CipherId_round}
use catp.Registry.CipherId
use catp.Registry.CipherId.{CipherId, tag_len}
use catp.Registry.MsgType.{
  MsgType, message, event, alarm, number, series, epoch_announce, time_announce, time_request,
  heartbeat, capability_advertise, is_record_framed, is_single,
}
use catp.Crypto.{Primitives}
use catp.Crypto.Laws.{too_long}
use catp.Payload.{is_empty}
use catp.Replay.{ReplayWindow, check_and_set}
use catp.Wire.Record.{Record}
use catp.Wire.Record.RoundTrip.{IsWellFormed}
use catp.Wire.Datagram.{Datagram, records_len, payload_len, encode}
use catp.Wire.Datagram.Payload.{Fits, records_bytes, length-records_bytes, payload_bytes}
use catp.Wire.Datagram.Encode.{wire_bytes, wire_len, encode-eq}
use catp.Wire.Decode.{
  PeerConfig, Verified, frame_records, frame, skip_unknown, verify, admit, decode,
}
use catp.Wire.Decode.Header.{bare}
use catp.Wire.Decode.Framing.{read_records-records_bytes}
use catp.Wire.Decode.Accepts.{IsFrom, verify-wire_bytes}

-- The records of a record-framed datagram: some, all well formed, and one for EVENT and ALARM.
pub record Framed (kind : MsgType) (d : Datagram) : Type 0 where
  pub framed : is_record_framed kind ≡ true
  pub some_records : is_empty d.records ≡ false
  pub well_formed : All IsWellFormed d.records
  pub single : (is_single kind && ltb 1 (length d.records)) ≡ false
  pub no_raw : d.raw ≡ []

pub well_formed-Fits : (rs : List Record) → All IsWellFormed rs → All Fits rs
well_formed-Fits [] v = tt
well_formed-Fits (r ∷ rs) (vr, v) = ((vr.body_pos, vr.body_le), well_formed-Fits rs v)

pub frame_records-ok :
    (kind : MsgType) (out : Datagram) (rs : List Record)
    → is_empty rs ≡ false
    → All IsWellFormed rs
    → (is_single kind && ltb 1 (length rs)) ≡ false
    → frame_records kind out (records_bytes rs) ≡ ok (record out { records = rs })
unfolding frame_records
frame_records-ok kind out [] some_records v one = cc
frame_records-ok kind out (r ∷ rs) some_records v one = rw (
  length-records_bytes (r ∷ rs),
  ge→ltb (records_len (r ∷ rs)) 3 (unfold records_len in omega arith),
  read_records-records_bytes (r ∷ rs) v,
  one,
)

pub record_frame :
    (kind : MsgType) (out : Datagram) (payload : Bytes)
    → is_record_framed kind ≡ true
    → frame kind out payload ≡ frame_records kind out payload
unfolding frame
record_frame message out payload h = refl
record_frame event out payload h = refl
record_frame alarm out payload h = refl
record_frame number out payload h = cc
record_frame series out payload h = cc
record_frame epoch_announce out payload h = cc
record_frame time_announce out payload h = cc
record_frame time_request out payload h = cc
record_frame heartbeat out payload h = cc
record_frame capability_advertise out payload h = cc

-- The payload of a record-framed datagram frames into its records.
frame-ok :
    (kind : MsgType) (d : Datagram) → Framed kind d → frame kind (bare d) (payload_bytes d) ≡ ok d
unfolding payload_bytes
frame-ok kind d f =
    record_frame kind (bare d) (payload_bytes d) f.framed
    ∙ rw f.some_records (
        frame_records-ok kind (bare d) d.records f.some_records f.well_formed f.single
        ∙ ap (λ (raw : Bytes). ok (record d { raw = raw })) (sym f.no_raw))

-- What `encode` sends is the wire form.
pub encode-ok :
    (prim : Primitives) (c : CipherId) (d : Datagram)
    → CipherId.from_u8 d.cipher_id ≡ some c
    → (secret : Bytes) (epoch_id : ℕ) (dir : Direction) (max_size : ℕ) (wire : Bytes)
    → All Fits d.records
    → encode prim d secret epoch_id dir max_size ≡ ok wire
    → (too_long c (13 + payload_len d) ≡ false) × (wire ≡ wire_bytes prim c d secret epoch_id dir)
encode-ok prim c d suite secret epoch_id dir max_size wire fits h =
    let k = encode-eq prim c d suite secret epoch_id dir max_size fits in
    elim (Bool-cases (too_long c (13 + payload_len d))) [
      | inl long ↦ let k' = rw long at k in cc
      | inr room ↦
          let k' = rw room at k in
          elim (Bool-cases (ltb max_size (wire_len prim c d))) [
            | inl over ↦ let k'' = rw over at k' in cc
            | inr under ↦ let k'' = rw under at k' in (room, cc)
          ]
    ]

pub decode-verify :
    (prim : Primitives) (words : ℕ) (buf : Bytes) (peer : PeerConfig) (local_epoch : ℕ)
    (dir : Direction) (window : ReplayWindow) (v : Verified)
    → verify prim buf peer local_epoch dir ≡ ok v
    → decode prim words buf peer local_epoch dir window ≡ admit prim words v peer window
unfolding decode
decode-verify prim words buf peer local_epoch dir window v h = rw (decode, h)

module _ (prim : Primitives) (words : ℕ) (peer : PeerConfig) (local_epoch epoch_id : ℕ)
    (kind : MsgType) (d : Datagram) where
  -- A record-framed datagram with a well-formed header and records that `encode` seals for this
  -- receiver, in its epoch or the one before, is decoded: the receiver gets the datagram itself
  -- with its epoch, records of unknown layouts set apart; except that the call fails as
  -- `check_and_set` does when the window does not take its offset. The window is left as
  -- `check_and_set` leaves it.
  pub decode-encode :
      (dir : Direction) (window : ReplayWindow) (max_size : ℕ) (wire : Bytes)
      → IsFrom peer local_epoch epoch_id kind d
      → Framed kind d
      → encode prim d peer.secret epoch_id dir max_size ≡ ok wire
      → decode prim words wire peer local_epoch dir window ≡ (
        (check_and_set words window d.datagram_offset).0
            >>= (λ u. ok (skip_unknown peer.layouts epoch_id d)),
        (check_and_set words window d.datagram_offset).1,
      )
  unfolding admit
  decode-encode dir window max_size wire from framed h =
      let (fits, sent) =
        encode-ok prim peer.cipher d (rw from.suite (CipherId_round peer.cipher)) peer.secret
          epoch_id dir max_size wire (well_formed-Fits d.records framed.well_formed) h in
      decode-verify prim words wire peer local_epoch dir window
        (record { out = bare d; kind = kind; epoch_id = epoch_id; payload = payload_bytes d })
        (rw sent (verify-wire_bytes peer local_epoch epoch_id kind d from prim dir fits))
      ∙ rw (frame-ok kind d framed)
