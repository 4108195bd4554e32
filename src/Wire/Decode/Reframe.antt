-- ===== src/Wire/Decode/Reframe.antt =====
-- The framing that `decode` has done, read backwards.
use catp.Base.{
  ℕ, ◌≡◌, refl, sym, ap, arith, false, ◌&&◌, ltb, List, [], ◌∷◌, length, All, if◌then◌else◌,
  Bool-cases, inl, inr,
}
use catp.Base.Words.{Bytes, IsByte}
use catp.Errors.{Result, ok, framing}
use catp.Errors.Laws.{>>=-eq-ok, guard-eq-ok, ok_inj}
use catp.Payload.{is_empty, validate_number, validate_series}
use catp.Registry.MsgType.{
  MsgType, message, event, alarm, number, series, epoch_announce, time_announce, time_request,
  heartbeat, capability_advertise, is_single,
}
use catp.Wire.Datagram.{Datagram}
use catp.Wire.Datagram.Payload.{Fits, records_bytes}
use catp.Wire.Decode.{frame, frame_records, read_records, holds, partition}
use catp.Wire.Decode.Framing.{read_records_iff}
use catp.Wire.Decode.RoundTrip.{well_formed-Fits}
use catp.Wire.Record.{Record}

-- Where no record is set apart, all are kept.
pub partition-kept :
    (layouts : List (ℕ × ℕ)) (rs : List Record)
    → (partition layouts rs).1 ≡ []
    → (partition layouts rs).0 ≡ rs
unfolding partition
partition-kept layouts [] h = refl
partition-kept layouts (r ∷ rs) h = elim (Bool-cases (holds layouts r)) [
  | inl kept ↦ rw kept (ap (λ l. r ∷ l) (partition-kept layouts rs (rw kept at h)))
  | inr other ↦ let none_left = rw other at h in cc
]

-- A framed payload is the one that the datagram is written with.
pub record Framing (start : Datagram) (payload : Bytes) (out : Datagram) : Type 0 where
  pub records : List Record
  pub raw : Bytes
  pub built : record start { records = records; raw = raw } ≡ out
  pub written : (if is_empty records then raw else records_bytes records) ≡ payload
  pub fits : All Fits records

raw-Framing :
    (start : Datagram) (payload : Bytes) (out : Datagram)
    → start.records ≡ []
    → ◌≡◌ {A = Result Datagram} (ok (record start { raw = payload })) (ok out)
    → Framing start payload out
raw-Framing start payload out none h = record {
  records = [];
  raw = payload;
  built = rw (sym none) (ok_inj h);
  written = refl;
  fits = tt;
}

frame_records-Framing :
    (kind : MsgType) (start : Datagram) (payload : Bytes) (out : Datagram)
    → start.raw ≡ []
    → All IsByte payload
    → frame_records kind start payload ≡ ok out
    → Framing start payload out
unfolding frame_records
frame_records-Framing kind start payload out none bytes h =
    let (long, h1) =
      guard-eq-ok (ltb (length payload) 3) (framing "payload shorter than one record header") _ h in
    let (recs, read, h2) = >>=-eq-ok (read_records 0 payload) _ h1 in
    let (single, h3) =
      guard-eq-ok (is_single kind && ltb 1 (length recs))
        (framing "EVENT and ALARM carry exactly one record") _ h2 in
    let (formed, same) = (read_records_iff payload recs bytes).0 read in
    record {
      records = recs;
      raw = [];
      built = rw (sym none) (ok_inj h3);
      written = some_records recs long same;
      fits = well_formed-Fits recs formed;
    }
  where
    some_records :
        (rs : List Record)
        → ltb (length payload) 3 ≡ false
        → payload ≡ records_bytes rs
        → (if is_empty rs then [] else records_bytes rs) ≡ payload
    some_records [] k e =
        let short : length payload ≡ 0 = unfold records_bytes in ap length e in ground arith
    some_records (r ∷ rs) k e = sym e

pub frame-Framing :
    (kind : MsgType) (start : Datagram) (payload : Bytes) (out : Datagram)
    → start.records ≡ []
    → start.raw ≡ []
    → All IsByte payload
    → frame kind start payload ≡ ok out
    → Framing start payload out
unfolding frame
frame-Framing message start payload out no_records none bytes h =
    frame_records-Framing message start payload out none bytes h
frame-Framing event start payload out no_records none bytes h =
    frame_records-Framing event start payload out none bytes h
frame-Framing alarm start payload out no_records none bytes h =
    frame_records-Framing alarm start payload out none bytes h
frame-Framing number start payload out no_records none bytes h =
    let (v, read, h1) = >>=-eq-ok (validate_number payload) _ h in
    raw-Framing start payload out no_records h1
frame-Framing series start payload out no_records none bytes h =
    let (v, read, h1) = >>=-eq-ok (validate_series payload start.datagram_offset) _ h in
    raw-Framing start payload out no_records h1
frame-Framing epoch_announce start payload out no_records none bytes h =
    raw-Framing start payload out no_records h
frame-Framing time_announce start payload out no_records none bytes h =
    raw-Framing start payload out no_records h
frame-Framing time_request start payload out no_records none bytes h =
    raw-Framing start payload out no_records h
frame-Framing heartbeat start payload out no_records none bytes h =
    raw-Framing start payload out no_records h
frame-Framing capability_advertise start payload out no_records none bytes h =
    raw-Framing start payload out no_records h
