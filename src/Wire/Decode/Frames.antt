-- ===== src/Wire/Decode/Frames.antt =====
-- Step 9 of `decode`, in both directions.
use catp.Base.{
  ◌<◌, ◌≡◌, refl, sym, ap, ◌∙◌, arith, true, false, ◌&&◌, ltb, List, [], ◌∷◌, length, All, ◌⊎◌, ◌↔◌,
  inl, inr, Bool-cases,
}
use catp.Base.Words.{Bytes, IsByte}
use catp.Errors.{ok, framing}
use catp.Errors.Laws.{>>=-eq-ok, guard-eq-ok, ok_inj}
use catp.Payload.{is_empty}
use catp.Registry.MsgType.{MsgType, is_record_framed, is_single}
use catp.Wire.Datagram.{Datagram}
use catp.Wire.Datagram.Payload.{records_bytes}
use catp.Wire.Decode.{frame, frame_records, read_records}
use catp.Wire.Decode.Framing.{read_records_iff}
use catp.Wire.Decode.RoundTrip.{frame_records-ok, record_frame}
use catp.Wire.Record.{Record}
use catp.Wire.Record.RoundTrip.{IsWellFormed}

-- The records that a payload may be made of: at least one, and no more for EVENT and ALARM.
pub record Carries (kind : MsgType) (payload : Bytes) (rs : List Record) : Type 0 where
  pub well_formed : All IsWellFormed rs
  pub run : payload ≡ records_bytes rs
  pub some_records : 0 < length rs
  pub single : (is_single kind ≡ false) ⊎ (length rs ≡ 1)

frame_records-Carries :
    (kind : MsgType) (start : Datagram) (payload : Bytes) (out : Datagram)
    → All IsByte payload
    → frame_records kind start payload ≡ ok out
    → (rs : List Record) × Carries kind payload rs × (out ≡ record start { records = rs })
unfolding frame_records
frame_records-Carries kind start payload out bytes h =
    let (long, h1) =
      guard-eq-ok (ltb (length payload) 3) (framing "payload shorter than one record header") _ h in
    let (rs, read, h2) = >>=-eq-ok (read_records 0 payload) _ h1 in
    let (one, h3) =
      guard-eq-ok (is_single kind && ltb 1 (length rs))
        (framing "EVENT and ALARM carry exactly one record") _ h2 in
    let (formed, same) = (read_records_iff payload rs bytes).0 read in
    let more = nonempty rs long same in
    (
      rs,
      record { well_formed = formed; run = same; some_records = more; single = lone rs more one },
      sym (ok_inj h3),
    )
  where
    nonempty :
        (rs : List Record)
        → ltb (length payload) 3 ≡ false
        → payload ≡ records_bytes rs
        → 0 < length rs
    nonempty [] k e =
        let short : length payload ≡ 0 = unfold records_bytes in ap length e in ground arith
    nonempty (r ∷ rs) k e = omega arith

    lone :
        (rs : List Record)
        → 0 < length rs
        → (is_single kind && ltb 1 (length rs)) ≡ false
        → (is_single kind ≡ false) ⊎ (length rs ≡ 1)
    lone rs more h = elim (Bool-cases (is_single kind)) [
      | inl event_or_alarm ↦ inr (ground arith)
      | inr other ↦ inl other
    ]

Carries-frame_records :
    (kind : MsgType) (start : Datagram) (payload : Bytes) (rs : List Record)
    → Carries kind payload rs
    → frame_records kind start payload ≡ ok (record start { records = rs })
Carries-frame_records kind start payload rs c =
    rw c.run (frame_records-ok kind start rs (filled rs c.some_records) c.well_formed lone)
  where
    filled : (rs : List Record) → 0 < length rs → is_empty rs ≡ false
    filled [] h = ground arith
    filled (r ∷ rs) h = refl

    lone : (is_single kind && ltb 1 (length rs)) ≡ false
    lone = elim c.single [ inl other ↦ ground arith | inr one ↦ ground arith ]

-- For a record-framed type and a payload of bytes: step 9 takes the payload exactly when it is the
-- run of the wire forms of some records, at least one, and exactly one for EVENT and ALARM, each well
-- formed: the format is a nonzero nibble, the schema version a nonzero byte, and the body has 1 to
-- 4095 bytes; and what it makes of the datagram is the datagram with these records.
pub frame_iff :
    (kind : MsgType) (start : Datagram) (payload : Bytes) (out : Datagram)
    → is_record_framed kind ≡ true
    → All IsByte payload
    → (frame kind start payload ≡ ok out)
      ↔ ((rs : List Record) × Carries kind payload rs × (out ≡ record start { records = rs }))
frame_iff kind start payload out framed bytes = (
  λ h.
      frame_records-Carries kind start payload out bytes
        (sym (record_frame kind start payload framed) ∙ h),
  λ x.
      record_frame kind start payload framed
      ∙ Carries-frame_records kind start payload x.0 x.1
      ∙ ap ok (sym x.2),
)
