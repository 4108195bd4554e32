-- ===== src/Wire/Datagram/Payload.antt =====
-- The payload that a datagram serializes to.
use catp.Base.{
  ℕ, ◌≤◌, ◌<◌, ◌≡◌, refl, ◌∙◌, arith, List, [], ◌∷◌, ◌++◌, length, take, drop, All, length-append,
  take-append, drop-append, drop-drop, length-drop, if◌then◌else◌, ge→ltb,
}
use catp.Base.Words.{Bytes}
use catp.Errors.{Result, ok, ◌>>=◌}
use catp.Payload.{is_empty}
use catp.Wire.Record.{Record, wire_len}
use catp.Wire.Record.RoundTrip.{to_wire, write_into-to_wire}
use catp.Wire.Datagram.{Datagram, records_len, payload_len, write_records, payload_into}
use mathlib.Core.List.{append_assoc}

-- A body that the size field can express.
abbrev pub Fits : Record → Type 0
Fits r = (0 < length r.body) × (length r.body ≤ 4095)

unfoldable pub records_bytes : List Record → Bytes
records_bytes [] = []
records_bytes (r ∷ rs) = to_wire r ++ records_bytes rs

unfoldable pub payload_bytes : Datagram → Bytes
payload_bytes d = if is_empty d.records then d.raw else records_bytes d.records

pub length-to_wire : (r : Record) → length (to_wire r) ≡ wire_len r
unfolding to_wire
length-to_wire r = omega arith

pub length-records_bytes : (rs : List Record) → length (records_bytes rs) ≡ records_len rs
unfolding records_bytes records_len
length-records_bytes [] = refl
length-records_bytes (r ∷ rs) =
    length-append (to_wire r) (records_bytes rs)
    ∙ omega (arith, length-to_wire r, length-records_bytes rs)

pub length-payload_bytes : (d : Datagram) → length (payload_bytes d) ≡ payload_len d
unfolding payload_bytes payload_len
length-payload_bytes d = at d.records
  where
    at :
        (rs : List Record)
        → length (if is_empty rs then d.raw else records_bytes rs)
          ≡ (if is_empty rs then length d.raw else records_len rs)
    at [] = refl
    at (r ∷ rs) = length-records_bytes (r ∷ rs)

write_records-eq :
    (rs : List Record) (out : Bytes)
    → All Fits rs
    → records_len rs ≤ length out
    → write_records rs out ≡ ok (records_len rs, records_bytes rs ++ drop (records_len rs) out)
unfolding write_records records_bytes records_len
write_records-eq [] out fits room = refl
write_records-eq (r ∷ rs) out ((pos, small), fits) room =
    let n : ℕ = wire_len r in
    let rest : drop n (to_wire r ++ drop n out) ≡ drop n out =
      drop-append (to_wire r) (drop n out) n (length-to_wire r) in
    let front : take n (to_wire r ++ drop n out) ≡ to_wire r =
      take-append (to_wire r) (drop n out) n (length-to_wire r) in
    let ih = write_records-eq rs (drop n out) fits (omega (arith, length-drop n out)) in
    rw (write_into-to_wire r out pos small (omega arith))
      (rw (rest, front) (rw (ih) (rw (drop-drop n (records_len rs) out, append_assoc))))

-- A datagram whose records fit writes its payload into any buffer that has room for it, and leaves
-- the rest of the buffer.
pub payload_into-eq :
    (d : Datagram) (out : Bytes)
    → All Fits d.records
    → payload_len d ≤ length out
    → payload_into d out ≡ ok (payload_len d, payload_bytes d ++ drop (payload_len d) out)
unfolding payload_into payload_bytes
payload_into-eq d out fits room = rw (ge→ltb _ _ room) (at d.records fits refl)
  where
    at :
        (rs : List Record)
        → All Fits rs
        → rs ≡ d.records
        → if◌then◌else◌ {A = Result (ℕ × Bytes)}
            (is_empty rs)
            (ok (payload_len d, d.raw ++ drop (payload_len d) out))
            (do (used, out') ← write_records rs out; ok (payload_len d, out'))
          ≡ ok (
            payload_len d,
            (if is_empty rs then d.raw else records_bytes rs) ++ drop (payload_len d) out,
          )
    at [] fits e = refl
    at (r ∷ rs) fits e =
        let len : records_len (r ∷ rs) ≡ payload_len d = unfold payload_len in rw (← e) in
        rw (write_records-eq (r ∷ rs) out fits (omega arith)) (rw len)
