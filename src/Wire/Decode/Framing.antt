-- ===== src/Wire/Decode/Framing.antt =====
-- The loop of step 9 that reads the records of a payload.
use catp.Base.{
  subst, ℕ, zero, suc, ◌-◌, ◌<◌, ◌≡◌, refl, ap, ◌∙◌, arith, List, [], ◌∷◌, ◌++◌, length, drop, All,
  ◌↔◌,
}
use catp.Base.Words.{Bytes, IsByte}
use catp.Errors.{ok}
use catp.Errors.Laws.{>>=-eq-ok}
use catp.Wire.Record
use catp.Wire.Record.{Record, wire_len}
use catp.Wire.Record.RoundTrip.{IsWellFormed, to_wire, decode-to_wire, decode-canonical}
use catp.Wire.Datagram.Payload.{records_bytes, length-to_wire}
use catp.Wire.Decode.{read_records}

-- The bytes of the record that is read are passed over.
read_records-skip :
    (n : ℕ) (bs rest : Bytes) → length bs ≡ n → read_records n (bs ++ rest) ≡ read_records 0 rest
unfolding read_records
read_records-skip zero [] rest h = refl
read_records-skip zero (b ∷ bs) rest h = ground arith
read_records-skip (suc n) [] rest h = ground arith
read_records-skip (suc n) (b ∷ bs) rest h = read_records-skip n bs rest (omega arith)

read_records-step :
    (b : ℕ) (bs : Bytes) (r : Record) (used : ℕ) (rest : List Record)
    → Record.decode (b ∷ bs) ≡ ok (r, used)
    → read_records (used - 1) bs ≡ ok rest
    → read_records 0 (b ∷ bs) ≡ ok (r ∷ rest)
unfolding read_records
read_records-step b bs r used rest one more = rw one (rw more)

-- A run of well-formed records is read back.
pub read_records-records_bytes :
    (rs : List Record) → All IsWellFormed rs → read_records 0 (records_bytes rs) ≡ ok rs
unfolding read_records records_bytes to_wire
read_records-records_bytes [] v = refl
read_records-records_bytes (r ∷ rs) (vr, v) =
    let tail : Bytes = drop 1 (to_wire r) in
    read_records-step _ _ r (wire_len r) rs (decode-to_wire r (records_bytes rs) vr) (
      read_records-skip (wire_len r - 1) tail (records_bytes rs) (omega (arith, length-to_wire r))
      ∙ read_records-records_bytes rs v)

drop_pred : (n b : ℕ) (bs : Bytes) → 0 < n → drop n (b ∷ bs) ≡ drop (n - 1) bs
drop_pred zero b bs h = ground arith
drop_pred (suc n) b bs h = ap (λ k. drop k bs) (omega arith)

-- From a position on, what is read is the wire form of the records, to the last byte.
read_records-canonical :
    (skip : ℕ) (buf : Bytes) (rs : List Record)
    → All IsByte buf
    → read_records skip buf ≡ ok rs
    → All IsWellFormed rs × (drop skip buf ≡ records_bytes rs)
unfolding read_records records_bytes
read_records-canonical zero [] rs bytes h =
    let e : [] ≡ rs = cc in subst (λ rs. All IsWellFormed rs × ([] ≡ records_bytes rs)) e (tt, refl)
read_records-canonical (suc skip) [] rs bytes h = cc
read_records-canonical (suc skip) (b ∷ bs) rs bytes h = read_records-canonical skip bs rs bytes.1 h
read_records-canonical zero (b ∷ bs) rs bytes h =
    let ((r, used), one, h1) = >>=-eq-ok (Record.decode (b ∷ bs)) _ h in
    let (rest, more, h2) = >>=-eq-ok (read_records (used - 1) bs) _ h1 in
    let (vr, len, eq) = decode-canonical (b ∷ bs) r used bytes one in
    let (v, eq_rest) = read_records-canonical (used - 1) bs rest bytes.1 more in
    let e : r ∷ rest ≡ rs = cc in
    let at : drop used (b ∷ bs) ≡ records_bytes rest =
      drop_pred used b bs (omega (arith, len)) ∙ eq_rest in
    subst (λ rs. All IsWellFormed rs × (b ∷ bs ≡ records_bytes rs)) e
      ((vr, v), eq ∙ ap (λ t. to_wire r ++ t) at)

-- A payload of bytes frames into records exactly when it is the run of those records' wire forms and
-- each record is well formed: the format is a nonzero nibble, the schema version a nonzero byte, and
-- the body has 1 to 4095 bytes.
pub read_records_iff :
    (payload : Bytes) (rs : List Record)
    → All IsByte payload
    → (read_records 0 payload ≡ ok rs) ↔ (All IsWellFormed rs × (payload ≡ records_bytes rs))
read_records_iff payload rs bytes =
    (read_records-canonical 0 payload rs bytes, λ x. rw x.1 (read_records-records_bytes rs x.0))
