-- ===== src/Wire/Datagram/Build.antt =====
-- The readings that `number` and `series` take are read back by `number_value` and `series_values`.
use catp.Base.{
  ℕ, suc, ◌+◌, ◌-◌, ◌/◌, ◌%◌, ◌^◌, ◌≤◌, ◌<◌, ◌≡◌, refl, ap, ◌∙◌, arith, false, not, ltb, leb, ◌==◌,
  ◌&&◌, some, List, [], ◌∷◌, ◌++◌, length, All, subst,
}
use catp.Base.Int.{ℤ}
use catp.Base.Words.{
  Bytes, IsI16, i16_to_be, i16_to_bits, i16_of_bits, i16_from_be, i16_bits_round, i16_to_bits-lt,
  u16_round, u16_from_be,
}
use catp.Errors.{ok, framing, bad_number, bad_series}
use catp.Errors.Laws.{ok_inj, guard-eq-ok, >>=-eq-ok}
use catp.Registry.{ticks_per_epoch}
use catp.Registry.CipherId.{CipherId}
use catp.Payload.{
  scale_is_valid, validate_number, validate_series, as_chunks, read_entries, is_empty,
}
use catp.Wire.Datagram.{
  Datagram, base, number, write_entries, series_from, series, number_value, series_values,
}

i16_round : (v : ℤ) → IsI16 v → i16_from_be (i16_to_bits v / 256 % 256) (i16_to_bits v % 256) ≡ v
i16_round v h = ap i16_of_bits (u16_round (i16_to_bits v) (i16_to_bits-lt v)) ∙ i16_bits_round v h

-- For an i16 mantissa: a reading that `number` accepts is the one that `number_value` reads from
-- the datagram it builds.
pub number_value-number :
    (cipher : CipherId) (sender_id epoch_id off scale : ℕ) (mantissa : ℤ) (d : Datagram)
    → IsI16 mantissa
    → number cipher sender_id epoch_id off scale mantissa ≡ ok d
    → number_value d ≡ some (scale, mantissa)
unfolding number number_value base validate_number scale_is_valid
number_value-number cipher sender_id epoch_id off scale mantissa d small h =
    let (valid, h1) =
      guard-eq-ok (not (leb 1 scale && leb scale 7)) (bad_number "scale must be 0x01..=0x07") _ h in
    let (room, h2) =
      guard-eq-ok (leb ticks_per_epoch off) (framing "datagram_offset exceeds 19 bits") _ h1 in
    subst (λ d. number_value d ≡ some (scale, mantissa)) (ok_inj h2)
      (rw (valid, i16_round mantissa small) refl)

read_entries-step :
    (prev o : ℕ) (m : ℤ) (es : List (ℕ × ℕ × ℕ × ℕ)) (readings : List (ℕ × ℤ))
    → prev < o
    → o ≤ prev + 65535
    → o < 2 ^ 19
    → IsI16 m
    → read_entries o es ≡ ok readings
    → read_entries prev (
        ((o - prev) / 256 % 256, (o - prev) % 256, i16_to_bits m / 256 % 256, i16_to_bits m % 256)
        ∷ es)
      ≡ ok ((o, m) ∷ readings)
unfolding read_entries
read_entries-step prev o m es readings later near below small read =
    let delta : u16_from_be ((o - prev) / 256 % 256) ((o - prev) % 256) ≡ o - prev = omega arith in
    let here : prev + (o - prev) ≡ o = omega arith in
    let positive : ((o - prev) == 0) ≡ false = ground arith in
    let inside : leb (2 ^ 19) o ≡ false = ground arith in
    rw (delta, here, positive, inside, read, i16_round m small)

-- The bytes of the entries, one after another.
entries-round :
    (prev : ℕ) (readings : List (ℕ × ℤ)) (out : Bytes × ℕ)
    → All (λ r. IsI16 r.1) readings
    → write_entries prev readings ≡ ok out
    → out.1 < 2 ^ 19
    → (prev ≤ out.1)
      × ((as_chunks out.0).1 ≡ [])
      × (read_entries prev (as_chunks out.0).0 ≡ ok readings)
unfolding write_entries as_chunks read_entries
entries-round prev [] out small h below =
    subst
      (λ (x : Bytes × ℕ).
        (prev ≤ x.1) × ((as_chunks x.0).1 ≡ []) × (read_entries prev (as_chunks x.0).0 ≡ ok []))
      (ok_inj h) (omega arith, refl, refl)
entries-round prev ((o, m) ∷ readings) out (s, small) h below =
    let (later, h1) =
      guard-eq-ok (leb o prev) (bad_series "reading instants must strictly increase") _ h in
    let (near, h2) =
      guard-eq-ok (ltb 65535 (o - prev)) (bad_series "gap between readings exceeds 65535 ticks") _
        h1 in
    let ((bytes, last), more, h3) = >>=-eq-ok (write_entries o readings) _ h2 in
    let same : last ≡ out.1 = ap (λ (x : Bytes × ℕ). x.1) (ok_inj h3) in
    let (le, whole, read) = entries-round o readings (bytes, last) small more (rw same below) in
    subst
      (λ (x : Bytes × ℕ).
        (prev ≤ x.1)
        × ((as_chunks x.0).1 ≡ [])
        × (read_entries prev (as_chunks x.0).0 ≡ ok ((o, m) ∷ readings)))
      (ok_inj h3)
      (
        ground arith,
        whole,
        read_entries-step prev o m (as_chunks bytes).0 readings (ground arith) (ground arith)
            (ground arith) s read,
      )

validate_series-whole :
    (scale : ℕ) (m : ℤ) (first : ℕ) (bytes : Bytes) (readings : List (ℕ × ℤ))
    → not (leb 1 scale && leb scale 7) ≡ false
    → IsI16 m
    → first < 2 ^ 19
    → is_empty readings ≡ false
    → (as_chunks bytes).1 ≡ []
    → read_entries first (as_chunks bytes).0 ≡ ok readings
    → validate_series (scale ∷ (i16_to_be m ++ bytes)) first ≡ ok (scale, (first, m) ∷ readings)
unfolding validate_series scale_is_valid
validate_series-whole scale m first [] readings valid small below some_readings whole read =
    let none_read : [] ≡ readings = unfold as_chunks read_entries in ok_inj read in ground arith
validate_series-whole scale m first (b ∷ bytes) readings valid small below some_readings whole
      read =
    let inside : leb (2 ^ 19) first ≡ false = ground arith in
    let long : ltb (suc (suc (suc (suc (length bytes))))) 3 ≡ false = ground arith in
    rw (long, valid, whole, inside, read, i16_round m small)

-- For i16 mantissas: the readings that `series` accepts are those that `series_values` reads from
-- the datagram it builds.
pub series_values-series :
    (cipher : CipherId) (sender_id epoch_id scale : ℕ) (readings : List (ℕ × ℤ)) (d : Datagram)
    → All (λ r. IsI16 r.1) readings
    → series cipher sender_id epoch_id scale readings ≡ ok d
    → series_values d ≡ some (scale, readings)
unfolding series series_from series_values base scale_is_valid
series_values-series cipher sender_id epoch_id scale [] d small h =
    let (valid, h1) =
      guard-eq-ok (not (leb 1 scale && leb scale 7)) (bad_series "scale must be 0x01..=0x07") _ h in
    cc
series_values-series cipher sender_id epoch_id scale ((first, m) ∷ readings) d (s, small) h =
    let (valid, h1) =
      guard-eq-ok (not (leb 1 scale && leb scale 7)) (bad_series "scale must be 0x01..=0x07") _ h in
    let (two, h2) =
      guard-eq-ok (ltb (length ((first, m) ∷ readings)) 2)
        (bad_series "SERIES must carry at least two readings") _ h1 in
    let (below, h3) =
      guard-eq-ok (leb ticks_per_epoch first) (framing "datagram_offset exceeds 19 bits") _ h2 in
    let ((entries, prev), written, h4) = >>=-eq-ok (write_entries first readings) _ h3 in
    let (inside, h5) =
      guard-eq-ok (leb ticks_per_epoch prev)
        (bad_series "reading instant crosses the epoch boundary") _ h4 in
    let (le, whole, read) =
      entries-round first readings (entries, prev) small written (ground arith) in
    subst (λ d. series_values d ≡ some (scale, (first, m) ∷ readings)) (ok_inj h5)
      (rw (
        validate_series-whole scale m first entries readings valid s (ground arith)
          (at_least_one readings two) whole read))
  where
    at_least_one :
        (rs : List (ℕ × ℤ)) → ltb (length ((first, m) ∷ rs)) 2 ≡ false → is_empty rs ≡ false
    at_least_one [] h = cc
    at_least_one (r ∷ rs) h = refl
