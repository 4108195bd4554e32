-- ===== src/Payload.antt =====
-- src/lib.rs, `scale_is_valid`, `validate_number`, `validate_series`: the fixed-point payloads.
use catp.Base.{ℕ, ◌+◌, Bool, ◌&&◌, not, ltb, leb, ◌==◌, ◌!=◌, List, [], ◌∷◌, length, get_or, drop}
use catp.Base.Int.{ℤ}
use catp.Base.Words.{Bytes, u16_from_be, i16_from_be}
use catp.Errors.{bad_number, bad_series, Result, ok, ◌>>=◌, ◌>>◌, reject_if}
use catp.Registry.{number_payload_len, scale_min, scale_max, ticks_per_epoch}

unfoldable pub scale_is_valid : ℕ → Bool
scale_is_valid scale = leb scale_min scale && leb scale scale_max

-- Once the length is checked, the indices are in range.
unfoldable pub validate_number : Bytes → Result (ℕ × ℤ)
unfolding scale_is_valid
validate_number p = do
  reject_if (length p != number_payload_len) (bad_number "payload must be exactly 3 bytes")
  let scale = get_or p 0 0
  reject_if (not (scale_is_valid scale)) (bad_number "scale must be 0x01..=0x07")
  ok (scale, i16_from_be (get_or p 1 0) (get_or p 2 0))

-- `as_chunks::<4>`: the whole entries, and the bytes that are left.
unfoldable pub as_chunks : Bytes → List (ℕ × ℕ × ℕ × ℕ) × Bytes
as_chunks (a ∷ b ∷ c ∷ d ∷ rest) =
    let (chunks, left) = as_chunks rest in ((a, b, c, d) ∷ chunks, left)
as_chunks left = ([], left)

-- `is_empty`
abbrev pub is_empty {ℓ} : {A : Type ℓ} → List A → Bool
is_empty [] = Bool.true
is_empty (x ∷ xs) = Bool.false

-- The loop over the entries; `cum` is the instant of the reading before. `delta` and `cum` are
-- below 2^16 and 2^19, so that `checked_add` on u32 never fails by itself.
unfoldable pub read_entries : ℕ → List (ℕ × ℕ × ℕ × ℕ) → Result (List (ℕ × ℤ))
read_entries cum [] = ok []
read_entries cum ((a, b, c, d) ∷ entries) =
    let delta = u16_from_be a b in
    let rest = read_entries (cum + delta) entries in
    do
      reject_if (delta == 0) (bad_series "delta must be at least 1 tick")
      reject_if (leb ticks_per_epoch (cum + delta))
          (bad_series "reading's instant crosses the epoch boundary")
      readings ← rest
      ok ((cum + delta, i16_from_be c d) ∷ readings)

unfoldable pub validate_series : Bytes → ℕ → Result (ℕ × List (ℕ × ℤ))
unfolding scale_is_valid as_chunks read_entries
validate_series p anchor_offset = do
  reject_if (ltb (length p) number_payload_len) (bad_series "shorter than scale + first reading")
  let scale = get_or p 0 0
  reject_if (not (scale_is_valid scale)) (bad_series "scale must be 0x01..=0x07")
  let rest = drop number_payload_len p
  reject_if (is_empty rest) (bad_series "SERIES must carry at least two readings")
  let (entries, remainder) = as_chunks rest
  reject_if (not (is_empty remainder)) (bad_series "trailing entries must be 4 bytes each")
  reject_if (leb ticks_per_epoch anchor_offset) (bad_series "datagram_offset exceeds 19 bits")
  let first = i16_from_be (get_or p 1 0) (get_or p 2 0)
  readings ← read_entries anchor_offset entries
  ok (scale, (anchor_offset, first) ∷ readings)
