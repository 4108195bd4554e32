-- ===== src/Tools/Verdict/Permissive.antt =====
-- tools/src/bin/conformance_iut.rs, `permissive_layouts`: no record of formats 1 to 6 is set apart.
use catp.Base.{
  ℕ, zero, suc, ◌+◌, ◌<◌, ◌≤◌, ◌≡◌, refl, Bool, true, false, ◌&&◌, ◌||◌, ◌==◌, List, [], ◌∷◌, All,
  arith,
}
use catp.Registry.MsgType.{MsgType}
use catp.Tools.Verdict.{range, with_versions, flat_map_versions, permissive_layouts}
use catp.Wire.Datagram.{Datagram}
use catp.Wire.Decode.{holds, partition, skip_unknown}
use catp.Wire.Decode.RoundTrip.{Framed}
use catp.Wire.Record.{Record}
use catp.Wire.Record.RoundTrip.{IsWellFormed}

-- Every layout with a format from 1 to 6 is permitted.
abbrev within : List ℕ → ℕ → Bool
within [] v = false
within (s ∷ versions) v = s == v || within versions v

within-range : (from count v : ℕ) → from ≤ v → v < from + count → within (range from count) v ≡ true
within-range from zero v h k = absurd (omega arith)
within-range from (suc count) v h k = ground (arith, within-range (suc from) count v)

holds-with_versions :
    (f : ℕ) (versions : List ℕ) (rest : List (ℕ × ℕ)) (r : Record)
    → holds (with_versions f versions rest) r
      ≡ (f == r.format && within versions r.schema_version || holds rest r)
unfolding holds with_versions
holds-with_versions f [] rest r = ground arith
holds-with_versions f (s ∷ versions) rest r = ground (arith, holds-with_versions f versions rest r)

permissive-holds :
    (formats : List ℕ) (r : Record)
    → r.schema_version < 256
    → within formats r.format ≡ true
    → holds (flat_map_versions formats) r ≡ true
unfolding flat_map_versions
permissive-holds [] r h k = cc
permissive-holds (f ∷ formats) r h k =
    let known = within-range 0 256 r.schema_version (omega arith) (omega arith) in
    rw (holds-with_versions f (range 0 256) (flat_map_versions formats) r, known)
      (ground (arith, permissive-holds formats r))

-- A record that such a receiver keeps.
abbrev pub IsListed : Record → Type 0
IsListed r = r.format ≤ 6

partition-permissive :
    (rs : List Record)
    → All IsWellFormed rs
    → All IsListed rs
    → partition permissive_layouts rs ≡ (rs, [])
unfolding partition permissive_layouts
partition-permissive [] v l = refl
partition-permissive (r ∷ rs) (w, v) (listed, l) =
    let positive = w.format_pos in
    let known = within-range 1 6 r.format (omega arith) (omega arith) in
    let kept = permissive-holds (range 1 6) r w.schema_lt known in
    rw (partition-permissive rs v l, kept) refl

-- Nothing is set apart.
pub skip_unknown-permissive :
    (enc_epoch : ℕ) (kind : MsgType) (dg : Datagram)
    → Framed kind dg
    → All IsListed dg.records
    → skip_unknown permissive_layouts enc_epoch dg ≡ record {
      datagram = dg;
      epoch_id = enc_epoch;
      datagram_offset = dg.datagram_offset;
      skipped = [];
    }
unfolding skip_unknown
skip_unknown-permissive enc_epoch kind dg framed listed =
    rw (partition-permissive dg.records framed.well_formed listed) refl
