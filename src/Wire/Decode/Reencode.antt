-- ===== src/Wire/Decode/Reencode.antt =====
-- A datagram that `decode` accepts, encoded again: the property of
-- fuzz/fuzz_targets/decode_roundtrip.rs.
use catp.Base.{
  ℕ, ◌+◌, ◌-◌, ◌≤◌, ◌≡◌, refl, sym, ap, ◌∙◌, subst, arith, false, some, List, [], ◌++◌, length,
  take, drop, All, All-take, All-drop, if◌then◌else◌, take-append-drop, drop-drop, length-append,
  ge→ltb,
}
use catp.Base.Words.{Bytes, IsByte}
use catp.Crypto.{Primitives}
use catp.Crypto.Laws.{too_long}
use catp.Errors.{ok}
use catp.Payload.{is_empty}
use catp.Registry.{Direction}
use catp.Registry.CipherId
use catp.Registry.Laws.{CipherId_round}
use catp.Replay.{ReplayWindow}
use catp.Wire.Datagram.{Datagram, header_bytes, auth_header, payload_len, encode}
use catp.Wire.Datagram.Encode.{wire_bytes, wire_len, encode-eq, length-wire_bytes}
use catp.Wire.Datagram.Header.{length-auth_header}
use catp.Wire.Datagram.Payload.{records_bytes, payload_bytes, length-payload_bytes}
use catp.Wire.Decode.{PeerConfig, Accepted, Verified, parse_header, partition, skip_unknown, decode}
use catp.Wire.Decode.Canonical.{header_bytes-parse_header}
use catp.Wire.Decode.Steps.{Passes, payload_of, tag_of_buf}
use catp.Wire.Decode.Window.{decode-ok}
use catp.Wire.Record.{Record}
use catp.Wire.Decode.Reframe.{partition-kept, Framing, frame-Framing}

-- The datagram's bytes: header, payload and tag.
pub three_parts :
    (peer : PeerConfig) (buf : Bytes)
    → 9 + CipherId.tag_len peer.cipher ≤ length buf
    → take 9 buf ++ (payload_of peer buf ++ tag_of_buf peer buf) ≡ buf
three_parts peer buf h =
    let k = length buf - CipherId.tag_len peer.cipher - 9 in
    let at : 9 + k ≡ length buf - CipherId.tag_len peer.cipher = omega arith in
    let behind : take k (drop 9 buf) ++ drop (length buf - CipherId.tag_len peer.cipher) buf
        ≡ drop 9 buf =
      ap (λ t. take k (drop 9 buf) ++ t) (sym (drop-drop 9 k buf ∙ ap (λ n. drop n buf) at))
      ∙ take-append-drop k (drop 9 buf) in
    ap (λ t. take 9 buf ++ t) behind ∙ take-append-drop 9 buf

-- The header and the authenticated image do not depend on the payload.
same_header :
    (d : Datagram) (records : List Record) (raw : Bytes)
    → header_bytes (record d { records = records; raw = raw }) ≡ header_bytes d
unfolding header_bytes
same_header d records raw = refl

same_auth_header :
    (d : Datagram) (records : List Record) (raw : Bytes) (epoch_id : ℕ)
    → auth_header (record d { records = records; raw = raw }) epoch_id ≡ auth_header d epoch_id
unfolding auth_header header_bytes
same_auth_header d records raw epoch_id = refl

parsed_bare : (buf : Bytes) → ((parse_header buf).records ≡ []) × ((parse_header buf).raw ≡ [])
unfolding parse_header
parsed_bare buf = (refl, refl)

module _ (prim : Primitives) (buf : Bytes) (peer : PeerConfig) (local_epoch : ℕ) (dir : Direction)
    (v : Verified) (p : Passes prim buf peer local_epoch dir v) (bytes : All IsByte buf) where
  -- A framed datagram is encoded to the bytes it came in.
  abbrev Reencoded : ℕ → Datagram → Type 0
  Reencoded max_size out = encode prim out peer.secret v.epoch_id dir max_size ≡ ok buf

  payload_bytes_are_bytes : All IsByte v.payload
  payload_bytes_are_bytes = rw p.payload_eq (
      All-take {A = ℕ} IsByte (length buf - CipherId.tag_len peer.cipher - 9) (drop 9 buf)
        (All-drop {A = ℕ} IsByte 9 buf bytes))

  framed-wire_bytes :
      (records : List Record) (raw : Bytes)
      → (if is_empty records then raw else records_bytes records) ≡ v.payload
      → wire_bytes prim peer.cipher
          (record v.out { records = records; raw = raw })
          peer.secret
          v.epoch_id
          dir
        ≡ buf
  unfolding wire_bytes payload_bytes
  framed-wire_bytes records raw written =
      let head : header_bytes v.out ≡ take 9 buf =
        rw p.header (header_bytes-parse_header buf bytes (let k = p.long_enough in omega arith)) in
      rw
        (
          same_header v.out records raw,
          same_auth_header v.out records raw v.epoch_id,
          written,
          sym p.authentic,
          head,
          p.payload_eq,
        )
        (three_parts peer buf p.long_enough)

  framed-Reencoded :
      (max_size : ℕ) (out : Datagram)
      → Framing v.out v.payload out
      → length buf ≤ max_size
      → Reencoded max_size out
  framed-Reencoded max_size out f short =
      let d = record v.out { records = f.records; raw = f.raw } in
      let suite : CipherId.from_u8 d.cipher_id ≡ some peer.cipher =
        rw p.suite (CipherId_round peer.cipher) in
      let wire = framed-wire_bytes f.records f.raw f.written in
      let size : wire_len prim peer.cipher d ≡ length buf =
        sym (length-wire_bytes prim peer.cipher d peer.secret v.epoch_id dir) ∙ ap length wire in
      let same_payload : payload_bytes d ≡ v.payload = unfold payload_bytes in f.written in
      let same_len : length v.payload ≡ payload_len d =
        ap length (sym same_payload) ∙ length-payload_bytes d in
      let staged : too_long peer.cipher (13 + payload_len d) ≡ false =
        subst (λ n. too_long peer.cipher n ≡ false)
          (length-append (auth_header v.out v.epoch_id) v.payload
            ∙ omega (arith, length-auth_header v.out v.epoch_id, same_len))
          p.staged in
      subst (Reencoded max_size) f.built (
        encode-eq prim peer.cipher d suite peer.secret v.epoch_id dir max_size f.fits
        ∙ rw (staged, size, ge→ltb max_size (length buf) short, wire) refl)

module _ (prim : Primitives) (words : ℕ) (buf : Bytes) (peer : PeerConfig) (local_epoch : ℕ)
    (dir : Direction) (window : ReplayWindow) where
  -- For a datagram of bytes that `decode` accepts with no record set apart: `encode` of what was
  -- decoded, with the same secret, epoch and direction and a maximum that admits the length, returns
  -- the datagram as it came in.
  pub encode-decode :
      (acc : Accepted) (max_size : ℕ)
      → All IsByte buf
      → (decode prim words buf peer local_epoch dir window).0 ≡ ok acc
      → acc.skipped ≡ []
      → length buf ≤ max_size
      → encode prim acc.datagram peer.secret acc.epoch_id dir max_size ≡ ok buf
  unfolding skip_unknown
  encode-decode acc max_size bytes accepted none short =
      let (v, out, p, taken, framed, same) =
        decode-ok prim words buf peer local_epoch dir window acc accepted in
      let (no_records, no_raw) = parsed_bare buf in
      let payload = payload_bytes_are_bytes prim buf peer local_epoch dir v p bytes in
      let f =
        frame-Framing v.kind v.out v.payload out (rw p.header no_records) (rw p.header no_raw)
          payload framed in
      let kept : (partition peer.layouts out.records).0 ≡ out.records =
        partition-kept peer.layouts out.records (sym (ap Accepted.skipped same) ∙ none) in
      rw (same, kept)
        (framed-Reencoded prim buf peer local_epoch dir v p bytes max_size out f short)
