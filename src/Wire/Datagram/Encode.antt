-- ===== src/Wire/Datagram/Encode.antt =====
-- What `encode_into` and `encode` produce.
use catp.Base.{
  ℕ, ◌+◌, ◌≤◌, ◌<◌, ◌≡◌, refl, sym, ap, ◌∙◌, arith, Bool, true, false, ltb, some, [], ◌++◌, length,
  take, drop, replicate, All, length-append, take-append, drop-append, drop_all, length-drop,
  length-take, length-replicate, if◌then◌else◌, ge→ltb, lt→ltb,
}
use catp.Base.Words.{Bytes}
use catp.Errors.{oversize, buffer_too_small, ok, err, ◌>>=◌, ◌>>◌, reject_if}
use catp.Registry.{Direction}
use catp.Registry.CipherId
use catp.Registry.CipherId.{CipherId, tag_len}
use catp.Crypto.{Primitives, epoch_key}
use catp.Crypto.Laws.{tag, too_long, length-tag, mac_parts_cases}
use catp.Wire.Datagram.{
  Datagram, header_bytes, auth_header, payload_len, payload_into, encode_into, encode,
}
use catp.Wire.Datagram.Header.{length-header_bytes, length-auth_header}
use catp.Wire.Datagram.Payload.{Fits, payload_bytes, length-payload_bytes, payload_into-eq}
use mathlib.Core.List.{append_assoc, append-nil}

module _ (prim : Primitives) where
  -- The datagram on the wire: header, payload and tag.
  unfoldable pub wire_bytes : CipherId → Datagram → Bytes → ℕ → Direction → Bytes
  wire_bytes c d secret epoch_id dir =
      let key = epoch_key prim secret d.sender_id epoch_id dir in
      header_bytes d
      ++ (payload_bytes d
          ++ tag prim c key (auth_header d epoch_id ++ payload_bytes d) d.datagram_offset)

  abbrev pub wire_len : CipherId → Datagram → ℕ
  wire_len c d = 9 + payload_len d + tag_len c

  pub length-wire_bytes :
      (c : CipherId) (d : Datagram) (secret : Bytes) (epoch_id : ℕ) (dir : Direction)
      → length (wire_bytes c d secret epoch_id dir) ≡ wire_len c d
  unfolding wire_bytes
  length-wire_bytes c d secret epoch_id dir =
      let key = epoch_key prim secret d.sender_id epoch_id dir in
      let t = tag prim c key (auth_header d epoch_id ++ payload_bytes d) d.datagram_offset in
      length-append (header_bytes d) (payload_bytes d ++ t)
      ∙ omega (
        arith,
        length-header_bytes d,
        length-append (payload_bytes d) t,
        length-payload_bytes d,
        length-tag prim c key (auth_header d epoch_id ++ payload_bytes d) d.datagram_offset,
      )

  module _ (c : CipherId) (d : Datagram) (suite : CipherId.from_u8 d.cipher_id ≡ some c) where
    -- For a registered suite and records whose bodies fit the size field: `encode_into` fills the
    -- front of any buffer that has room with the wire form, and leaves the rest; but a message that
    -- the suite's scratch buffer cannot hold is refused with `Oversize`.
    pub encode_into-eq :
        (secret : Bytes) (epoch_id : ℕ) (dir : Direction) (out : Bytes)
        → All Fits d.records
        → wire_len c d ≤ length out
        → encode_into prim d secret epoch_id dir out ≡ (
            if too_long c (13 + payload_len d)
            then err (oversize (13 + payload_len d))
            else ok (wire_len c d, wire_bytes c d secret epoch_id dir ++ drop (wire_len c d) out))
    unfolding encode_into wire_bytes
    encode_into-eq secret epoch_id dir out fits room = rw suite (
        rw (ge→ltb _ _ room) (
          rw body_eq (
            rw (behind_header, at_payload, behind_payload, front)
              (rw
                (mac_parts_cases prim c key (auth_header d epoch_id) (payload_bytes d)
                  d.datagram_offset tag_slot (omega (arith, length-auth_header d epoch_id))
                  (omega (arith, length-tag_slot)))
                (rw (no_more, total) (by_length (too_long c (13 + plen))))))))
      where
        plen : ℕ
        plen = payload_len d

        slot : Bytes
        slot = take plen (drop 9 out)

        length-slot : length slot ≡ plen
        length-slot = length-take plen (drop 9 out) ∙ omega (arith, length-drop 9 out)

        body_eq : payload_into d slot ≡ ok (plen, payload_bytes d)
        body_eq =
            payload_into-eq d slot fits (omega (arith, length-slot))
            ∙ ap (λ (t : Bytes). ok (plen, payload_bytes d ++ t))
                (drop_all slot plen (omega (arith, length-slot)))
            ∙ ap (λ (t : Bytes). ok (plen, t)) (append-nil (payload_bytes d))

        key : Bytes
        key = epoch_key prim secret d.sender_id epoch_id dir

        left : Bytes
        left = drop (9 + plen) out

        tag_slot : Bytes
        tag_slot = take (tag_len c) left

        length-tag_slot : length tag_slot ≡ tag_len c
        length-tag_slot = length-take (tag_len c) left ∙ omega (arith, length-drop (9 + plen) out)

        no_more : drop (tag_len c) tag_slot ≡ []
        no_more = drop_all tag_slot (tag_len c) (omega (arith, length-tag_slot))

        behind_header :
            drop 9 (header_bytes d ++ (payload_bytes d ++ left)) ≡ payload_bytes d ++ left
        behind_header =
            drop-append (header_bytes d) (payload_bytes d ++ left) 9 (length-header_bytes d)

        at_payload : take plen (payload_bytes d ++ left) ≡ payload_bytes d
        at_payload = take-append (payload_bytes d) left plen (length-payload_bytes d)

        behind_payload : drop plen (payload_bytes d ++ left) ≡ left
        behind_payload = drop-append (payload_bytes d) left plen (length-payload_bytes d)

        front :
            take (9 + plen) (header_bytes d ++ (payload_bytes d ++ left))
            ≡ header_bytes d ++ payload_bytes d
        front =
            ap (take (9 + plen)) (sym (append_assoc (header_bytes d) (payload_bytes d) left))
            ∙ take-append (header_bytes d ++ payload_bytes d) left (9 + plen) (
                length-append (header_bytes d) (payload_bytes d)
                ∙ omega (arith, length-header_bytes d, length-payload_bytes d))

        total : length (auth_header d epoch_id) + length (payload_bytes d) ≡ 13 + plen
        total = omega (arith, length-auth_header d epoch_id, length-payload_bytes d)

        t : Bytes
        t = tag prim c key (auth_header d epoch_id ++ payload_bytes d) d.datagram_offset

        by_length :
            (long : Bool)
            → ◌>>=◌ {Value = Bytes} {Next = ℕ × Bytes}
                (if long then err (oversize (13 + plen)) else ok (t ++ []))
                (λ tag'. ok (
                  wire_len c d,
                  (header_bytes d ++ payload_bytes d) ++ (tag' ++ drop (wire_len c d) out),
                ))
              ≡ (if long
                  then err (oversize (13 + plen))
                  else ok (
                    wire_len c d,
                    (header_bytes d ++ (payload_bytes d ++ t)) ++ drop (wire_len c d) out,
                  ))
        by_length true = refl
        by_length false = rw (append-nil, append_assoc, append_assoc, append_assoc)

    -- For a registered suite and records whose bodies fit the size field: `encode` returns the wire
    -- form, header, payload and tag; but it refuses with `Oversize` a message that the suite's
    -- scratch buffer cannot hold, and otherwise a wire form longer than the configured maximum.
    pub encode-eq :
        (secret : Bytes) (epoch_id : ℕ) (dir : Direction) (max_size : ℕ)
        → All Fits d.records
        → encode prim d secret epoch_id dir max_size ≡ (
            if too_long c (13 + payload_len d)
            then err (oversize (13 + payload_len d))
            else if ltb max_size (wire_len c d)
            then err (oversize (wire_len c d))
            else ok (wire_bytes c d secret epoch_id dir))
    unfolding encode
    encode-eq secret epoch_id dir max_size fits = rw suite (
        rw (encode_into-eq secret epoch_id dir zeros fits (omega (arith, length-zeros)))
          (by_length (too_long c (13 + payload_len d))))
      where
        zeros : Bytes
        zeros = replicate (wire_len c d) 0

        length-zeros : length zeros ≡ wire_len c d
        length-zeros = length-replicate {A = ℕ} (wire_len c d) 0

        wire : Bytes
        wire = wire_bytes c d secret epoch_id dir

        written : take (wire_len c d) (wire ++ drop (wire_len c d) zeros) ≡ wire
        written = take-append wire _ (wire_len c d) (length-wire_bytes c d secret epoch_id dir)

        by_length :
            (long : Bool)
            → ◌>>=◌ {Value = ℕ × Bytes} {Next = Bytes}
                (if long
                  then err (oversize (13 + payload_len d))
                  else ok (wire_len c d, wire ++ drop (wire_len c d) zeros))
                (λ x.
                  (reject_if
                      (ltb max_size (length (take x.0 x.1)))
                      (oversize (length (take x.0 x.1)))
                    >> ok (take x.0 x.1)))
              ≡ (if long
                  then err (oversize (13 + payload_len d))
                  else if ltb max_size (wire_len c d)
                  then err (oversize (wire_len c d))
                  else ok wire)
        by_length true = refl
        by_length false =
            rw (written, length-wire_bytes c d secret epoch_id dir)
              (by_size (ltb max_size (wire_len c d)))
          where
            by_size :
                (over : Bool)
                → (reject_if over (oversize (wire_len c d)) >> ok wire)
                  ≡ (if over then err (oversize (wire_len c d)) else ok wire)
            by_size true = refl
            by_size false = refl

    -- A buffer without room for the wire form is refused with the bytes it has and those needed.
    pub encode_into_short :
        (secret : Bytes) (epoch_id : ℕ) (dir : Direction) (out : Bytes)
        → length out < wire_len c d
        → encode_into prim d secret epoch_id dir out
          ≡ err (buffer_too_small (length out) (wire_len c d))
    unfolding encode_into
    encode_into_short secret epoch_id dir out short = rw (suite, lt→ltb _ _ short)
