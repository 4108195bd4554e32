-- ===== src/Tools/Verdict/Accept.antt =====
-- tools/src/bin: the generator's accepted vectors and the verdict on them.
use catp.Base.{
  ℕ, ◌<◌, ◌^◌, ◌≡◌, refl, ap, ◌∙◌, Bool, true, false, ◌==◌, ◌!=◌, none, some, [], ◌∷◌, ◌++◌, length,
  All, arith, if◌then◌else◌,
}
use catp.Base.Text.{Text, text_of, same_text}
use catp.Base.Text.Decimal.{parse_unsigned-to_decimal}
use catp.Base.Text.Laws.{from_str_radix-hex_text}
use catp.Base.Words.{Bytes, IsByte}
use catp.Crypto.{Primitives, epoch_key}
use catp.Errors.{ok}
use catp.Provisioning.Parse.{exactly_32}
use catp.Registry.{Direction, node_to_collector, collector_to_node, direction_byte}
use catp.Registry.CipherId.{CipherId}
use catp.Registry.Laws.{CipherId_round}
use catp.Registry.MsgType.{MsgType}
use catp.Replay.{default_window_words, one_second, check_and_set, check_at, new}
use catp.Tools.Json.{Map, lookup}
use catp.Tools.Vectors.{accept_fields, accept_cross, object_text, JsonVectors, push}
use catp.Tools.Vectors.Line.{encoded_fields, insert_fields, parse_object-object_text}
use catp.Tools.Verdict.{
  good, permissive_layouts, index, index_hex, read_u32, read_secret, read_direction, Messages,
  read_sender, check_decoded, check_accept, encode_epoch_of,
}
use catp.Tools.Verdict.Fields.{unhex-hex_text, unhex-hex2}
use catp.Tools.Verdict.Run.{verdict, verdict_of, verdict_on, line_of, check_kind}
use catp.Wire.Datagram.{Datagram, encode}
use catp.Wire.Decode.{PeerConfig}
use catp.Wire.Decode.Accepts.{IsFrom}
use catp.Wire.Decode.RoundTrip.{Framed, decode-encode}
use catp.Tools.Verdict.Permissive.{IsListed, skip_unknown-permissive}
use catp.Tools.Verdict.AcceptFields.{
  epoch_values, accept_values, accept_fields-encoded, accept_values-AreValues, Written, Printable,
  accept_values-Written,
}

-- The configuration that `check_accept` builds from the fields.
abbrev pub vector_peer : ℕ → Bytes → CipherId → PeerConfig
vector_peer sender_id secret cipher = record {
  sender_id = sender_id;
  secret = secret;
  cipher = cipher;
  layouts = permissive_layouts;
  inbound_rate_limit = none;
}

direction_round :
    (dir : Direction)
    → (if direction_byte dir == 0x00 then node_to_collector else collector_to_node) ≡ dir
direction_round node_to_collector = refl
direction_round collector_to_node = refl

direction_byte-lt : (dir : Direction) → direction_byte dir < 256
direction_byte-lt node_to_collector = omega arith
direction_byte-lt collector_to_node = omega arith

same_epoch : (e : ℕ) → (e != e) ≡ false
same_epoch e = ground arith

same_text_refl : (s : Text) → same_text s s ≡ true
same_text_refl [] = refl
same_text_refl (c ∷ s) = ground (arith, same_text_refl s)

module _ (messages : Messages) (prim : Primitives) where
  check_accept-reads :
      (m : Map) (secret : Bytes) (dg : Datagram) (rx_epoch : ℕ) (dir : Direction) (c : CipherId)
      (wire : Bytes)
      → Written m secret dg rx_epoch dir wire
      → Printable secret dg rx_epoch c wire
      → check_accept messages prim m
        ≡ check_decoded messages prim m secret dg.sender_id rx_epoch dir c wire
  unfolding check_accept read_secret read_sender read_u32 read_direction index_hex index
  check_accept-reads m secret dg rx_epoch dir c wire w p =
      let arr : exactly_32 secret ≡ some secret = let n = p.secret_length in ground arith in
      rw
        (
          w.device_secret,
          unhex-hex_text secret p.secret_bytes,
          arr,
          w.sender_id,
          from_str_radix-hex_text dg.sender_id p.sender_lt,
          w.epoch_id,
          parse_unsigned-to_decimal 4294967295 rx_epoch (let n = p.epoch_lt in omega arith)
              (let n = p.epoch_lt in omega arith),
          w.direction,
          unhex-hex2 (direction_byte dir) (direction_byte-lt dir),
          direction_round dir,
          w.cipher_id,
          unhex-hex2 dg.cipher_id p.cipher_lt,
          p.suite,
          w.wire_hex,
          unhex-hex_text wire p.wire_bytes,
        )
        refl

  -- The receiver gives the datagram back, whole, and it is sealed again to the same bytes.
  check_decoded-good :
      (m : Map) (secret : Bytes) (enc_epoch rx_epoch : ℕ) (dir : Direction) (kind : MsgType)
      (c : CipherId) (dg : Datagram) (wire : Bytes)
      → encode_epoch_of messages (lookup (text_of "encode_epoch") m) rx_epoch ≡ good enc_epoch
      → IsFrom (vector_peer dg.sender_id secret c) rx_epoch enc_epoch kind dg
      → Framed kind dg
      → All IsListed dg.records
      → encode prim dg secret enc_epoch dir 65535 ≡ ok wire
      → check_decoded messages prim m secret dg.sender_id rx_epoch dir c wire ≡ good tt
  unfolding check_decoded
  check_decoded-good m secret enc_epoch rx_epoch dir kind c dg wire e from framed listed sent =
      let peer = vector_peer dg.sender_id secret c in
      let received =
        decode-encode prim default_window_words peer rx_epoch enc_epoch kind dg dir one_second 65535
          wire from framed sent in
      let fresh : (check_and_set default_window_words one_second dg.datagram_offset).0 ≡ ok tt =
        unfold check_and_set check_at one_second new in refl in
      rw
        (
          received,
          fresh,
          skip_unknown-permissive enc_epoch kind dg framed listed,
          e,
          same_epoch enc_epoch,
          sent,
          same_text_refl wire,
        )
        refl

  -- The epoch that the datagram was sealed in is named, or is the receiver's.
  encode_epoch-good :
      (other : Bool) (name : Text) (secret : Bytes) (enc_epoch rx_epoch : ℕ) (dir : Direction)
      (dg : Datagram) (key wire : Bytes)
      → enc_epoch < 2 ^ 32
      → (enc_epoch != rx_epoch) ≡ other
      → encode_epoch_of messages
          (lookup
            (text_of "encode_epoch")
            (insert_fields [] (accept_values other name secret enc_epoch rx_epoch dir dg key wire)))
          rx_epoch
        ≡ good enc_epoch
  unfolding accept_values epoch_values lookup
  encode_epoch-good true name secret enc_epoch rx_epoch dir dg key wire h e =
      rw (parse_unsigned-to_decimal 4294967295 enc_epoch (omega arith) (omega arith)) refl
  encode_epoch-good false name secret enc_epoch rx_epoch dir dg key wire h e =
      let same : rx_epoch ≡ enc_epoch = ground arith in ap good same

  verdict-accept_values :
      (other : Bool) (name : Text) (secret : Bytes) (enc_epoch rx_epoch : ℕ) (dir : Direction)
      (dg : Datagram) (key wire : Bytes)
      → let values = accept_values other name secret enc_epoch rx_epoch dir dg key wire in
        verdict messages prim (object_text (encoded_fields values))
        ≡ line_of (check_accept messages prim (insert_fields [] values))
  unfolding verdict verdict_of check_kind lookup accept_values epoch_values
  verdict-accept_values true name secret enc_epoch rx_epoch dir dg key wire =
      ap (verdict_on messages prim) (
        parse_object-object_text (accept_values true name secret enc_epoch rx_epoch dir dg key wire)
          (accept_values-AreValues true name secret enc_epoch rx_epoch dir dg key wire))
  verdict-accept_values false name secret enc_epoch rx_epoch dir dg key wire =
      ap (verdict_on messages prim) (
        parse_object-object_text
          (accept_values false name secret enc_epoch rx_epoch dir dg key wire)
          (accept_values-AreValues false name secret enc_epoch rx_epoch dir dg key wire))

  accept_cross-sent :
      (json : JsonVectors) (name : Text) (secret : Bytes) (enc_epoch rx_epoch : ℕ) (dir : Direction)
      (dg : Datagram) (wire : Bytes)
      → encode prim dg secret enc_epoch dir 65535 ≡ ok wire
      → let key = epoch_key prim secret dg.sender_id enc_epoch dir in
        accept_cross prim json name secret enc_epoch rx_epoch dir dg
        ≡ some (
            json
            ++ (object_text (accept_fields name secret enc_epoch rx_epoch dir dg key wire) ∷ []))
  unfolding accept_cross push
  accept_cross-sent json name secret enc_epoch rx_epoch dir dg wire sent =
      rw (accept_cross, sent) refl

  -- The line of an accepted vector passes. For a record-framed datagram with well-formed records of
  -- formats up to 6 that the generator seals in the receiver's epoch or the one before, with a secret
  -- of 32 bytes, epochs of 32 bits and a wire form made of bytes: the generator adds one line, and the
  -- verdict on it is `PASS`, through JSON, hex and decimal, the receiver's checks and sealing again.
  pub verdict-accept_cross :
      (json : JsonVectors) (name : Text) (secret : Bytes) (enc_epoch rx_epoch : ℕ) (dir : Direction)
      (kind : MsgType) (c : CipherId) (dg : Datagram) (wire : Bytes)
      → All IsByte secret
      → length secret ≡ 32
      → rx_epoch < 2 ^ 32
      → enc_epoch < 2 ^ 32
      → IsFrom (vector_peer dg.sender_id secret c) rx_epoch enc_epoch kind dg
      → Framed kind dg
      → All IsListed dg.records
      → encode prim dg secret enc_epoch dir 65535 ≡ ok wire
      → All IsByte wire
      → (line : Text) × (accept_cross prim json name secret enc_epoch rx_epoch dir dg
          ≡ some (json ++ (line ∷ [])))
        × (verdict messages prim line ≡ some (text_of "PASS"))
  verdict-accept_cross json name secret enc_epoch rx_epoch dir kind c dg wire hs ns hrx henc from
        framed listed sent hw =
      let key = epoch_key prim secret dg.sender_id enc_epoch dir in
      let other = enc_epoch != rx_epoch in
      let values = accept_values other name secret enc_epoch rx_epoch dir dg key wire in
      let m = insert_fields [] values in
      let line = object_text (accept_fields name secret enc_epoch rx_epoch dir dg key wire) in
      let suite = from.suite in
      let header = from.header in
      let printable : Printable secret dg rx_epoch c wire = record {
        secret_bytes = hs;
        secret_length = ns;
        sender_lt = header.sender_lt;
        epoch_lt = hrx;
        cipher_lt = let n = header.cipher_lt in omega arith;
        suite = rw suite (CipherId_round c);
        wire_bytes = hw;
      } in
      let checked =
        check_accept-reads m secret dg rx_epoch dir c wire
          (accept_values-Written other name secret enc_epoch rx_epoch dir dg key wire) printable
        ∙ check_decoded-good m secret enc_epoch rx_epoch dir kind c dg wire
            (encode_epoch-good other name secret enc_epoch rx_epoch dir dg key wire henc refl) from
            framed listed sent in
      let passes =
        ap (λ fields. verdict messages prim (object_text fields))
          (accept_fields-encoded other name secret enc_epoch rx_epoch dir dg key wire refl)
        ∙ verdict-accept_values other name secret enc_epoch rx_epoch dir dg key wire
        ∙ ap line_of checked in
      (line, accept_cross-sent json name secret enc_epoch rx_epoch dir dg wire sent, passes)
