-- ===== src/Wire/Time/RoundTrip.antt =====
-- The decoders of the time-recovery messages accept what the encoders seal.
use catp.Base.{
  ℕ, ◌^◌, ◌<◌, ◌≡◌, refl, sym, ap, ◌∙◌, arith, [], ◌++◌, length, drop, length-append, take-append,
  drop-append,
}
use catp.Base.Int.{ℤ}
use catp.Base.Words.{Bytes, IsI64, i64_to_be, i64_from_be-i64_to_be}
use catp.Errors.{ok, ◌>>=◌}
use catp.Registry.{node_to_collector, collector_to_node}
use catp.Registry.CipherId.{hmac_sha256_t64}
use catp.Registry.MsgType.{MsgType}
use catp.Crypto.{Primitives, time_key, mac}
use catp.Crypto.Laws.{tag, length-tag, mac_cases, ct_eq_iff}
use catp.Wire.Datagram.{Datagram, header_bytes, auth_header}
use catp.Wire.Datagram.Header.{IsHeader, length-header_bytes}
use catp.Wire.Decode.{parse_header}
use catp.Wire.Decode.Header.{bare, parse_header-header_bytes}
use catp.Wire.Time.{
  time_datagram, check_time_header, time_announce, time_request, decode_time_request,
  decode_time_announce,
}
use mathlib.Core.List.{append_assoc}

time_datagram-IsHeader :
    (mt : MsgType) (sender_id : ℕ) (raw : Bytes)
    → sender_id < 2 ^ 32
    → IsHeader (time_datagram mt 0 sender_id raw)
unfolding time_datagram
time_datagram-IsHeader mt sender_id raw h = record {
  version_lt = omega arith;
  msg_type_lt = ground arith;
  cipher_lt = omega arith;
  epoch_lt = omega arith;
  reserved_lt = omega arith;
  offset_lt = omega arith;
  sender_lt = h;
}

-- `check_time_header` reads the fields as `parse_header` does.
check_time_header-parse :
    (buf : Bytes) (mt : MsgType) (sender_id : ℕ) (raw : Bytes)
    → parse_header buf ≡ bare (time_datagram mt 0 sender_id raw)
    → check_time_header buf mt sender_id ≡ ok 0
unfolding check_time_header parse_header time_datagram
check_time_header-parse buf mt sender_id raw h = ground (
  arith,
  ap Datagram.version h,
  ap Datagram.msg_type h,
  ap Datagram.cipher_id h,
  ap Datagram.epoch_low h,
  ap Datagram.reserved h,
  ap Datagram.datagram_offset h,
  ap Datagram.sender_id h,
)

module _ (prim : Primitives) where
  hmac_ok :
      (key msg : Bytes)
      → mac prim hmac_sha256_t64 key msg 0 ≡ ok (tag prim hmac_sha256_t64 key msg 0)
  hmac_ok key msg = mac_cases prim hmac_sha256_t64 key msg 0

  -- For a u32 sender and an i64 time: a node that shares the secret accepts the announcement that a
  -- collector seals for its identifier, and gets the asserted time.
  pub decode_time_announce-time_announce :
      (sender_id : ℕ) (asserted_time : ℤ) (secret : Bytes)
      → sender_id < 2 ^ 32
      → IsI64 asserted_time
      → (time_announce prim sender_id asserted_time secret >>= λ buf.
          decode_time_announce prim buf sender_id secret)
        ≡ ok asserted_time
  unfolding time_announce decode_time_announce
  decode_time_announce-time_announce sender_id asserted_time secret hs ht =
      rw (hmac_ok key (auth_header d 0 ++ raw)) (
        rw
          (
            total,
            check_time_header-parse (header_bytes d ++ (raw ++ t)) MsgType.time_announce sender_id
                raw parsed,
          )
          (rw (behind, take-append raw t 8 refl, at_tag)
            (rw (
              hmac_ok key (auth_header d 0 ++ raw),
              (ct_eq_iff prim t t).1 refl,
              i64_from_be-i64_to_be asserted_time ht,
            ))))
    where
      raw : Bytes
      raw = i64_to_be asserted_time

      d : Datagram
      d = time_datagram MsgType.time_announce 0 sender_id raw

      key : Bytes
      key = time_key prim secret sender_id collector_to_node

      t : Bytes
      t = tag prim hmac_sha256_t64 key (auth_header d 0 ++ raw) 0

      total : length (header_bytes d ++ (raw ++ t)) ≡ 25
      total =
          length-append (header_bytes d) (raw ++ t)
          ∙ omega (
            arith,
            length-header_bytes d,
            length-append raw t,
            length-tag prim hmac_sha256_t64 key (auth_header d 0 ++ raw) 0,
          )

      behind : drop 9 (header_bytes d ++ (raw ++ t)) ≡ raw ++ t
      behind = drop-append (header_bytes d) (raw ++ t) 9 (length-header_bytes d)

      at_tag : drop 17 (header_bytes d ++ (raw ++ t)) ≡ t
      at_tag =
          ap (drop 17) (sym (append_assoc (header_bytes d) raw t))
          ∙ drop-append (header_bytes d ++ raw) t 17
              (length-append (header_bytes d) raw ∙ omega (arith, length-header_bytes d))

      parsed : parse_header (header_bytes d ++ (raw ++ t)) ≡ bare d
      parsed =
          parse_header-header_bytes d (raw ++ t)
            (time_datagram-IsHeader MsgType.time_announce sender_id raw hs)

  -- For a u32 sender: a collector that shares the secret accepts the request that the node seals.
  pub decode_time_request-time_request :
      (sender_id : ℕ) (secret : Bytes)
      → sender_id < 2 ^ 32
      → (time_request prim sender_id secret >>= λ buf.
          decode_time_request prim buf sender_id secret)
        ≡ ok tt
  unfolding time_request decode_time_request
  decode_time_request-time_request sender_id secret hs = rw (hmac_ok key (auth_header d 0)) (
      rw
        (
          total,
          check_time_header-parse (header_bytes d ++ t) MsgType.time_request sender_id [] parsed,
        )
        (rw (
          hmac_ok key (auth_header d 0),
          drop-append (header_bytes d) t 9 (length-header_bytes d),
          (ct_eq_iff prim t t).1 refl,
        )))
    where
      d : Datagram
      d = time_datagram MsgType.time_request 0 sender_id []

      key : Bytes
      key = time_key prim secret sender_id node_to_collector

      t : Bytes
      t = tag prim hmac_sha256_t64 key (auth_header d 0) 0

      total : length (header_bytes d ++ t) ≡ 17
      total =
          length-append (header_bytes d) t
          ∙ omega (
            arith,
            length-header_bytes d,
            length-tag prim hmac_sha256_t64 key (auth_header d 0) 0,
          )

      parsed : parse_header (header_bytes d ++ t) ≡ bare d
      parsed =
          parse_header-header_bytes d t
            (time_datagram-IsHeader MsgType.time_request sender_id [] hs)
