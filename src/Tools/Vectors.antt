-- ===== src/Tools/Vectors.antt =====
-- tools/src/bin/vectors.rs: the JSON lines of the test vectors. What it prints for human readers is
-- not modelled.
pub mod Line
pub mod Wire
use catp.Base.{
  ltb, ℕ, zero, suc, ◌==◌, ◌!=◌, bit_or, Bool, Option, none, some, List, [], ◌∷◌, ◌++◌, length,
  get_or, take, drop, set, if◌then◌else◌,
}
use catp.Base.Int.{ℤ}
use catp.Base.Text.{Text, text_of, hex2, hex_text}
use catp.Base.Text.Decimal.{to_decimal, int_to_decimal}
use catp.Base.Words.{Bytes, u32_from_be, u32_to_be}
use catp.Crypto.{Primitives, epoch_key, mac}
use catp.Errors.{to_option}
use catp.Payload.{is_empty}
use catp.Registry.{Direction, direction_byte}
use catp.Registry.CipherId
use catp.Registry.CipherId.{CipherId}
use catp.Wire.Datagram.{Datagram, auth_header, encode}
use catp.Wire.Time.{time_announce}

-- `hex`
abbrev pub hex : Bytes → Text
hex = hex_text

-- The loop of `json_str`.
unfoldable pub escape : Text → Text
escape [] = []
escape (c ∷ cs) =
    let rest = escape cs in
    if c == b'"' then b'\\' ∷ b'"' ∷ rest else if c == b'\\' then b'\\' ∷ b'\\' ∷ rest else c ∷ rest

unfoldable pub json_str : Text → Text
json_str s = b'"' ∷ (escape s ++ (b'"' ∷ []))

-- `format!("{}: {v}", json_str(k))`, and the fields joined by `", "`.
unfoldable pub field_text : Text × Text → Text
field_text (k, v) = json_str k ++ (b':' ∷ b' ' ∷ v)

unfoldable pub join_fields : List (Text × Text) → Text
join_fields [] = []
join_fields (f ∷ []) = field_text f
join_fields (f ∷ g ∷ fields) = field_text f ++ (b',' ∷ b' ' ∷ join_fields (g ∷ fields))

unfoldable pub object_text : List (Text × Text) → Text
object_text fields = text_of "    { " ++ (join_fields fields ++ (b' ' ∷ b'}' ∷ []))

-- `JsonVectors`, and its `push`.
abbrev pub JsonVectors : Type 0
JsonVectors = List Text

unfoldable pub push : JsonVectors → List (Text × Text) → JsonVectors
push json fields = json ++ (object_text fields ∷ [])

-- `Receiver`, and `Receiver::for_wire`; a suite that is not registered is a panic, which is no value.
pub record Receiver : Type 0 where
  pub sender_id : ℕ
  pub epoch : ℕ
  pub cipher : CipherId
  pub seen_offsets : List ℕ

unfoldable pub for_wire : Datagram → ℕ → Option Receiver
for_wire d epoch = elim (CipherId.from_u8 d.cipher_id) [
  | none ↦ none
  | some cipher ↦
      some (record { sender_id = d.sender_id; epoch = epoch; cipher = cipher; seen_offsets = [] })
]

-- The JSON fields of `accept_cross`, for the wire form that it encoded.
abbrev pub encode_epoch_field : ℕ → ℕ → List (Text × Text)
encode_epoch_field enc_epoch rx_epoch =
    if enc_epoch != rx_epoch then (text_of "encode_epoch", to_decimal enc_epoch) ∷ [] else []

unfoldable pub accept_fields :
    Text → Bytes → ℕ → ℕ → Direction → Datagram → Bytes → Bytes → List (Text × Text)
accept_fields name secret enc_epoch rx_epoch dir dg key wire =
    (text_of "name", json_str name)
    ∷ (text_of "kind", json_str (text_of "accept"))
    ∷ (text_of "device_secret", json_str (hex secret))
    ∷ (text_of "sender_id", json_str (hex_text (u32_to_be dg.sender_id)))
    ∷ (text_of "epoch_id", to_decimal rx_epoch)
    ∷ (encode_epoch_field enc_epoch rx_epoch
        ++ ((text_of "direction", json_str (hex2 (direction_byte dir)))
            ∷ (text_of "cipher_id", json_str (hex2 dg.cipher_id))
            ∷ (text_of "msg_type", json_str (hex2 dg.msg_type))
            ∷ (text_of "offset", to_decimal dg.datagram_offset)
            ∷ (text_of "epoch_key", json_str (hex key))
            ∷ (text_of "auth_header", json_str (hex (auth_header dg enc_epoch)))
            ∷ (text_of "wire", json_str (hex wire))
            ∷ (text_of "wire_len", to_decimal (length wire))
            ∷ []))

-- `sender_id_of`; an index past the end is a panic, which is no value.
unfoldable pub sender_id_of : Bytes → Option ℕ
sender_id_of wire =
    if ltb (length wire) 9
    then none
    else some (u32_from_be (get_or wire 5 0) (get_or wire 6 0) (get_or wire 7 0) (get_or wire 8 0))

-- `join(",")` of the offsets.
abbrev pub join_offsets : List ℕ → Text
join_offsets [] = []
join_offsets (o ∷ []) = to_decimal o
join_offsets (o ∷ p ∷ offsets) = to_decimal o ++ (b',' ∷ join_offsets (p ∷ offsets))

abbrev pub seen_field : List ℕ → List (Text × Text)
seen_field [] = []
seen_field (o ∷ offsets) = (text_of "seen_offsets", json_str (join_offsets (o ∷ offsets))) ∷ []

unfoldable pub reject_fields : Text → Bytes → ℕ → Bytes → Text → Receiver → List (Text × Text)
reject_fields name secret sender wire fault receiver =
    (text_of "name", json_str name)
    ∷ (text_of "kind", json_str (text_of "reject_datagram"))
    ∷ (text_of "fault", json_str fault)
    ∷ (text_of "device_secret", json_str (hex secret))
    ∷ (text_of "sender_id", json_str (hex_text (u32_to_be sender)))
    ∷ (text_of "receiver_sender", json_str (hex_text (u32_to_be receiver.sender_id)))
    ∷ (text_of "receiver_epoch", to_decimal receiver.epoch)
    ∷ (text_of "configured_cipher", json_str (hex2 (CipherId.to_u8 receiver.cipher)))
    ∷ (text_of "direction", json_str (text_of "00"))
    ∷ (text_of "wire", json_str (hex wire))
    ∷ (text_of "wire_len", to_decimal (length wire))
    ∷ seen_field receiver.seen_offsets

unfoldable pub reject_datagram :
    JsonVectors → Text → Bytes → Bytes → Text → Receiver → Option JsonVectors
reject_datagram json name secret wire fault receiver = elim (sender_id_of wire) [
  | none ↦ none
  | some sender ↦ some (push json (reject_fields name secret sender wire fault receiver))
]

unfoldable pub series_fields : Bytes → ℕ → Text → List (Text × Text)
series_fields payload anchor outcome =
    (text_of "kind", json_str (text_of "series_payload"))
    ∷ (text_of "payload", json_str (hex payload))
    ∷ (text_of "anchor_offset", to_decimal anchor)
    ∷ (text_of "outcome", json_str outcome)
    ∷ []

abbrev pub series_payload : JsonVectors → Bytes → ℕ → Text → JsonVectors
series_payload json payload anchor outcome = push json (series_fields payload anchor outcome)

-- The body of the loop at the end of `main`.
unfoldable pub number_fields : Bytes → Text → List (Text × Text)
number_fields payload outcome =
    (text_of "kind", json_str (text_of "number_payload"))
    ∷ (text_of "payload", json_str (hex payload))
    ∷ (text_of "outcome", json_str outcome)
    ∷ []

unfoldable pub time_fields : Text → Bytes → ℕ → ℤ → Text → ℕ → Bytes → List (Text × Text)
time_fields name secret sender_id asserted_time clock_state last_epoch wire =
    (text_of "name", json_str name)
    ∷ (text_of "kind", json_str (text_of "reject_time_announce"))
    ∷ (text_of "device_secret", json_str (hex secret))
    ∷ (text_of "sender_id", json_str (hex_text (u32_to_be sender_id)))
    ∷ (text_of "direction", json_str (text_of "01"))
    ∷ (text_of "asserted_time", int_to_decimal asserted_time)
    ∷ (text_of "clock_state", json_str clock_state)
    ∷ (text_of "last_epoch", to_decimal last_epoch)
    ∷ (text_of "wire", json_str (hex wire))
    ∷ (text_of "wire_len", to_decimal (length wire))
    ∷ []

-- `with_byte`
unfoldable pub with_byte : Bytes → ℕ → ℕ → Option Bytes
with_byte wire idx val = if ltb idx (length wire) then some (set wire idx val) else none

-- The functions that encode first: a failed `expect` is no value.
module _ (prim : Primitives) where
  unfoldable pub accept_cross :
      JsonVectors → Text → Bytes → ℕ → ℕ → Direction → Datagram → Option JsonVectors
  accept_cross json name secret enc_epoch rx_epoch dir dg =
      elim (to_option (encode prim dg secret enc_epoch dir 65535)) [
        | none ↦ none
        | some wire ↦
            let key = epoch_key prim secret dg.sender_id enc_epoch dir in
            some (push json (accept_fields name secret enc_epoch rx_epoch dir dg key wire))
      ]

  abbrev pub accept : JsonVectors → Text → Bytes → ℕ → Direction → Datagram → Option JsonVectors
  accept json name secret epoch dir dg = accept_cross json name secret epoch epoch dir dg

  unfoldable pub reject_time_announce :
      JsonVectors → Text → Bytes → ℕ → ℤ → Text → ℕ → Option JsonVectors
  reject_time_announce json name secret sender_id asserted_time clock_state last_epoch =
      elim (to_option (time_announce prim sender_id asserted_time secret)) [
        | none ↦ none
        | some wire ↦ some (
            push json (time_fields name secret sender_id asserted_time clock_state last_epoch wire))
      ]

  -- The wire form that is put together from the authenticated header and the tag.
  unfoldable pub authentic_with_payload : Bytes → Datagram → ℕ → Direction → Bytes → Option Bytes
  authentic_with_payload secret d epoch dir payload = elim (CipherId.from_u8 d.cipher_id) [
    | none ↦ none
    | some cipher ↦
        let key = epoch_key prim secret d.sender_id epoch dir in
        let ah = auth_header d epoch in
        elim (to_option (mac prim cipher key (ah ++ payload) d.datagram_offset)) [
          | none ↦ none
          | some tag ↦ some (
              get_or ah 0 0
              ∷ bit_or (get_or ah 1 0) d.epoch_low
              ∷ get_or ah 2 0
              ∷ get_or ah 3 0
              ∷ get_or ah 4 0
              ∷ (take 4 (drop 9 ah) ++ (payload ++ tag)))
        ]
  ]
