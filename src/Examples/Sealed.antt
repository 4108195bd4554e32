-- ===== src/Examples/Sealed.antt =====
-- The theorems on what is encoded, sent, decoded and read, each at one input.
use catp.Base.{
  ℕ, ◌≡◌, refl, sym, ap, ◌∙◌, arith, List, ◌∷◌, [], ◌++◌, replicate, All, inr, some, true, ltb,
}
use catp.Base.Int.{pos, negsuc}
use catp.Base.Words.{Bytes, IsByte}
use catp.Control
use catp.Control.{Capability, capability, msg_type}
use catp.Errors.{ok}
use catp.Registry.{node_to_collector}
use catp.Registry.CipherId
use catp.Registry.CipherId.{hmac_sha256_t64}
use catp.Registry.MsgType.{message}
use catp.Replay
use catp.Replay.{check_and_set}
use catp.Wire.Datagram.{Datagram, control, encode, series, series_values}
use catp.Wire.Decode.{PeerConfig, decode, skip_unknown}
use catp.Wire.Decode.Accepts.{IsFrom}
use catp.Wire.Decode.Header.{bare}
use catp.Wire.Decode.Raw.{whole, decode-encode-series, decode-encode-control}
use catp.Wire.Decode.Reencode.{encode-decode}
use catp.Wire.Decode.RoundTrip.{decode-encode}
use catp.Examples.{are_bytes, toy, peer, sent, wire}
use catp.Examples.Send.{sent-IsHeader, sent-Framed}

abbrev series_sent : Datagram
series_sent = record (bare sent) { msg_type = 5; raw = 2 ∷ 0 ∷ 5 ∷ 0 ∷ 100 ∷ 255 ∷ 252 ∷ [] }

abbrev bytes_of_header : ℕ → Bytes
bytes_of_header first = first ∷ 21 ∷ 0 ∷ 0 ∷ 100 ∷ 0 ∷ 0 ∷ 0 ∷ 7 ∷ []

abbrev series_wire : Bytes
series_wire = bytes_of_header 37 ++ (series_sent.raw ++ replicate 8 19)

abbrev ability_sent : Datagram
ability_sent = record (bare sent) { msg_type = 20; raw = 1 ∷ 2 ∷ 1 ∷ 4 ∷ 1 ∷ 1 ∷ 1 ∷ [] }

abbrev ability_wire : Bytes
ability_wire = bytes_of_header 52 ++ (ability_sent.raw ++ replicate 8 185)

abbrev abilities : Capability
abilities = record { max_version = 1; ciphers = 1 ∷ 4 ∷ []; layouts = (1, 1) ∷ [] }

series_built : series hmac_sha256_t64 7 21 2 ((100, pos 5) ∷ (200, negsuc 3) ∷ []) ≡ ok series_sent
unfolding series catp.Payload.scale_is_valid catp.Wire.Datagram.base catp.Base.Words.i16_to_bits
series_built = refl

series_sealed : encode toy series_sent peer.secret 21 node_to_collector 512 ≡ ok series_wire
unfolding encode CipherId.from_u8 catp.Wire.Datagram.encode_into catp.Wire.Datagram.payload_len
    catp.Wire.Datagram.payload_into catp.Wire.Record.write_into catp.Crypto.mac_parts
    catp.Wire.Datagram.header_bytes catp.Crypto.tag_of catp.Wire.Record.header_word
    catp.Crypto.epoch_key catp.Wire.Datagram.auth_header catp.Crypto.epoch_info
series_sealed = refl

abilities_encoded : Control.encode (capability abilities) ≡ ok (1 ∷ 2 ∷ 1 ∷ 4 ∷ 1 ∷ 1 ∷ 1 ∷ [])
unfolding Control.encode
abilities_encoded = refl

ability_built :
    control
      (msg_type (capability abilities))
      hmac_sha256_t64
      7
      21
      100
      (1 ∷ 2 ∷ 1 ∷ 4 ∷ 1 ∷ 1 ∷ 1 ∷ [])
    ≡ ok ability_sent
unfolding control catp.Wire.Datagram.base catp.Registry.is_control
ability_built = refl

ability_sealed : encode toy ability_sent peer.secret 21 node_to_collector 512 ≡ ok ability_wire
unfolding encode CipherId.from_u8 catp.Wire.Datagram.encode_into catp.Wire.Datagram.payload_len
    catp.Wire.Datagram.payload_into catp.Wire.Record.write_into catp.Crypto.mac_parts
    catp.Wire.Datagram.header_bytes catp.Crypto.tag_of catp.Wire.Record.header_word
    catp.Crypto.epoch_key catp.Wire.Datagram.auth_header catp.Crypto.epoch_info
ability_sealed = refl

fresh : (check_and_set 64 (Replay.new 64) 100).0 ≡ ok tt
unfolding check_and_set Replay.new
fresh = refl

decode-encode-series_example :
    ((decode toy 64 series_wire peer 22 node_to_collector (Replay.new 64)).0
      ≡ ok (whole 21 series_sent))
    × (series_values series_sent ≡ some (2, (100, pos 5) ∷ (200, negsuc 3) ∷ []))
decode-encode-series_example =
    decode-encode-series toy 64 peer 22 21 node_to_collector (Replay.new 64) 512 series_wire 2 100
      (pos 5) ((200, negsuc 3) ∷ []) series_sent (omega arith) (inr refl)
      (omega arith, (omega arith, tt)) series_built series_sealed fresh

decode-encode-control_example :
    ((decode toy 64 ability_wire peer 22 node_to_collector (Replay.new 64)).0
      ≡ ok (whole 21 ability_sent))
    × (Control.parse (msg_type (capability abilities)) ability_sent.raw ≡ ok (capability abilities))
decode-encode-control_example =
    decode-encode-control toy 64 peer 22 21 node_to_collector (Replay.new 64) 512 ability_wire
      (capability abilities) 100 (1 ∷ 2 ∷ 1 ∷ 4 ∷ 1 ∷ 1 ∷ 1 ∷ []) ability_sent (omega arith)
      (inr refl) tt refl abilities_encoded ability_built ability_sealed fresh

-- A receiver that knows the layouts of both records.
abbrev knowing : PeerConfig
knowing = record peer { layouts = (1, 1) ∷ (2, 3) ∷ [] }

knowing-IsFrom : IsFrom knowing 22 21 message sent
knowing-IsFrom = record {
  header = sent-IsHeader;
  version_eq = refl;
  kind_eq = refl;
  not_time = refl;
  sender = refl;
  suite = refl;
  low = refl;
  near = inr refl;
}

sealed : encode toy sent peer.secret 21 node_to_collector 512 ≡ ok wire
unfolding encode CipherId.from_u8 catp.Wire.Datagram.encode_into catp.Wire.Datagram.payload_len
    catp.Wire.Datagram.payload_into catp.Wire.Record.write_into catp.Crypto.mac_parts
    catp.Wire.Datagram.header_bytes catp.Crypto.tag_of catp.Wire.Record.header_word
    catp.Crypto.epoch_key catp.Wire.Datagram.auth_header catp.Crypto.epoch_info
sealed = refl

all_known : (decode toy 64 wire knowing 22 node_to_collector (Replay.new 64)).0 ≡ ok (whole 21 sent)
unfolding check_and_set skip_unknown Replay.new catp.Wire.Decode.partition catp.Wire.Decode.holds
all_known =
    ap (λ x. x.0)
      (decode-encode toy 64 knowing 22 21 message sent node_to_collector (Replay.new 64) 512 wire
        knowing-IsFrom sent-Framed sealed)

encode-decode_example : encode toy sent peer.secret 21 node_to_collector 26 ≡ ok wire
encode-decode_example =
    encode-decode toy 64 wire knowing 22 node_to_collector (Replay.new 64) (whole 21 sent) 26
      (are_bytes wire refl) all_known refl (omega arith)
