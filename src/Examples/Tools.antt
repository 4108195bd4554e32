-- ===== src/Examples/Tools.antt =====
-- The theorems on bundles and on the tools, each at one input.
use catp.Base.{◌≡◌, refl, ◌≢◌, arith, ◌∷◌, [], ◌++◌, List, replicate, inr, some, none}
use catp.Base.Text.{Text, text_of}
use catp.Base.Words.{Bytes}
use catp.Errors.{cipher_unimplemented, ok, ◌>>=◌, ok_or}
use catp.PeerState
use catp.Payload.{validate_number, validate_series}
use catp.Provisioning.{Bundle, to_text, into_peer_config}
use catp.Provisioning.Config.{config_of, into_peer_config-new}
use catp.Provisioning.Parse.{done, parse}
use catp.Provisioning.RoundTrip.{IsBundle, parse-to_text}
use catp.Provisioning.Values.{parse-IsBundle}
use catp.Registry.{node_to_collector}
use catp.Registry.CipherId
use catp.Registry.CipherId.{hmac_sha256_t64}
use catp.Registry.MsgType.{message}
use catp.Tools.Json.{object, out_of_fuel, parse_members, parse_object}
use catp.Tools.Json.Total.{parse_members-total}
use catp.Tools.Vectors.{
  object_text, number_fields, series_fields, authentic_with_payload, accept_cross,
}
use catp.Tools.Vectors.Line.{
  Value, quoted, bare, encoded_fields, insert_fields, parse_object-object_text,
}
use catp.Tools.Vectors.Wire.{authentic_with_payload-encode}
use catp.Tools.Verdict.{Messages, is_ok}
use catp.Tools.Verdict.Accept.{vector_peer, verdict-accept_cross}
use catp.Tools.Verdict.Payloads.{verdict_text, verdict-payload_vectors}
use catp.Tools.Verdict.Run.{verdict}
use catp.Wire.Datagram.{encode}
use catp.Wire.Datagram.Payload.{payload_bytes}
use catp.Wire.Decode.Accepts.{IsFrom}
use catp.Examples.{are_bytes, toy, peer, sent, wire}
use catp.Examples.Send.{sent-IsHeader, sent-Framed}

abbrev bundle : Bundle
bundle = record {
  sender_id = 0x12345678;
  device_secret = replicate 32 0xab;
  cipher_id = 4;
  layouts = (1, 1) ∷ (2, 3) ∷ [];
}

bundle-IsBundle : IsBundle bundle
bundle-IsBundle = record {
  sender_id_lt = omega arith;
  secret_bytes = are_bytes (replicate 32 0xab) refl;
  secret_length = refl;
  cipher_id_lt = omega arith;
  layout_bytes = ((omega arith, omega arith), ((omega arith, omega arith), tt));
}

parse-to_text_example : parse (to_text bundle) ≡ done bundle
parse-to_text_example = parse-to_text bundle bundle-IsBundle

parse-IsBundle_example : IsBundle bundle
parse-IsBundle_example = parse-IsBundle (to_text bundle) (parse-to_text bundle bundle-IsBundle)

abbrev extra : Text
extra = text_of "cipher_id 1"

into_peer_config-new_example : into_peer_config bundle none ≡ (
    ok_or (CipherId.from_u8 4) (cipher_unimplemented 4) >>= λ cipher.
    PeerState.new (config_of bundle cipher none) >>= λ made. ok made.config)
into_peer_config-new_example = into_peer_config-new bundle none

parse_members-total_example :
    (parse_members 20 [] (text_of ", \"a\": 1 }") ≡ parse_members 30 [] (text_of ", \"a\": 1 }"))
    × (parse_members 20 [] (text_of ", \"a\": 1 }") ≢ out_of_fuel)
parse_members-total_example =
    parse_members-total 20 30 [] (text_of ", \"a\": 1 }") (omega arith) (omega arith)

abbrev values : List (Text × Value)
values = (text_of "a\"b", quoted (text_of "c\\d")) ∷ (text_of "n", bare (text_of "12")) ∷ []

number_ne : ◌≢◌ {A = Text} (text_of "12") []
number_ne h = cc

parse_object-object_text_example :
    parse_object (object_text (encoded_fields values)) ≡ object (insert_fields [] values) []
parse_object-object_text_example = parse_object-object_text values (tt, ((number_ne, refl), tt))

abbrev messages : Messages
messages = record { debug = λ e. []; debug_str = λ s. s; parse_int = λ s. s }

abbrev payload : Bytes
payload = 2 ∷ 9 ∷ 46 ∷ []

verdict-payload_vectors_example :
    (verdict messages toy (object_text (number_fields payload (text_of "accept")))
      ≡ some (verdict_text (is_ok (validate_number payload)) (text_of "accept")))
    × (verdict messages toy (object_text (series_fields payload 4096 (text_of "accept")))
        ≡ some (verdict_text (is_ok (validate_series payload 4096)) (text_of "accept")))
verdict-payload_vectors_example =
    verdict-payload_vectors messages toy payload 4096 (text_of "accept") (are_bytes payload refl)
      (omega arith)

sealed_wide : encode toy sent peer.secret 21 node_to_collector 65535 ≡ ok wire
unfolding encode CipherId.from_u8 catp.Wire.Datagram.encode_into catp.Wire.Datagram.payload_len
    catp.Wire.Datagram.payload_into catp.Wire.Record.write_into catp.Crypto.mac_parts
    catp.Wire.Datagram.header_bytes catp.Crypto.tag_of catp.Wire.Record.header_word
    catp.Crypto.epoch_key catp.Wire.Datagram.auth_header catp.Crypto.epoch_info
sealed_wide = refl

authentic_with_payload-encode_example :
    authentic_with_payload toy peer.secret sent 21 node_to_collector (payload_bytes sent)
    ≡ some wire
unfolding CipherId.from_u8
authentic_with_payload-encode_example =
    authentic_with_payload-encode toy hmac_sha256_t64 sent peer.secret 21 node_to_collector 65535
      wire sent-IsHeader refl ((omega arith, omega arith), ((omega arith, omega arith), tt))
      sealed_wide

sent-IsFrom_vector : IsFrom (vector_peer 7 peer.secret hmac_sha256_t64) 22 21 message sent
sent-IsFrom_vector = record {
  header = sent-IsHeader;
  version_eq = refl;
  kind_eq = refl;
  not_time = refl;
  sender = refl;
  suite = refl;
  low = refl;
  near = inr refl;
}

verdict-accept_cross_example :
    (line : Text) × (accept_cross toy []
        (text_of "old epoch")
        peer.secret
        21
        22
        node_to_collector
        sent
      ≡ some ([] ++ (line ∷ [])))
    × (verdict messages toy line ≡ some (text_of "PASS"))
verdict-accept_cross_example =
    verdict-accept_cross messages toy [] (text_of "old epoch") peer.secret 21 22 node_to_collector
      message hmac_sha256_t64 sent wire (are_bytes (replicate 32 1) refl) refl (omega arith)
      (omega arith) sent-IsFrom_vector sent-Framed (omega arith, (omega arith, tt)) sealed_wide
      (are_bytes wire refl)
