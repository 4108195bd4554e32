-- ===== src/Examples/Send.antt =====
-- The datagram `sent` and the bytes `wire` belong together.
use catp.Base.{◌≡◌, refl, arith, ◌∷◌, [], inr}
use catp.Errors.{ok}
use catp.Registry.{node_to_collector}
use catp.Registry.CipherId
use catp.Registry.MsgType.{message}
use catp.Replay
use catp.Replay.{check_and_set}
use catp.Wire.Record.RoundTrip.{IsWellFormed}
use catp.Wire.Datagram.{record_datagram, encode}
use catp.Wire.Datagram.Header.{IsHeader}
use catp.Wire.Decode.Accepts.{IsFrom}
use catp.Wire.Decode.RoundTrip.{Framed}
use catp.PeerState.{new}
use catp.Examples.{toy, peer, reading, stranger, sent, wire, receiver}

pub built :
    record_datagram message peer.cipher peer.sender_id 21 100 (reading ∷ stranger ∷ []) ≡ ok sent
unfolding record_datagram catp.Wire.Datagram.base
built = refl

pub sealed : encode toy sent peer.secret 21 node_to_collector 512 ≡ ok wire
unfolding encode CipherId.from_u8 catp.Wire.Datagram.encode_into catp.Wire.Datagram.payload_len
    catp.Wire.Datagram.payload_into catp.Wire.Record.write_into catp.Crypto.mac_parts
    catp.Wire.Datagram.header_bytes catp.Crypto.tag_of catp.Wire.Record.header_word
    catp.Crypto.epoch_key catp.Wire.Datagram.auth_header catp.Crypto.epoch_info
sealed = refl

pub fresh : (check_and_set 64 (Replay.new 64) 100).0 ≡ ok tt
unfolding check_and_set Replay.new
fresh = refl

pub made : new peer ≡ ok receiver
unfolding new
made = refl

pub reading-IsWellFormed : IsWellFormed reading
reading-IsWellFormed = record {
  format_pos = omega arith;
  format_lt = omega arith;
  schema_pos = omega arith;
  schema_lt = omega arith;
  body_pos = omega arith;
  body_le = omega arith;
  body_bytes = (omega arith, (omega arith, tt));
}

pub stranger-IsWellFormed : IsWellFormed stranger
stranger-IsWellFormed = record {
  format_pos = omega arith;
  format_lt = omega arith;
  schema_pos = omega arith;
  schema_lt = omega arith;
  body_pos = omega arith;
  body_le = omega arith;
  body_bytes = (omega arith, tt);
}

pub sent-IsHeader : IsHeader sent
sent-IsHeader = record {
  version_lt = omega arith;
  msg_type_lt = omega arith;
  cipher_lt = omega arith;
  epoch_lt = omega arith;
  reserved_lt = omega arith;
  offset_lt = omega arith;
  sender_lt = omega arith;
}

pub sent-IsFrom : IsFrom peer 22 21 message sent
sent-IsFrom = record {
  header = sent-IsHeader;
  version_eq = refl;
  kind_eq = refl;
  not_time = refl;
  sender = refl;
  suite = refl;
  low = refl;
  near = inr refl;
}

pub sent-Framed : Framed message sent
sent-Framed = record {
  framed = refl;
  some_records = refl;
  well_formed = (reading-IsWellFormed, (stranger-IsWellFormed, tt));
  single = refl;
  no_raw = refl;
}
