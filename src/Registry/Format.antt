-- ===== src/Registry/Format.antt =====
-- src/lib.rs, `enum Format`.
use catp.Base.{ℕ, Option, ◌==◌, if◌then◌else◌}

pub data Format : Type 0 where
  none cbor msg_pack protobuf flat_buffers capn_proto : Format

abbrev pub to_u8 : Format → ℕ
to_u8 Format.none = 0x01
to_u8 cbor = 0x02
to_u8 msg_pack = 0x03
to_u8 protobuf = 0x04
to_u8 flat_buffers = 0x05
to_u8 capn_proto = 0x06

unfoldable pub from_u8 : ℕ → Option Format
from_u8 v =
    if v == 0x01
    then Option.some Format.none
    else if v == 0x02
    then Option.some cbor
    else if v == 0x03
    then Option.some msg_pack
    else if v == 0x04
    then Option.some protobuf
    else if v == 0x05
    then Option.some flat_buffers
    else if v == 0x06
    then Option.some capn_proto
    else Option.none
