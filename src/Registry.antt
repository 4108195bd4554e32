-- ===== src/Registry.antt =====
-- src/lib.rs: the protocol's constants, and the registries of the modules below.
pub mod CipherId
pub mod MsgType
pub mod Format
pub mod Laws
use catp.Base.{ℕ, ◌*◌, ◌^◌, Bool, bit_and, ◌!=◌}

abbrev pub version : ℕ
version = 1

abbrev pub epoch_secs : ℕ
epoch_secs = 128

abbrev pub ticks_per_sec : ℕ
ticks_per_sec = 4096

-- `1 << 19`
abbrev pub ticks_per_epoch : ℕ
ticks_per_epoch = 2 ^ 19

abbrev pub max_body : ℕ
max_body = 4095

abbrev pub header_len : ℕ
header_len = 9

abbrev pub record_header_len : ℕ
record_header_len = 3

abbrev pub number_payload_len : ℕ
number_payload_len = 3

abbrev pub series_entry_len : ℕ
series_entry_len = 4

abbrev pub scale_min : ℕ
scale_min = 0x01

abbrev pub scale_max : ℕ
scale_max = 0x07

abbrev pub max_datagram_ipv4 : ℕ
max_datagram_ipv4 = 512

pub data Direction : Type 0 where
  node_to_collector collector_to_node : Direction

-- `dir as u8`
abbrev pub direction_byte : Direction → ℕ
direction_byte node_to_collector = 0x00
direction_byte collector_to_node = 0x01

unfoldable pub is_control : ℕ → Bool
is_control msg_type = bit_and msg_type 0x10 != 0

unfoldable pub is_vendor : ℕ → Bool
is_vendor msg_type = bit_and msg_type 0x08 != 0
