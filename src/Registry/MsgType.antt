-- ===== src/Registry/MsgType.antt =====
-- src/lib.rs, `enum MsgType`.
use catp.Base.{ℕ, Bool, true, false, Option, none, some, ◌==◌, if◌then◌else◌}

pub data MsgType : Type 0 where
  message event alarm number series : MsgType
  epoch_announce time_announce time_request heartbeat capability_advertise : MsgType

-- `mt as u8`
abbrev pub to_u8 : MsgType → ℕ
to_u8 message = 0x01
to_u8 event = 0x02
to_u8 alarm = 0x03
to_u8 number = 0x04
to_u8 series = 0x05
to_u8 epoch_announce = 0x10
to_u8 time_announce = 0x11
to_u8 time_request = 0x12
to_u8 heartbeat = 0x13
to_u8 capability_advertise = 0x14

abbrev pub is_record_framed : MsgType → Bool
is_record_framed message = true
is_record_framed event = true
is_record_framed alarm = true
is_record_framed _ = false

unfoldable pub from_u8 : ℕ → Option MsgType
from_u8 v =
    if v == 0x01
    then some message
    else if v == 0x02
    then some event
    else if v == 0x03
    then some alarm
    else if v == 0x04
    then some number
    else if v == 0x05
    then some series
    else if v == 0x10
    then some epoch_announce
    else if v == 0x11
    then some time_announce
    else if v == 0x12
    then some time_request
    else if v == 0x13
    then some heartbeat
    else if v == 0x14
    then some capability_advertise
    else none

-- `matches!(mt, MsgType::Event | MsgType::Alarm)`
abbrev pub is_single : MsgType → Bool
is_single event = true
is_single alarm = true
is_single _ = false

-- `matches!(mt, MsgType::TimeAnnounce | MsgType::TimeRequest)`
abbrev pub is_time : MsgType → Bool
is_time time_announce = true
is_time time_request = true
is_time _ = false
