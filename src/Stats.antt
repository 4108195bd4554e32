-- ===== src/Stats.antt =====
-- src/peer.rs, `Stats`: the counters of what a receiver accepted and discarded. A counter is a u64;
-- its increment wraps as in a release build.
pub mod Count
pub mod Named
use catp.Base.{ℕ, List, length}
use catp.Base.Words.{add_u64}
use catp.Errors.{
  Error, too_short, unsupported_version, bad_msg_type, unknown_sender, cipher_mismatch,
  epoch_out_of_window, auth_failed, replay, framing, bad_number, bad_series, body_too_large,
  rate_limited, Result, ok, err,
}
use catp.Wire.Decode.{Accepted}

pub record Stats : Type 0 where
  pub accepted : ℕ
  pub too_short : ℕ
  pub unsupported_version : ℕ
  pub bad_msg_type : ℕ
  pub unknown_sender : ℕ
  pub cipher_mismatch : ℕ
  pub epoch_out_of_window : ℕ
  pub auth_failed : ℕ
  pub replay : ℕ
  pub framing : ℕ
  pub rate_limited : ℕ
  pub skipped_records : ℕ

-- `Stats::default()`
abbrev pub zeros : Stats
zeros = record {
  accepted = 0;
  too_short = 0;
  unsupported_version = 0;
  bad_msg_type = 0;
  unknown_sender = 0;
  cipher_mismatch = 0;
  epoch_out_of_window = 0;
  auth_failed = 0;
  replay = 0;
  framing = 0;
  rate_limited = 0;
  skipped_records = 0;
}

unfoldable pub record_error : Stats → Error → Stats
record_error s too_short = record s { too_short = add_u64 s.too_short 1 }
record_error s (unsupported_version v) = record s {
  unsupported_version = add_u64 s.unsupported_version 1;
}
record_error s (bad_msg_type t) = record s { bad_msg_type = add_u64 s.bad_msg_type 1 }
record_error s (unknown_sender i) = record s { unknown_sender = add_u64 s.unknown_sender 1 }
record_error s (cipher_mismatch got want) = record s {
  cipher_mismatch = add_u64 s.cipher_mismatch 1;
}
record_error s epoch_out_of_window = record s {
  epoch_out_of_window = add_u64 s.epoch_out_of_window 1;
}
record_error s auth_failed = record s { auth_failed = add_u64 s.auth_failed 1 }
record_error s replay = record s { replay = add_u64 s.replay 1 }
record_error s (framing m) = record s { framing = add_u64 s.framing 1 }
record_error s (bad_number m) = record s { framing = add_u64 s.framing 1 }
record_error s (bad_series m) = record s { framing = add_u64 s.framing 1 }
record_error s (body_too_large n) = record s { framing = add_u64 s.framing 1 }
record_error s rate_limited = record s { rate_limited = add_u64 s.rate_limited 1 }
record_error s _ = s

unfoldable pub record_result : Stats → Result Accepted → Stats
record_result s (ok acc) = record s {
  accepted = add_u64 s.accepted 1;
  skipped_records = add_u64 s.skipped_records (length acc.skipped);
}
record_result s (err e) = record_error s e

unfoldable pub merge : Stats → Stats → Stats
merge s other = record {
  accepted = add_u64 s.accepted other.accepted;
  too_short = add_u64 s.too_short other.too_short;
  unsupported_version = add_u64 s.unsupported_version other.unsupported_version;
  bad_msg_type = add_u64 s.bad_msg_type other.bad_msg_type;
  unknown_sender = add_u64 s.unknown_sender other.unknown_sender;
  cipher_mismatch = add_u64 s.cipher_mismatch other.cipher_mismatch;
  epoch_out_of_window = add_u64 s.epoch_out_of_window other.epoch_out_of_window;
  auth_failed = add_u64 s.auth_failed other.auth_failed;
  replay = add_u64 s.replay other.replay;
  framing = add_u64 s.framing other.framing;
  rate_limited = add_u64 s.rate_limited other.rate_limited;
  skipped_records = add_u64 s.skipped_records other.skipped_records;
}
