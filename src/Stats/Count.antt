-- ===== src/Stats/Count.antt =====
-- The sum of the counters, and which errors have a counter.
use catp.Base.{ℕ, ◌+◌, ◌^◌, ◌<◌, ◌≡◌, arith, Bool, true, false, if◌then◌else◌}
use catp.Errors.{
  Error, too_short, unsupported_version, bad_msg_type, unknown_sender, cipher_mismatch,
  epoch_out_of_window, auth_failed, replay, framing, bad_number, bad_series, body_too_large,
  rate_limited, oversize, cipher_unimplemented, offset_reuse, epoch_rollback, time_rollback,
  clock_already_valid, no_clock, cipher_requires_rate_limit, buffer_too_small, Result, ok, err,
}
use catp.Wire.Decode.{Accepted}
use catp.Stats.{Stats, record_error, record_result}

-- The calls that the counters know of, skipped records aside.
abbrev pub calls : Stats → ℕ
calls s =
    s.accepted + s.too_short + s.unsupported_version + s.bad_msg_type + s.unknown_sender
    + s.cipher_mismatch + s.epoch_out_of_window + s.auth_failed + s.replay + s.framing
    + s.rate_limited

-- The errors that have a counter.
unfoldable pub has_counter : Error → Bool
has_counter too_short = true
has_counter (unsupported_version v) = true
has_counter (bad_msg_type t) = true
has_counter (unknown_sender i) = true
has_counter (cipher_mismatch got want) = true
has_counter epoch_out_of_window = true
has_counter auth_failed = true
has_counter replay = true
has_counter (framing m) = true
has_counter (bad_number m) = true
has_counter (bad_series m) = true
has_counter (body_too_large n) = true
has_counter rate_limited = true
has_counter _ = false

abbrev pub counted : Result Accepted → ℕ
counted (ok acc) = 1
counted (err e) = if has_counter e then 1 else 0

-- As long as the counters have not reached 2^64: recording a result adds one call if it is a success
-- or an error that has a counter, and none if not.
pub calls-record_result :
    (s : Stats) (r : Result Accepted)
    → calls s + 1 < 2 ^ 64
    → calls (record_result s r) ≡ calls s + counted r
unfolding record_result record_error has_counter
calls-record_result s (ok acc) h = omega arith
calls-record_result s (err too_short) h = omega arith
calls-record_result s (err (unsupported_version v)) h = omega arith
calls-record_result s (err (bad_msg_type t)) h = omega arith
calls-record_result s (err (unknown_sender i)) h = omega arith
calls-record_result s (err (cipher_mismatch got want)) h = omega arith
calls-record_result s (err epoch_out_of_window) h = omega arith
calls-record_result s (err auth_failed) h = omega arith
calls-record_result s (err replay) h = omega arith
calls-record_result s (err (framing m)) h = omega arith
calls-record_result s (err (bad_number m)) h = omega arith
calls-record_result s (err (bad_series m)) h = omega arith
calls-record_result s (err (body_too_large n)) h = omega arith
calls-record_result s (err rate_limited) h = omega arith
calls-record_result s (err (cipher_unimplemented n)) h = omega arith
calls-record_result s (err (oversize n)) h = omega arith
calls-record_result s (err (offset_reuse n)) h = omega arith
calls-record_result s (err (epoch_rollback got hi)) h = omega arith
calls-record_result s (err (time_rollback asserted floor)) h = omega arith
calls-record_result s (err clock_already_valid) h = omega arith
calls-record_result s (err no_clock) h = omega arith
calls-record_result s (err (cipher_requires_rate_limit c)) h = omega arith
calls-record_result s (err (buffer_too_small have need)) h = omega arith
