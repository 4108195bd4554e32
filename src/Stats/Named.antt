-- ===== src/Stats/Named.antt =====
-- What each counter of `Stats` is documented to count, and what `record_result` adds to it.
use catp.Base.{
  ℕ, ◌+◌, ◌^◌, ◌<◌, ◌≤◌, ◌≡◌, arith, Bool, true, false, List, [], ◌∷◌, if◌then◌else◌, length,
}
use catp.Errors.{
  too_short, unsupported_version, bad_msg_type, unknown_sender, cipher_mismatch,
  epoch_out_of_window, auth_failed, replay, framing, bad_number, bad_series, body_too_large,
  rate_limited, Result, ok, err,
}
use catp.Stats.{Stats, record_error, record_result}
use catp.Stats.Count.{calls}
use catp.Wire.Decode.{Accepted}

-- The counters, by what they are for; steps are those of a receiver.
pub data Counter : Type 0 where
  handed_back : Counter
  step1_length step2_version step3_type step4_sender step5_suite step6_epoch : Counter
  step7_tag step8_offset step9_payload : Counter
  over_budget : Counter

unfoldable pub value : Counter → Stats → ℕ
value handed_back s = s.accepted
value step1_length s = s.too_short
value step2_version s = s.unsupported_version
value step3_type s = s.bad_msg_type
value step4_sender s = s.unknown_sender
value step5_suite s = s.cipher_mismatch
value step6_epoch s = s.epoch_out_of_window
value step7_tag s = s.auth_failed
value step8_offset s = s.replay
value step9_payload s = s.framing
value over_budget s = s.rate_limited

-- Whether a result is one that the counter is for.
unfoldable pub is_for : Counter → Result Accepted → Bool
is_for handed_back (ok acc) = true
is_for step1_length (err too_short) = true
is_for step2_version (err (unsupported_version v)) = true
is_for step3_type (err (bad_msg_type t)) = true
is_for step4_sender (err (unknown_sender i)) = true
is_for step5_suite (err (cipher_mismatch got want)) = true
is_for step6_epoch (err epoch_out_of_window) = true
is_for step7_tag (err auth_failed) = true
is_for step8_offset (err replay) = true
is_for step9_payload (err (framing m)) = true
is_for step9_payload (err (bad_number m)) = true
is_for step9_payload (err (bad_series m)) = true
is_for step9_payload (err (body_too_large n)) = true
is_for over_budget (err rate_limited) = true
is_for _ _ = false

-- How many of the results that is.
unfoldable pub tally : Counter → List (Result Accepted) → ℕ
tally k [] = 0
tally k (r ∷ rs) = (if is_for k r then 1 else 0) + tally k rs

-- The records set apart in all accepted datagrams.
abbrev pub set_apart : Result Accepted → ℕ
set_apart (ok acc) = length acc.skipped
set_apart (err e) = 0

unfoldable pub set_apart_all : List (Result Accepted) → ℕ
set_apart_all [] = 0
set_apart_all (r ∷ rs) = set_apart r + set_apart_all rs

pub value-calls : (k : Counter) (s : Stats) → value k s ≤ calls s
unfolding value
value-calls handed_back s = omega arith
value-calls step1_length s = omega arith
value-calls step2_version s = omega arith
value-calls step3_type s = omega arith
value-calls step4_sender s = omega arith
value-calls step5_suite s = omega arith
value-calls step6_epoch s = omega arith
value-calls step7_tag s = omega arith
value-calls step8_offset s = omega arith
value-calls step9_payload s = omega arith
value-calls over_budget s = omega arith

pub value-record_result :
    (k : Counter) (s : Stats) (r : Result Accepted)
    → value k s + 1 < 2 ^ 64
    → value k (record_result s r) ≡ value k s + (if is_for k r then 1 else 0)
unfolding value record_result record_error is_for
value-record_result handed_back s r h = ground arith
value-record_result step1_length s r h = ground arith
value-record_result step2_version s r h = ground arith
value-record_result step3_type s r h = ground arith
value-record_result step4_sender s r h = ground arith
value-record_result step5_suite s r h = ground arith
value-record_result step6_epoch s r h = ground arith
value-record_result step7_tag s r h = ground arith
value-record_result step8_offset s r h = ground arith
value-record_result step9_payload s r h = ground arith
value-record_result over_budget s r h = ground arith
