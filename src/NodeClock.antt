-- ===== src/NodeClock.antt =====
-- src/peer.rs, `NodeClock`: a node's clock and its cold start. Arithmetic on i64 wraps as in a
-- release build where the source does not say `saturating`.
pub mod Backoff
pub mod Announce
use catp.Base.{
  ℕ, ◌+◌, ◌-◌, ◌*◌, ◌/◌, ◌%◌, ◌^◌, Bool, true, false, not, ◌&&◌, zero, suc, if◌then◌else◌,
}
use catp.Base.Int.{ℤ, pos, negsuc, ◌+ℤ◌, ◌-ℤ◌, leb_ℤ}
use catp.Base.Words.{wrap_i64, saturate_i64, i64_as_u32}
use catp.Errors.{Error, clock_already_valid, time_rollback, no_clock, Result, ok, err}
use catp.Registry.{epoch_secs}

pub record NodeClock : Type 0 where
  pub valid : Bool
  pub last_epoch : ℕ
  pub correction : ℤ
  pub next_request_at : ℤ
  pub request_backoff : ℤ

abbrev pub time_request_base_secs : ℤ
time_request_base_secs = pos 2

abbrev pub time_request_max_secs : ℤ
time_request_max_secs = pos 3600

-- `i64::MIN`
abbrev pub i64_min : ℤ
i64_min = negsuc (2 ^ 63 - 1)

abbrev pub clockless : ℕ → NodeClock
clockless last_epoch = record {
  valid = false;
  last_epoch = last_epoch;
  correction = pos 0;
  next_request_at = i64_min;
  request_backoff = time_request_base_secs;
}

abbrev pub synced : ℕ → NodeClock
synced last_epoch = record {
  valid = true;
  last_epoch = last_epoch;
  correction = pos 0;
  next_request_at = i64_min;
  request_backoff = time_request_base_secs;
}

unfoldable pub may_request_time : NodeClock → ℤ → Bool
may_request_time c now_monotonic = not c.valid && leb_ℤ c.next_request_at now_monotonic

abbrev pub min_ℤ : ℤ → ℤ → ℤ
min_ℤ a b = if leb_ℤ a b then a else b

-- `v * 2`
unfoldable pub double : ℤ → ℤ
unfolding wrap_i64 ◌+ℤ◌
double v = wrap_i64 (v +ℤ v)

unfoldable pub record_time_request : NodeClock → ℤ → NodeClock
unfolding double ◌+ℤ◌ saturate_i64
record_time_request c now_monotonic = record c {
  next_request_at = saturate_i64 (now_monotonic +ℤ c.request_backoff);
  request_backoff = min_ℤ (double c.request_backoff) time_request_max_secs;
}

-- `v / EPOCH_SECS as i64`, which truncates toward zero.
unfoldable pub over_epoch : ℤ → ℤ
unfolding ◌-ℤ◌
over_epoch (pos n) = pos (n / epoch_secs)
over_epoch (negsuc n) = pos 0 -ℤ pos ((n + 1) / epoch_secs)

-- `last_epoch as i64 * EPOCH_SECS as i64`; both factors are below 2^32.
abbrev pub floor_of : NodeClock → ℤ
floor_of c = pos (c.last_epoch * epoch_secs)

unfoldable pub accept_time_announce : NodeClock → ℤ → ℤ → Result (Unit {0}) × NodeClock
unfolding over_epoch wrap_i64 i64_as_u32 ◌-ℤ◌
accept_time_announce c asserted raw_now =
    if c.valid
    then (err clock_already_valid, c)
    else if leb_ℤ asserted (floor_of c)
    then (err (time_rollback asserted (floor_of c)), c)
    else (
      ok tt,
      record c {
        correction = wrap_i64 (asserted -ℤ raw_now);
        last_epoch = i64_as_u32 (over_epoch asserted);
        valid = true;
        request_backoff = time_request_base_secs;
      },
    )

unfoldable pub now : NodeClock → ℤ → Result ℤ
unfolding wrap_i64 ◌+ℤ◌
now c raw_now = if not c.valid then err no_clock else ok (wrap_i64 (raw_now +ℤ c.correction))
