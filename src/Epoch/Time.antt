-- ===== src/Epoch/Time.antt =====
-- The epoch and the offset of an instant, as the count of ticks since 1970.
use catp.Base.{ℕ, ◌+◌, ◌*◌, ◌/◌, ◌^◌, ◌<◌, ◌≡◌, arith}
use catp.Registry.{ticks_per_epoch}
use catp.Epoch.{epoch_id_at, epoch_offset_at}

-- For an instant whose seconds are below 2^39 and whose nanoseconds are below 10^9: the epoch and
-- the offset are the quotient and the remainder, by the ticks of an epoch, of the whole ticks of
-- 1/4096 s since 1970, and the offset has at most 19 bits.
pub epoch_ticks :
    (secs nanos : ℕ)
    → secs < 2 ^ 39
    → nanos < 1_000_000_000
    → (epoch_id_at secs * ticks_per_epoch + epoch_offset_at secs nanos
        ≡ (secs * 1_000_000_000 + nanos) * 4096 / 1_000_000_000)
      × (epoch_offset_at secs nanos < ticks_per_epoch)
unfolding epoch_id_at epoch_offset_at
epoch_ticks secs nanos hs hn = omega arith

-- Whatever the two arguments, the offset is below the ticks of an epoch and the epoch is a u32.
pub epoch_offset_at-lt :
    (secs nanos : ℕ) → (epoch_offset_at secs nanos < 2 ^ 19) × (epoch_id_at secs < 2 ^ 32)
unfolding epoch_id_at epoch_offset_at
epoch_offset_at-lt secs nanos = omega arith
