-- ===== src/Epoch.antt =====
-- src/lib.rs, epoch math: `epoch_id_at`, `epoch_offset_at` and `reconstruct_epoch`.
pub mod Time
pub mod Reconstruct
use catp.Base.{
  ℕ, ◌+◌, ◌-◌, ◌*◌, ◌/◌, ◌%◌, ◌^◌, bit_and, ltb, ◌==◌, ◌&&◌, if◌then◌else◌, Option, none, some,
}
use catp.Base.Words.{as_u8, as_u32}
use catp.Registry.{epoch_secs, ticks_per_sec, ticks_per_epoch}

unfoldable pub epoch_id_at : ℕ → ℕ
epoch_id_at unix_secs = as_u32 (unix_secs / epoch_secs)

-- `nanos` is a u32, so none of the u64 operations can wrap.
unfoldable pub epoch_offset_at : ℕ → ℕ → ℕ
epoch_offset_at unix_secs nanos =
    let into_epoch = unix_secs % epoch_secs in
    let ticks = into_epoch * ticks_per_sec + nanos * ticks_per_sec / 1_000_000_000 in
    as_u32 (ticks % ticks_per_epoch)

unfoldable pub reconstruct_epoch : ℕ → ℕ → Option ℕ
reconstruct_epoch local_epoch epoch_low =
    let low = bit_and epoch_low 0x0f in
    if as_u8 (bit_and local_epoch 0x0f) == low
    then some local_epoch
    else if ltb 0 local_epoch && as_u8 (bit_and (local_epoch - 1) 0x0f) == low
    then some (local_epoch - 1)
    else none
