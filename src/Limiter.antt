-- ===== src/Limiter.antt =====
-- src/lib.rs, `RateLimit` and `InboundLimiter`: the token bucket.
pub mod Budget
use catp.Base.{ℕ, ◌+◌, ◌-◌, ◌*◌, ◌^◌, min, max, Bool, true, false, leb, if◌then◌else◌}
use catp.Base.Words.{saturate_u64}

pub record RateLimit : Type 0 where
  pub per_sec : ℕ
  pub burst : ℕ

abbrev pub recommended_default : RateLimit
recommended_default = record { per_sec = 128; burst = 128 }

pub record InboundLimiter : Type 0 where
  pub per_sec : ℕ
  pub capacity_micro : ℕ
  pub tokens_micro : ℕ
  pub last_ms : ℕ

-- `burst` is a u32, so the product does not wrap.
unfoldable pub new : RateLimit → InboundLimiter
new limit =
    let capacity_micro = max limit.burst 1 * 1_000_000 in
    record {
      per_sec = limit.per_sec;
      capacity_micro = capacity_micro;
      tokens_micro = capacity_micro;
      last_ms = 0;
    }

-- The two saturating products, and the saturating sum cut to the capacity.
unfoldable pub refilled : InboundLimiter → ℕ → ℕ
unfolding saturate_u64
refilled l now_ms =
    let elapsed_ms = now_ms - l.last_ms in
    let refill = saturate_u64 (saturate_u64 (l.per_sec * 1000) * elapsed_ms) in
    min (saturate_u64 (l.tokens_micro + refill)) l.capacity_micro

unfoldable pub try_acquire : InboundLimiter → ℕ → Bool × InboundLimiter
try_acquire l now_ms =
    let tokens = refilled l now_ms in
    if leb 1_000_000 tokens
    then (true, record l { tokens_micro = tokens - 1_000_000; last_ms = now_ms })
    else (false, record l { tokens_micro = tokens; last_ms = now_ms })
