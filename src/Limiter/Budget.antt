-- ===== src/Limiter/Budget.antt =====
-- What the token bucket lets through.
use catp.Base.{
  ℕ, zero, suc, ◌+◌, ◌-◌, ◌*◌, ◌^◌, ◌≤◌, ◌<◌, max, ◌≡◌, ap, arith, Bool, true, List, [], ◌∷◌,
  if◌then◌else◌,
}
use catp.Base.Words.{saturate_u64}
use native.Mathlib.Decide.{dec_lt}
use catp.Limiter.{RateLimit, InboundLimiter, new, refilled, try_acquire}

-- The tokens that calls at the given times take, and the limiter after them.
unfoldable pub acquire_all : InboundLimiter → List ℕ → ℕ × InboundLimiter
acquire_all l [] = (0, l)
acquire_all l (t ∷ ts) =
    let (won, l') = try_acquire l t in
    let (n, l'') = acquire_all l' ts in ((if won then n + 1 else n), l'')

-- The times never step back, and begin at `t` at the earliest.
abbrev pub TimesFrom : ℕ → List ℕ → Type 0
TimesFrom t [] = Unit
TimesFrom t (u ∷ us) = (t ≤ u) × TimesFrom u us

-- A bucket holds at most its capacity, which is at least one token.
pub record IsValid (l : InboundLimiter) : Type 0 where
  pub within : l.tokens_micro ≤ l.capacity_micro
  pub room : 1_000_000 ≤ l.capacity_micro

pub new-IsValid : (limit : RateLimit) → IsValid (new limit)
unfolding new
new-IsValid limit = omega arith

-- Every call keeps the bucket valid.
pub try_acquire-IsValid : (l : InboundLimiter) (t : ℕ) → IsValid l → IsValid (try_acquire l t).1
unfolding try_acquire refilled
try_acquire-IsValid l t v = ground arith

saturate_u64-le : (n : ℕ) → saturate_u64 n ≤ n
unfolding saturate_u64
saturate_u64-le n = ground arith

saturate_mul-le : (a b : ℕ) → saturate_u64 (saturate_u64 a * b) ≤ a * b
saturate_mul-le a b = grind (arith, saturate_u64-le)

-- One call spends no more than the bucket held and the time elapsed gives.
spent_step :
    (l : InboundLimiter) (t : ℕ)
    → let (won, l') = try_acquire l t in
      ((if won then 1_000_000 else 0) + l'.tokens_micro
        ≤ l.tokens_micro + l.per_sec * 1000 * (t - l.last_ms))
      × (l'.last_ms ≡ t)
      × (l'.per_sec ≡ l.per_sec)
unfolding try_acquire refilled
spent_step l t =
    let refill = saturate_u64 (saturate_u64 (l.per_sec * 1000) * (t - l.last_ms)) in
    ground (
      arith,
      saturate_mul-le (l.per_sec * 1000) (t - l.last_ms),
      saturate_u64-le (l.tokens_micro + refill),
    )

-- The sum of one call's bound and of the bound for the calls behind it.
spent_total :
    (won : Bool) (n r a b c tokens tokens' left : ℕ)
    → (if won then 1_000_000 else 0) + tokens' ≤ tokens + r * (b - a)
    → n * 1_000_000 + left ≤ tokens' + r * (c - b)
    → a ≤ b
    → b ≤ c
    → (if won then n + 1 else n) * 1_000_000 + left ≤ tokens + r * (c - a)
spent_total won n r a b c tokens tokens' left h k ab bc =
    let whole : b - a + (c - b) ≡ c - a = omega arith in
    let product : r * (b - a) + r * (c - b) ≡ r * (c - a) =
      omega (arith, ap (λ (x : ℕ). r * x) whole) in
    ground arith

acquire_all-spent :
    (ts : List ℕ) (l : InboundLimiter)
    → TimesFrom l.last_ms ts
    → let (n, l') = acquire_all l ts in
      (n * 1_000_000 + l'.tokens_micro
        ≤ l.tokens_micro + l.per_sec * 1000 * (l'.last_ms - l.last_ms))
      × (l.last_ms ≤ l'.last_ms)
unfolding acquire_all
acquire_all-spent [] l h = (omega arith, omega arith)
acquire_all-spent (t ∷ ts) l (le, h) =
    let l' = (try_acquire l t).1 in
    let (spent, at, rate) = spent_step l t in
    let (rest, later) = acquire_all-spent ts l' (rw at h) in
    (
      spent_total (try_acquire l t).0 (acquire_all l' ts).0 (l.per_sec * 1000) l.last_ms t
          (acquire_all l' ts).1.last_ms l.tokens_micro l'.tokens_micro _ spent
          (rw (at, rate) at rest) le (rw at at later),
      omega arith,
    )

-- For a limit and times that never step back: the datagrams that a new bucket lets through are at
-- most the burst (one, if that is 0) and the rate's share of the time from 0 to the last call.
pub acquire_all-le :
    (limit : RateLimit) (ts : List ℕ)
    → TimesFrom 0 ts
    → let (n, l) = acquire_all (new limit) ts in
      n * 1000 ≤ max limit.burst 1 * 1000 + limit.per_sec * l.last_ms
unfolding new
acquire_all-le limit ts h =
    let (n, l) = acquire_all (new limit) ts in
    let spent : n * 1_000_000 + l.tokens_micro
        ≤ max limit.burst 1 * 1_000_000 + limit.per_sec * 1000 * (l.last_ms - 0) =
      (acquire_all-spent ts (new limit) h).0 in
    let span : l.last_ms - 0 ≡ l.last_ms = omega arith in
    omega (arith, ap (λ (x : ℕ). limit.per_sec * x) span)

saturate_u64-ge : (m n : ℕ) → m ≤ n → m < 2 ^ 64 → m ≤ saturate_u64 n
unfolding saturate_u64
saturate_u64-ge m n h k = ground arith

refill_ge : (p e : ℕ) → 1000 ≤ p * e → 1_000_000 ≤ saturate_u64 (saturate_u64 (p * 1000) * e)
refill_ge p zero h = absurd (omega arith)
refill_ge p (suc e) h = elim (dec_lt (p * 1000) (2 ^ 64)) [
  | yes small ↦
      let exact : saturate_u64 (p * 1000) ≡ p * 1000 = unfold saturate_u64 in ground arith in
      rw exact (saturate_u64-ge 1_000_000 (p * 1000 * suc e) (omega arith) (omega arith))
  | no large ↦
      let top : saturate_u64 (p * 1000) ≡ 2 ^ 64 - 1 = unfold saturate_u64 in ground arith in
      rw top (saturate_u64-ge 1_000_000 ((2 ^ 64 - 1) * suc e) (omega arith) (omega arith))
]

-- For a valid bucket whose rate gives a whole token in the time since the last call: the call lets
-- the datagram through.
pub try_acquire_quiet :
    (l : InboundLimiter) (t : ℕ)
    → IsValid l
    → 1000 ≤ l.per_sec * (t - l.last_ms)
    → (try_acquire l t).0 ≡ true
unfolding try_acquire refilled
try_acquire_quiet l t v quiet =
    let refill = saturate_u64 (saturate_u64 (l.per_sec * 1000) * (t - l.last_ms)) in
    ground (
      arith,
      refill_ge l.per_sec (t - l.last_ms) quiet,
      saturate_u64-ge 1_000_000 (l.tokens_micro + refill),
    )
