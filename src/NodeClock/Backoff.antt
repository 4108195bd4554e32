-- ===== src/NodeClock/Backoff.antt =====
-- The retry interval of a node that has no clock.
use catp.Base.{
  ℕ, suc, ◌+◌, ◌*◌, ◌^◌, ◌≤◌, ◌<◌, min, ◌≡◌, refl, ap, ◌∙◌, arith, List, [], ◌∷◌, length,
}
use catp.Base.Int.{ℤ, pos, ◌+ℤ◌}
use catp.Base.Words.{wrap_i64, i64_of_bits, i64_to_bits}
use catp.NodeClock.{NodeClock, clockless, double, record_time_request}
use native.Mathlib.Nat.{pow-suc}

-- Requests sent at the given instants.
unfoldable pub request_all : NodeClock → List ℤ → NodeClock
request_all c [] = c
request_all c (t ∷ ts) = request_all (record_time_request c t) ts

double-pos : (n : ℕ) → n < 2 ^ 62 → double (pos n) ≡ pos (n + n)
unfolding double wrap_i64 ◌+ℤ◌ i64_of_bits i64_to_bits
double-pos n h = ground arith

next-backoff :
    (c : NodeClock) (t : ℤ) (b : ℕ)
    → c.request_backoff ≡ pos b
    → b ≤ 3600
    → (record_time_request c t).request_backoff ≡ pos (min (b + b) 3600)
unfolding record_time_request
next-backoff c t b e le = rw (e, double-pos b (omega arith)) (ground arith)

request_all-backoff_from :
    (c : NodeClock) (ts : List ℤ) (p : ℕ)
    → c.request_backoff ≡ pos (min p 3600)
    → (request_all c ts).request_backoff ≡ pos (min (p * 2 ^ length ts) 3600)
unfolding request_all
request_all-backoff_from c [] p e = e ∙ ap pos (ap (λ q. min q 3600) (omega arith))
request_all-backoff_from c (t ∷ ts) p e =
    request_all-backoff_from (record_time_request c t) ts (p + p)
      (next-backoff c t (min p 3600) e (omega arith) ∙ ap pos (omega arith))
    ∙ ap pos (ap (λ q. min q 3600) (doubled p (length ts)))
  where
    doubled : (p n : ℕ) → (p + p) * 2 ^ n ≡ p * 2 ^ suc n
    doubled p n = grind (arith, pow-suc 2 n)

-- After n requests in a row, whenever they are sent, the interval of a node that booted without a
-- clock is 2^(n+1) seconds, but never above an hour.
pub request_all-backoff :
    (last_epoch : ℕ) (ts : List ℤ)
    → (request_all (clockless last_epoch) ts).request_backoff ≡ pos (min (2 * 2 ^ length ts) 3600)
request_all-backoff last_epoch ts = request_all-backoff_from (clockless last_epoch) ts 2 refl
