-- ===== src/NodeClock/Announce.antt =====
-- The cold start: what an announcement does to the clock.
use catp.Base.{
  ℕ, ◌^◌, ◌≤◌, ◌<◌, ◌≡◌, refl, ap, ◌∙◌, arith, true, false, List, [], ◌∷◌, ◌↔◌, ◌⊎◌, inl, inr, ltb,
  Bool-cases,
}
use catp.Base.Int.{ℤ, pos, negsuc, ◌+ℤ◌, ◌-ℤ◌, ◌<ℤ◌}
use catp.Base.Words.{wrap_i64, i64_of_bits, i64_to_bits, i64_as_u32, IsI64}
use catp.Epoch.{epoch_id_at, epoch_offset_at}
use catp.Errors.{ok}
use catp.NodeClock.{NodeClock, clockless, floor_of, over_epoch, accept_time_announce, now}

-- The clock shows the asserted time, whatever the platform clock shows.
wrap_sum : (a r : ℤ) → IsI64 a → IsI64 r → wrap_i64 (r +ℤ wrap_i64 (a -ℤ r)) ≡ a
unfolding wrap_i64 i64_of_bits i64_to_bits ◌+ℤ◌ ◌-ℤ◌
wrap_sum (pos a) (pos r) ha hr = ground arith
wrap_sum (pos a) (negsuc r) ha hr = ground arith
wrap_sum (negsuc a) (pos r) ha hr = ground arith
wrap_sum (negsuc a) (negsuc r) ha hr = ground arith

-- For i64 times: right after a node accepts an announcement, its clock shows the asserted time,
-- though the correction may have wrapped.
pub now-accept_time_announce :
    (c : NodeClock) (asserted raw_now : ℤ)
    → IsI64 asserted
    → IsI64 raw_now
    → (accept_time_announce c asserted raw_now).0 ≡ ok tt
    → now (accept_time_announce c asserted raw_now).1 raw_now ≡ ok asserted
unfolding accept_time_announce now
now-accept_time_announce c asserted raw_now ha hr h =
    ground (arith, wrap_sum asserted raw_now ha hr)

-- An announcement of a time below 2^39 seconds, accepted or not, does not lower the last epoch.
pub accept_time_announce-floor :
    (c : NodeClock) (asserted raw_now : ℤ)
    → asserted <ℤ pos (2 ^ 39)
    → c.last_epoch ≤ (accept_time_announce c asserted raw_now).1.last_epoch
unfolding accept_time_announce over_epoch i64_as_u32 i64_to_bits ◌-ℤ◌
accept_time_announce-floor c (pos n) raw_now h = ground arith
accept_time_announce-floor c (negsuc n) raw_now h = ground arith

-- A time in a later epoch than `epoch`, or in that epoch behind its first second.
abbrev pub IsPast : ℕ → ℤ → Type 0
IsPast epoch (pos n) =
    (epoch < epoch_id_at n) ⊎ ((epoch ≡ epoch_id_at n) × (0 < epoch_offset_at n 0))
IsPast epoch (negsuc n) = ⊥

floor_of-IsPast :
    (c : NodeClock) (asserted : ℤ)
    → asserted <ℤ pos (2 ^ 39)
    → (floor_of c <ℤ asserted) ↔ IsPast c.last_epoch asserted
unfolding epoch_id_at epoch_offset_at
floor_of-IsPast c (pos n) h = (
  λ over. elim (Bool-cases (ltb c.last_epoch (epoch_id_at n))) [
    | inl later ↦ inl (ground arith)
    | inr here ↦
        let not_later : epoch_id_at n ≤ c.last_epoch = ground arith in
        inr (omega arith, omega arith)
  ],
  λ past. elim past [ inl later ↦ omega arith | inr (here, behind) ↦ omega arith ],
)
floor_of-IsPast c (negsuc n) h = (λ over. omega arith, λ never. absurd never)

-- For a time below 2^39 seconds: a node accepts an announcement exactly when it has no clock and the
-- time is in a later epoch than its last one, as `epoch_id_at` has it, or in that epoch behind its
-- first second; and, accepted or not, the announcement does not lower the last epoch.
pub accept_time_announce_iff :
    (c : NodeClock) (asserted raw_now : ℤ)
    → asserted <ℤ pos (2 ^ 39)
    → (((accept_time_announce c asserted raw_now).0 ≡ ok tt)
        ↔ ((c.valid ≡ false) × IsPast c.last_epoch asserted))
      × (c.last_epoch ≤ (accept_time_announce c asserted raw_now).1.last_epoch)
unfolding accept_time_announce
accept_time_announce_iff c asserted raw_now h =
    let past = floor_of-IsPast c asserted h in
    (
      (
        λ accepted. (ground arith, past.0 (ground arith)),
        λ (fresh, later). let over = past.1 later in ground arith,
      ),
      accept_time_announce-floor c asserted raw_now h,
    )

-- Announcements one after another.
unfoldable pub announce_all : NodeClock → List (ℤ × ℤ) → NodeClock
announce_all c [] = c
announce_all c ((asserted, raw_now) ∷ arrivals) =
    announce_all (accept_time_announce c asserted raw_now).1 arrivals

valid-step :
    (c : NodeClock) (asserted raw_now : ℤ)
    → c.valid ≡ true
    → (accept_time_announce c asserted raw_now).1 ≡ c
unfolding accept_time_announce
valid-step c asserted raw_now h = ground arith

-- Once a node has a clock, no run of announcements changes its state.
pub announce_all-valid :
    (c : NodeClock) (arrivals : List (ℤ × ℤ)) → c.valid ≡ true → announce_all c arrivals ≡ c
unfolding announce_all
announce_all-valid c [] h = refl
announce_all-valid c ((a, r) ∷ arrivals) h =
    ap (λ d. announce_all d arrivals) (valid-step c a r h) ∙ announce_all-valid c arrivals h

-- The epoch of an asserted time is cut to 32 bits: an announcement of 2^39 seconds is accepted by a
-- node without a clock and sets its u32 last epoch back to 0, from wherever it was.
pub accept_time_announce_cut :
    (last_epoch : ℕ) (raw_now : ℤ)
    → last_epoch < 2 ^ 32
    → ((accept_time_announce (clockless last_epoch) (pos (2 ^ 39)) raw_now).0 ≡ ok tt)
      × ((accept_time_announce (clockless last_epoch) (pos (2 ^ 39)) raw_now).1.last_epoch ≡ 0)
unfolding accept_time_announce over_epoch i64_as_u32 i64_to_bits
accept_time_announce_cut last_epoch raw_now h = (ground arith, ground arith)
