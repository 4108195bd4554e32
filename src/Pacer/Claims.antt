-- ===== src/Pacer/Claims.antt =====
-- What a sequence of `claim` calls hands out.
use catp.Base.{
  ℕ, ◌≤◌, ◌<◌, ◌≡◌, refl, ◌≢◌, sym, ap, ◌∙◌, ◌⊎◌, arith, List, [], ◌∷◌, All, Option, none, some,
}
use catp.Errors.{offset_reuse, Result, ok, err}
use catp.Epoch.{epoch_id_at, epoch_offset_at}
use catp.Pacer.{Pacer, new, claim}

-- The pairs that are granted at the instants (seconds, nanoseconds), in order.
unfoldable pub claim_all : Pacer → List (ℕ × ℕ) → List (ℕ × ℕ)
claim_all p [] = []
claim_all p ((secs, nanos) ∷ ts) =
    let (r, q) = claim p secs nanos in
    let rest = claim_all q ts in elim r [ ok pair ↦ pair ∷ rest | err e ↦ rest ]

-- The pair (epoch, offset) lies after another one.
abbrev pub After : ℕ × ℕ → ℕ × ℕ → Type 0
After (e, o) (e', o') = (e < e') ⊎ ((e ≡ e') × (o < o'))

-- Each pair lies before all pairs behind it.
abbrev pub Increasing : List (ℕ × ℕ) → Type 0
Increasing [] = Unit
Increasing (x ∷ xs) = All (After x) xs × Increasing xs

-- The epochs of the instants never step back, and begin at `e` at the earliest.
abbrev pub EpochsFrom : ℕ → List (ℕ × ℕ) → Type 0
EpochsFrom e [] = Unit
EpochsFrom e ((secs, nanos) ∷ ts) = (e ≤ epoch_id_at secs) × EpochsFrom (epoch_id_at secs) ts

-- The pair may still be claimed once the pacer is in the state `p`.
abbrev Beyond : Option ℕ → Option ℕ → ℕ × ℕ → Type 0
Beyond none last x = Unit
Beyond (some e) none (e', o') = e ≤ e'
Beyond (some e) (some o) x = After (e, o) x

abbrev Open : Pacer → ℕ × ℕ → Type 0
Open p x = Beyond p.epoch p.last_offset x

-- The epoch of the pacer's state is not after `e`.
abbrev UpTo : Option ℕ → ℕ → Type 0
UpTo none e = Unit
UpTo (some e') e = e' ≤ e

record Step (p : Pacer) (e o : ℕ) (out : Result (ℕ × ℕ) × Pacer) : Type 0 where
  at_epoch : out.1.epoch ≡ some e
  kept : (x : ℕ × ℕ) → Open out.1 x → Open p x
  granted : (x : ℕ × ℕ) → out.0 ≡ ok x → Open p x × (out.1.last_offset ≡ some x.1) × (x.0 ≡ e)

claim-Step :
    (pe pl : Option ℕ) (secs nanos : ℕ)
    → UpTo pe (epoch_id_at secs)
    → Step
        (record { epoch = pe; last_offset = pl })
        (epoch_id_at secs)
        (epoch_offset_at secs nanos)
        (claim (record { epoch = pe; last_offset = pl }) secs nanos)
unfolding claim
claim-Step none none secs nanos h = record {
  at_epoch = refl;
  kept = λ x o. tt;
  granted = λ x e. (tt, ground arith, ground arith);
}
claim-Step none (some l) secs nanos h = record {
  at_epoch = refl;
  kept = λ x o. tt;
  granted = λ x e. (tt, ground arith, ground arith);
}
claim-Step (some e) none secs nanos h = record {
  at_epoch = ground arith;
  kept = λ x o. ground arith;
  granted = λ x q. ground arith;
}
claim-Step (some e) (some l) secs nanos h = record {
  at_epoch = ground arith;
  kept = λ x o. ground arith;
  granted = λ x q. ground arith;
}

All-kept :
    (P Q : ℕ × ℕ → Type 0) (xs : List (ℕ × ℕ)) → ((x : ℕ × ℕ) → P x → Q x) → All P xs → All Q xs
All-kept P Q [] f h = tt
All-kept P Q (x ∷ xs) f (h, hs) = (f x h, All-kept P Q xs f hs)

-- A pair open behind a state whose last claim was `y` lies after `y`.
After-last :
    (q : Pacer) (y : ℕ × ℕ)
    → q.epoch ≡ some y.0
    → q.last_offset ≡ some y.1
    → (x : ℕ × ℕ) → Open q x
    → After y x
After-last q y e l x o = rw (e, l) at o

EpochsFrom-UpTo : (p : Pacer) (e e' : ℕ) → p.epoch ≡ some e → e ≤ e' → UpTo p.epoch e'
EpochsFrom-UpTo p e e' h le = rw h le

claim_all_from :
    (ts : List (ℕ × ℕ)) (p : Pacer) (e : ℕ)
    → ((e' : ℕ) → e ≤ e' → UpTo p.epoch e')
    → EpochsFrom e ts
    → All (Open p) (claim_all p ts) × Increasing (claim_all p ts)
unfolding claim_all
claim_all_from [] p e up h = (tt, tt)
claim_all_from ((secs, nanos) ∷ ts) p e up (le, h) =
    let st = claim-Step p.epoch p.last_offset secs nanos (up (epoch_id_at secs) le) in
    let later = λ (e' : ℕ) (k : epoch_id_at secs ≤ e').
      EpochsFrom-UpTo (claim p secs nanos).1 (epoch_id_at secs) e' st.at_epoch k in
    let (opened, ordered) = claim_all_from ts (claim p secs nanos).1 (epoch_id_at secs) later h in
    joined (claim p secs nanos) st opened ordered
  where
    joined :
        (out : Result (ℕ × ℕ) × Pacer)
        → Step p (epoch_id_at secs) (epoch_offset_at secs nanos) out
        → All (Open out.1) (claim_all out.1 ts)
        → Increasing (claim_all out.1 ts)
        → let pairs : List (ℕ × ℕ) = elim out.0 [
          | ok pair ↦ pair ∷ claim_all out.1 ts
          | err e ↦ claim_all out.1 ts
        ] in
          All (Open p) pairs × Increasing pairs
    joined (ok y, q) st opened ordered =
        let (now, last, same) = st.granted y refl in
        (
          (now, All-kept (Open q) (Open p) (claim_all q ts) st.kept opened),
          (
            All-kept (Open q) (After y) (claim_all q ts)
                (After-last q y (st.at_epoch ∙ ap some (sym same)) last) opened,
            ordered,
          ),
        )
    joined (err x, q) st opened ordered =
        (All-kept (Open q) (Open p) (claim_all q ts) st.kept opened, ordered)

-- For instants whose epochs never step back: the pairs (epoch, offset) that a new pacer grants, in
-- the order of the calls, each lie before all pairs granted later, so no pair is granted twice.
pub claim_all-Increasing : (ts : List (ℕ × ℕ)) → EpochsFrom 0 ts → Increasing (claim_all new ts)
unfolding new
claim_all-Increasing ts h = (claim_all_from ts new 0 (λ e' le. tt) h).1

claim-epoch : (p : Pacer) (secs nanos : ℕ) → (claim p secs nanos).1.epoch ≡ some (epoch_id_at secs)
unfolding claim
claim-epoch p secs nanos = at p.epoch p.last_offset
  where
    at :
        (pe pl : Option ℕ)
        → (claim (record { epoch = pe; last_offset = pl }) secs nanos).1.epoch
          ≡ some (epoch_id_at secs)
    at none none = refl
    at none (some l) = refl
    at (some e) none = ground arith
    at (some e) (some l) = ground arith

claim-pair :
    (p : Pacer) (secs nanos : ℕ) (pair : ℕ × ℕ)
    → (claim p secs nanos).0 ≡ ok pair
    → ok pair ≡ ok (epoch_id_at secs, epoch_offset_at secs nanos)
unfolding claim
claim-pair p secs nanos pair = at p.epoch p.last_offset
  where
    at :
        (pe pl : Option ℕ)
        → (claim (record { epoch = pe; last_offset = pl }) secs nanos).0 ≡ ok pair
        → ok pair ≡ ok (epoch_id_at secs, epoch_offset_at secs nanos)
    at none none h = sym h
    at none (some l) h = sym h
    at (some e) none h = ground arith
    at (some e) (some l) h = ground arith

-- In an epoch other than the pacer's, the pair of the instant is granted.
claim_other :
    (p : Pacer) (e secs nanos : ℕ)
    → p.epoch ≡ some e
    → e ≢ epoch_id_at secs
    → (claim p secs nanos).0 ≡ ok (epoch_id_at secs, epoch_offset_at secs nanos)
unfolding claim
claim_other p e secs nanos = at p.epoch p.last_offset
  where
    at :
        (pe pl : Option ℕ)
        → pe ≡ some e
        → e ≢ epoch_id_at secs
        → (claim (record { epoch = pe; last_offset = pl }) secs nanos).0
          ≡ ok (epoch_id_at secs, epoch_offset_at secs nanos)
    at none none h ne = refl
    at none (some l) h ne = refl
    at (some e') none h ne = ground arith
    at (some e') (some l) h ne = ground arith

-- One call of a pacer that has granted an offset: it grants the pair of its instant, unless the
-- pacer is in the instant's epoch and has granted the same or a later offset there; then it returns
-- `OffsetReuse`, and the pacer is as it was.
pub claim_cases :
    (e o secs nanos : ℕ)
    → let p : Pacer = record { epoch = some e; last_offset = some o } in
      let now = epoch_id_at secs in
      let offset = epoch_offset_at secs nanos in
      ((e ≡ now) → offset ≤ o → claim p secs nanos ≡ (err (offset_reuse offset), p))
      × ((e ≢ now) ⊎ (o < offset)
          → claim p secs nanos
            ≡ (ok (now, offset), record { epoch = some now; last_offset = some offset }))
unfolding claim
claim_cases e o secs nanos = ((λ h k. ground arith), (λ h. ground arith))

-- The pacer keeps one epoch only: for instants of two different epochs, a pair that was granted at
-- the first is granted again when the clock steps back to it after a claim at the second.
pub claim_repeats :
    (p : Pacer) (s1 n1 s2 n2 : ℕ) (pair : ℕ × ℕ)
    → epoch_id_at s1 ≢ epoch_id_at s2
    → (claim p s1 n1).0 ≡ ok pair
    → (claim (claim (claim p s1 n1).1 s2 n2).1 s1 n1).0 ≡ ok pair
claim_repeats p s1 n1 s2 n2 pair ne h =
    claim_other (claim (claim p s1 n1).1 s2 n2).1 (epoch_id_at s2) s1 n1
      (claim-epoch (claim p s1 n1).1 s2 n2) (λ e. ne (sym e))
    ∙ sym (claim-pair p s1 n1 pair h)
