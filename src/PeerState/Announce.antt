-- ===== src/PeerState/Announce.antt =====
-- Runs of `EPOCH_ANNOUNCE` targets at one receiver.
use catp.Base.{
  ℕ, ◌<◌, ◌≡◌, refl, arith, Option, none, some, List, [], ◌∷◌, Bool-cases, inl, inr, leb,
}
use catp.Errors.{Result, ok, err}
use catp.PeerState.{PeerState, accept_epoch_announce}

-- The target is put before those that are accepted after it.
unfoldable pub add_target : Result (Unit {0}) → ℕ → List ℕ → List ℕ
add_target (ok u) target targets = target ∷ targets
add_target (err e) target targets = targets

-- The targets that are accepted, in the order of arrival.
unfoldable pub accepted_targets : PeerState → List ℕ → List ℕ
accepted_targets s [] = []
accepted_targets s (target ∷ targets) =
    let (r, s') = accept_epoch_announce s target in
    add_target r target (accepted_targets s' targets)

-- Each target is above the mark before it.
abbrev pub Above : Option ℕ → ℕ → Type 0
Above none t = Unit {0}
Above (some hi) t = hi < t

abbrev pub RisesFrom : Option ℕ → List ℕ → Type 0
RisesFrom mark [] = Unit {0}
RisesFrom mark (t ∷ ts) = Above mark t × RisesFrom (some t) ts

step :
    (s : PeerState) (target : ℕ) (ts : List ℕ)
    → RisesFrom (accept_epoch_announce s target).1.highest_epoch_announced ts
    → RisesFrom s.highest_epoch_announced (add_target (accept_epoch_announce s target).0 target ts)
unfolding accept_epoch_announce add_target
step s target ts h = at s.highest_epoch_announced refl
  where
    at :
        (m : Option ℕ)
        → s.highest_epoch_announced ≡ m
        → RisesFrom s.highest_epoch_announced
            (add_target (accept_epoch_announce s target).0 target ts)
    at none e = let h' = rw e at h in rw e (tt, h')
    at (some hi) e = elim (Bool-cases (leb target hi)) [
      | inl below ↦ let h' = rw (e, below) at h in rw (e, below) h'
      | inr above ↦ let h' = rw (e, above) at h in rw (e, above) (ground arith, h')
    ]

-- The targets that a receiver accepts rise strictly, from above its mark on.
pub accepted_targets-RisesFrom :
    (s : PeerState) (targets : List ℕ)
    → RisesFrom s.highest_epoch_announced (accepted_targets s targets)
unfolding accepted_targets
accepted_targets-RisesFrom s [] = tt
accepted_targets-RisesFrom s (t ∷ ts) =
    step s t (accepted_targets (accept_epoch_announce s t).1 ts)
      (accepted_targets-RisesFrom (accept_epoch_announce s t).1 ts)
