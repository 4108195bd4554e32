-- ===== src/Tools/Provision/Ends.antt =====
-- The loop of `cmd_generate` comes to an end.
use catp.Base.{
  ℕ, ◌+◌, ◌≤◌, ◌≡◌, ◌≢◌, refl, ap, arith, Bool, true, false, not, ltb, ◌!=◌, some, none, List, [],
  ◌∷◌, length, All, length-append, Bool-cases, inl, inr,
}
use catp.Base.Words.{Bytes}
use catp.Base.Text.{Text}
use catp.PeerState.{is_none}
use catp.Provisioning.{Bundle}
use catp.Registry.CipherId
use catp.Tools.Provision.{
  Directory, Batch, read_text, file_name, random_sender_ids, contains, sample, fill, write_all,
  generate,
}

-- Pairwise different draws.
abbrev pub Apart : List ℕ → Type 0
Apart [] = Unit {0}
Apart (id ∷ draws) = All (λ other. other ≢ id) draws × Apart draws

-- A draw that the loop takes.
abbrev pub Usable : Directory → ℕ → Type 0
Usable out id = (id ≢ 0) × (read_text (file_name id) out ≡ none)

abbrev New : List ℕ → ℕ → Type 0
New seen id = contains id seen ≡ false

random_sender_ids-all :
    (out : Directory) (draws : List ℕ) → All (Usable out) draws → random_sender_ids draws ≡ draws
unfolding random_sender_ids
random_sender_ids-all out [] h = refl
random_sender_ids-all out (id ∷ draws) ((nonzero, free), h) =
    let test : (id != 0) ≡ true = ground arith in
    rw test (ap (λ ds. id ∷ ds) (random_sender_ids-all out draws h))

cons-New :
    (id : ℕ) (seen draws : List ℕ)
    → All (λ other. other ≢ id) draws
    → All (New seen) draws
    → All (New (id ∷ seen)) draws
cons-New id seen [] far new = tt
cons-New id seen (other ∷ draws) (apart, far) (fresh, new) =
    (ground arith, cons-New id seen draws far new)

nil-New : (draws : List ℕ) → All (New []) draws
nil-New [] = tt
nil-New (id ∷ draws) = (refl, nil-New draws)

module _ (random_secret : ℕ → Bytes) (out : Directory) (count cipher_id : ℕ)
    (layouts : List (ℕ × ℕ)) where
  -- A usable draw that is new grows the batch.
  sample-grows :
      (id : ℕ) (b : Batch)
      → read_text (file_name id) out ≡ none
      → contains id b.seen ≡ false
      → ((sample random_secret out count cipher_id layouts id b).seen ≡ id ∷ b.seen)
        × (length (sample random_secret out count cipher_id layouts id b).bundles
            ≡ length b.bundles + 1)
  unfolding sample
  sample-grows id b free new = rw (new, free) (refl, length-append b.bundles _)

  fill-ends :
      (draws : List ℕ) (b : Batch)
      → Apart draws
      → All (Usable out) draws
      → All (New b.seen) draws
      → count ≤ length b.bundles + length draws
      → (bundles : List Bundle) × (fill random_secret out count cipher_id layouts draws b
          ≡ some bundles)
  unfolding fill
  fill-ends [] b a u n enough =
      let full : ltb (length b.bundles) count ≡ false = ground arith in (b.bundles, rw full refl)
  fill-ends (id ∷ draws) b (far, a) ((nonzero, free), u) (new, n) enough =
      elim (Bool-cases (ltb (length b.bundles) count)) [
        | inr full ↦ (b.bundles, rw full refl)
        | inl room ↦
            let (seen, size) = sample-grows id b free new in
            let next : All (New (sample random_secret out count cipher_id layouts id b).seen)
                draws =
              rw seen (cons-New id b.seen draws far n) in
            let (bundles, full) =
              fill-ends draws (sample random_secret out count cipher_id layouts id b) a u next
                (omega arith) in
            (bundles, rw room full)
      ]

  -- Draws that are pairwise different, not zero, and without a file are enough, if there are as many
  -- of them as bundles asked for: the run ends.
  pub generate-ends :
      (creates : Bool) (opens : Text → Bool) (draws : List ℕ)
      → Apart draws
      → All (Usable out) draws
      → count ≤ length draws
      → (result : Bool × Directory) × (generate random_secret creates opens count cipher_id layouts
            draws out
          ≡ some result)
  unfolding generate
  generate-ends creates opens draws a u enough =
      elim (Bool-cases (is_none (CipherId.from_u8 cipher_id))) [
        | inl unknown ↦ ((false, out), rw unknown refl)
        | inr known ↦ elim (Bool-cases (not creates)) [
          | inl uncreated ↦ ((false, out), rw (known, uncreated) refl)
          | inr created ↦
              let (bundles, full) =
                fill-ends draws (record { seen = []; bundles = [] }) a u (nil-New draws)
                  (omega arith) in
              (
                write_all opens bundles out,
                rw (known, created, random_sender_ids-all out draws u, full) refl,
              )
        ]
      ]
