-- ===== src/Tools/Provision/Generate.antt =====
-- `cmd_generate` into a directory that holds files already.
use catp.Base.{
  ℕ, Option, ◌<◌, ◌^◌, ◌≡◌, ◌≢◌, ◌⊎◌, refl, sym, ap, ◌∙◌, arith, Bool, true, false, not, some, List,
  [], ◌∷◌, length, All, Bool-cases, Option-cases, subst, inl, inr,
}
use catp.Base.Words.{Bytes, IsByte}
use catp.Base.Text.{Text}
use catp.PeerState.{is_none}
use catp.Provisioning.{Bundle, to_text}
use catp.Provisioning.Parse.{done, parse}
use catp.Provisioning.RoundTrip.{parse-to_text}
use catp.Registry.CipherId
use catp.Tools.Provision.{
  Directory, read_text, write_text, file_name, random_sender_ids, fill, write_all, generate,
}
use catp.Tools.Provision.Files.{
  read_text-write_text, read_text-write_text_other, file_name_injective,
}
use catp.Tools.Provision.Filling.{Distinct, Fresh, Filled, fill-Filled, random_sender_ids-nonzero}

module _ (opens : Text → Bool) where
  write_all-keeps :
      (name : Text) (bundles : List Bundle) (out : Directory)
      → All (λ (b : Bundle). name ≢ file_name b.sender_id) bundles
      → read_text name (write_all opens bundles out).1 ≡ read_text name out
  unfolding write_all
  write_all-keeps name [] out h = refl
  write_all-keeps name (b ∷ bundles) out (other, h) =
      elim (Bool-cases (opens (file_name b.sender_id))) [
        | inl opened ↦ rw opened (
            write_all-keeps name bundles _ h
            ∙ read_text-write_text_other name (file_name b.sender_id) (to_text b) out other)
        | inr closed ↦ rw closed refl
      ]

  -- Different identifiers have different files.
  apart :
      (b : Bundle) (bundles : List Bundle)
      → b.sender_id < 2 ^ 32
      → All (λ (c : Bundle). c.sender_id < 2 ^ 32) bundles
      → All (λ (c : Bundle). c.sender_id ≢ b.sender_id) bundles
      → All (λ (c : Bundle). file_name b.sender_id ≢ file_name c.sender_id) bundles
  apart b [] small h k = tt
  apart b (c ∷ bundles) small (hc, h) (kc, k) = (
    λ e. kc (sym (file_name_injective b.sender_id c.sender_id small hc e)),
    apart b bundles small h k,
  )

  write_all-reads :
      (bundles : List Bundle) (out : Directory)
      → All (λ (c : Bundle). c.sender_id < 2 ^ 32) bundles
      → Distinct bundles
      → (write_all opens bundles out).0 ≡ true
      → All
          (λ (b : Bundle).
            read_text (file_name b.sender_id) (write_all opens bundles out).1 ≡ some (to_text b))
          bundles
  unfolding write_all
  write_all-reads [] out h d e = tt
  write_all-reads (b ∷ bundles) out (small, h) (far, d) e =
      elim (Bool-cases (opens (file_name b.sender_id))) [
        | inr closed ↦ let k = rw closed at e in absurd (cc)
        | inl opened ↦
            let next = write_text (file_name b.sender_id) (to_text b) out in
            let step : write_all opens (b ∷ bundles) out ≡ write_all opens bundles next =
              rw opened refl in
            let here =
              write_all-keeps (file_name b.sender_id) bundles next (apart b bundles small h far)
              ∙ read_text-write_text (file_name b.sender_id) (to_text b) out in
            subst
              (λ w.
                All (λ (c : Bundle). read_text (file_name c.sender_id) w.1 ≡ some (to_text c))
                  (b ∷ bundles))
              (sym step) (here, write_all-reads bundles next h d (sym (ap (λ w. w.0) step) ∙ e))
      ]

free_differs :
    (name : Text) (out : Directory) (text : Text) (cipher_id : ℕ) (layouts : List (ℕ × ℕ))
    (bundles : List Bundle)
    → read_text name out ≡ some text
    → All (Fresh out cipher_id layouts) bundles
    → All (λ (b : Bundle). name ≢ file_name b.sender_id) bundles
free_differs name out text cipher_id layouts [] there h = tt
free_differs name out text cipher_id layouts (b ∷ bundles) there (hb, h) = (
  λ e.
      let free = hb.free in
      let found : read_text (file_name b.sender_id) out ≡ some text = rw (sym e) there in cc,
  free_differs name out text cipher_id layouts bundles there h,
)

small_ids :
    (out : Directory) (cipher_id : ℕ) (layouts : List (ℕ × ℕ)) (bundles : List Bundle)
    → All (Fresh out cipher_id layouts) bundles
    → All (λ (b : Bundle). b.sender_id < 2 ^ 32) bundles
small_ids out cipher_id layouts [] h = tt
small_ids out cipher_id layouts (b ∷ bundles) (hb, h) =
    (hb.bundle.sender_id_lt, small_ids out cipher_id layouts bundles h)

both_read :
    (out out' : Directory) (cipher_id : ℕ) (layouts : List (ℕ × ℕ)) (bundles : List Bundle)
    → All (Fresh out cipher_id layouts) bundles
    → All (λ (b : Bundle). read_text (file_name b.sender_id) out' ≡ some (to_text b)) bundles
    → All
        (λ (b : Bundle).
          (read_text (file_name b.sender_id) out' ≡ some (to_text b))
          × (parse (to_text b) ≡ done b))
        bundles
both_read out out' cipher_id layouts [] h k = tt
both_read out out' cipher_id layouts (b ∷ bundles) (hb, h) (kb, k) =
    ((kb, parse-to_text b hb.bundle), both_read out out' cipher_id layouts bundles h k)

module _ (random_secret : ℕ → Bytes) (creates : Bool) (opens : Text → Bool) (count cipher_id : ℕ)
    (layouts : List (ℕ × ℕ)) (draws : List ℕ) (out : Directory) where
  filled : Option (List Bundle)
  filled =
      fill random_secret out count cipher_id layouts (random_sender_ids draws)
        (record { seen = []; bundles = [] })

  -- A run that ends has refused the suite and written nothing, or has filled a batch and written it.
  generate-cases :
      (succeeds : Bool) (out' : Directory)
      → generate random_secret creates opens count cipher_id layouts draws out
        ≡ some (succeeds, out')
      → ((succeeds ≡ false) × (out' ≡ out))
        ⊎ ((bundles : List Bundle) × (filled ≡ some bundles)
            × (write_all opens bundles out ≡ (succeeds, out')))
  unfolding generate filled
  generate-cases succeeds out' e = elim (Bool-cases (is_none (CipherId.from_u8 cipher_id))) [
    | inl unknown ↦ let k = rw unknown at e in inl (ground arith, cc)
    | inr known ↦ elim (Bool-cases (not creates)) [
      | inl uncreated ↦ let k = rw (known, uncreated) at e in inl (ground arith, cc)
      | inr created ↦ elim (Option-cases filled) [
        | inl never ↦ let k = rw (known, created, never) at e in absurd (cc)
        | inr (bundles, full) ↦ let k = rw (known, created, full) at e in inr (bundles, full, cc)
      ]
    ]
  ]

  module _ (secrets : (n : ℕ) → All IsByte (random_secret n) × (length (random_secret n) ≡ 32))
      (byte : cipher_id < 256)
      (layout_bytes : All (λ (pair : ℕ × ℕ). IsByte pair.0 × IsByte pair.1) layouts)
      (u32_draws : All (λ id. id < 2 ^ 32) draws) where
    filled-Filled :
        (bundles : List Bundle)
        → filled ≡ some bundles
        → Filled random_secret out count cipher_id layouts secrets byte layout_bytes bundles
    unfolding filled
    filled-Filled bundles full =
        fill-Filled random_secret out count cipher_id layouts secrets byte layout_bytes
          (random_sender_ids draws) (record { seen = []; bundles = [] }) bundles
          (random_sender_ids-nonzero draws u32_draws)
          (record { fresh = tt; distinct = tt; recorded = tt; bounded = omega arith }) full

    -- For secrets of 32 bytes and arguments of their widths: a run of `generate` that ends, whether
    -- it succeeds or not, leaves every file that the directory held as it was.
    pub generate-keeps :
        (succeeds : Bool) (out' : Directory) (name text : Text)
        → generate random_secret creates opens count cipher_id layouts draws out
          ≡ some (succeeds, out')
        → read_text name out ≡ some text
        → read_text name out' ≡ some text
    generate-keeps succeeds out' name text e there = elim (generate-cases succeeds out' e) [
      | inl (failed, same) ↦ rw same there
      | inr (bundles, full, written) ↦
          let (fresh, distinct, size) = filled-Filled bundles full in
          let kept =
            write_all-keeps opens name bundles out
              (free_differs name out text cipher_id layouts bundles there fresh) in
          sym (ap (λ w. read_text name w.1) written) ∙ kept ∙ there
    ]

    -- For secrets of 32 bytes and arguments of their widths: after a run of `generate` that succeeds
    -- there are as many bundles as asked for, with pairwise different identifiers that are not zero,
    -- under file names that were free, with the suite and the layouts asked for; the file of each
    -- holds its text, which parses to the bundle.
    pub generate-provisions :
        (out' : Directory)
        → generate random_secret creates opens count cipher_id layouts draws out ≡ some (true, out')
        → (bundles : List Bundle) × Filled random_secret out count cipher_id layouts secrets byte
            layout_bytes bundles
          × All
              (λ (b : Bundle).
                (read_text (file_name b.sender_id) out' ≡ some (to_text b))
                × (parse (to_text b) ≡ done b))
              bundles
    generate-provisions out' e = elim (generate-cases true out' e) [
      | inl (failed, same) ↦ absurd (cc)
      | inr (bundles, full, written) ↦
          let (fresh, distinct, size) = filled-Filled bundles full in
          let reads =
            write_all-reads opens bundles out (small_ids out cipher_id layouts bundles fresh)
              distinct (ap (λ w. w.0) written) in
          (
            bundles,
            (fresh, distinct, size),
            both_read out out' cipher_id layouts bundles fresh (
                subst
                  (λ w.
                    All (λ (c : Bundle). read_text (file_name c.sender_id) w.1 ≡ some (to_text c))
                      bundles)
                  written reads),
          )
    ]
