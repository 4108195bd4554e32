-- ===== src/Tools/Provision/Filling.antt =====
-- What the loop of `cmd_generate` keeps of the batch.
use catp.Base.{
  ℕ, Option, ◌<◌, ◌≤◌, ◌^◌, ◌≡◌, ◌≢◌, refl, sym, arith, true, false, not, ltb, ◌!=◌, some, none,
  List, [], ◌∷◌, ◌++◌, length, All, length-append, Bool-cases, inl, inr,
}
use catp.Base.Words.{Bytes, IsByte}
use catp.PeerState.{is_none}
use catp.Provisioning.{Bundle}
use catp.Provisioning.RoundTrip.{IsBundle}
use catp.Tools.Provision.{
  Directory, Batch, read_text, file_name, random_sender_ids, contains, sample, fill,
}

-- Pairwise different identifiers.
abbrev pub Distinct : List Bundle → Type 0
Distinct [] = Unit {0}
Distinct (b ∷ bundles) = All (λ (c : Bundle). c.sender_id ≢ b.sender_id) bundles × Distinct bundles

All-snoc {ℓ κ} :
    {A : Type ℓ} (P : A → Type κ) (xs : List A) (x : A) → All P xs → P x → All P (xs ++ (x ∷ []))
All-snoc P [] x h p = (p, tt)
All-snoc P (y ∷ xs) x (q, h) p = (q, All-snoc P xs x h p)

Distinct-snoc :
    (bs : List Bundle) (b : Bundle)
    → Distinct bs
    → All (λ (c : Bundle). c.sender_id ≢ b.sender_id) bs
    → Distinct (bs ++ (b ∷ []))
Distinct-snoc [] b d h = (tt, tt)
Distinct-snoc (c ∷ bs) b (apart, d) (far, h) = (
  All-snoc (λ (x : Bundle). x.sender_id ≢ c.sender_id) bs b apart (λ e. far (sym e)),
  Distinct-snoc bs b d h,
)

-- A bundle of the batch has its fields' widths, a non-zero identifier, and a name that was free.
pub record Fresh (out : Directory) (cipher_id : ℕ) (layouts : List (ℕ × ℕ)) (b : Bundle)
    : Type 0 where
  pub bundle : IsBundle b
  pub nonzero : b.sender_id ≢ 0
  pub free : read_text (file_name b.sender_id) out ≡ none
  pub cipher : b.cipher_id ≡ cipher_id
  pub layouts_eq : b.layouts ≡ layouts

seen_differs :
    (id : ℕ) (seen : List ℕ) (bs : List Bundle)
    → contains id seen ≡ false
    → All (λ (b : Bundle). contains b.sender_id seen ≡ true) bs
    → All (λ (b : Bundle). b.sender_id ≢ id) bs
seen_differs id seen [] h k = tt
seen_differs id seen (b ∷ bs) h (kb, k) =
    (λ e. let found : contains id seen ≡ true = rw (sym e) kb in cc, seen_differs id seen bs h k)

seen_cons :
    (id : ℕ) (seen : List ℕ) (bs : List Bundle)
    → All (λ (b : Bundle). contains b.sender_id seen ≡ true) bs
    → All (λ (b : Bundle). contains b.sender_id (id ∷ seen) ≡ true) bs
seen_cons id seen [] h = tt
seen_cons id seen (b ∷ bs) (hb, h) = (ground arith, seen_cons id seen bs h)

pub random_sender_ids-nonzero :
    (draws : List ℕ)
    → All (λ id. id < 2 ^ 32) draws
    → All (λ id. (id < 2 ^ 32) × (id ≢ 0)) (random_sender_ids draws)
unfolding random_sender_ids
random_sender_ids-nonzero [] h = tt
random_sender_ids-nonzero (id ∷ draws) (hd, h) = elim (Bool-cases (id != 0)) [
  | inl other ↦
      rw (random_sender_ids, other) ((hd, λ e. ground arith), random_sender_ids-nonzero draws h)
  | inr zero_id ↦ rw (random_sender_ids, zero_id) (random_sender_ids-nonzero draws h)
]

is_none-none {ℓ} : {A : Type ℓ} (x : Option A) → not (is_none x) ≡ false → x ≡ none
is_none-none none h = refl
is_none-none (some x) h = cc

module _ (random_secret : ℕ → Bytes) (out : Directory) (count cipher_id : ℕ)
    (layouts : List (ℕ × ℕ))
    (secrets : (n : ℕ) → All IsByte (random_secret n) × (length (random_secret n) ≡ 32))
    (byte : cipher_id < 256)
    (layout_bytes : All (λ (pair : ℕ × ℕ). IsByte pair.0 × IsByte pair.1) layouts) where
  pub record Sound (b : Batch) : Type 0 where
    pub fresh : All (Fresh out cipher_id layouts) b.bundles
    pub distinct : Distinct b.bundles
    pub recorded : All (λ (c : Bundle). contains c.sender_id b.seen ≡ true) b.bundles
    pub bounded : length b.bundles ≤ count

  abbrev made : ℕ → ℕ → Bundle
  made sender_id n = record {
    sender_id = sender_id;
    device_secret = random_secret n;
    cipher_id = cipher_id;
    layouts = layouts;
  }

  made-Fresh :
      (sender_id n : ℕ)
      → sender_id < 2 ^ 32
      → sender_id ≢ 0
      → read_text (file_name sender_id) out ≡ none
      → Fresh out cipher_id layouts (made sender_id n)
  made-Fresh sender_id n small nonzero free = record {
    bundle = record {
      sender_id_lt = small;
      secret_bytes = (secrets n).0;
      secret_length = (secrets n).1;
      cipher_id_lt = byte;
      layout_bytes = layout_bytes;
    };
    nonzero = nonzero;
    free = free;
    cipher = refl;
    layouts_eq = refl;
  }

  sample-Sound :
      (sender_id : ℕ) (b : Batch)
      → sender_id < 2 ^ 32
      → sender_id ≢ 0
      → length b.bundles < count
      → Sound b
      → Sound (sample random_secret out count cipher_id layouts sender_id b)
  unfolding sample
  sample-Sound sender_id b small nonzero room s = elim (Bool-cases (contains sender_id b.seen)) [
    | inl again ↦ rw (sample, again) s
    | inr new ↦ elim (Bool-cases (not (is_none (read_text (file_name sender_id) out)))) [
      | inl taken ↦
          rw (sample, new, taken)
            (record {
              fresh = s.fresh;
              distinct = s.distinct;
              recorded = seen_cons sender_id b.seen b.bundles s.recorded;
              bounded = s.bounded;
            })
      | inr free ↦
          let c = made sender_id (length b.bundles) in
          let apart = seen_differs sender_id b.seen b.bundles new s.recorded in
          rw (sample, new, free)
            (record {
              fresh =
                  All-snoc (Fresh out cipher_id layouts) b.bundles c s.fresh
                    (made-Fresh sender_id (length b.bundles) small nonzero (is_none-none _ free));
              distinct = Distinct-snoc b.bundles c s.distinct apart;
              recorded =
                  All-snoc (λ (c : Bundle). contains c.sender_id (sender_id ∷ b.seen) ≡ true)
                    b.bundles c (seen_cons sender_id b.seen b.bundles s.recorded) (ground arith);
              bounded = omega (arith, length-append b.bundles (c ∷ []));
            })
    ]
  ]

  -- Bundles that are fresh, pairwise different and as many as asked for.
  abbrev pub Filled : List Bundle → Type 0
  Filled bundles =
      All (Fresh out cipher_id layouts) bundles × Distinct bundles × (length bundles ≡ count)

  full-Filled :
      (b : Batch) (bundles : List Bundle)
      → Sound b
      → ltb (length b.bundles) count ≡ false
      → b.bundles ≡ bundles
      → Filled bundles
  full-Filled b bundles s full same =
      let size : length b.bundles ≡ count = let k = s.bounded in ground arith in
      rw (sym same) (s.fresh, s.distinct, size)

  pub fill-Filled :
      (draws : List ℕ) (b : Batch) (bundles : List Bundle)
      → All (λ id. (id < 2 ^ 32) × (id ≢ 0)) draws
      → Sound b
      → fill random_secret out count cipher_id layouts draws b ≡ some bundles
      → Filled bundles
  unfolding fill
  fill-Filled [] b bundles h s e = elim (Bool-cases (ltb (length b.bundles) count)) [
    | inl room ↦ let k = rw room at e in absurd (cc)
    | inr full ↦ let k = rw full at e in full-Filled b bundles s full cc
  ]
  fill-Filled (sender_id ∷ draws) b bundles ((small, nonzero), h) s e =
      elim (Bool-cases (ltb (length b.bundles) count)) [
        | inl room ↦
            let next = sample-Sound sender_id b small nonzero (ground arith) s in
            fill-Filled draws _ bundles h next (rw room at e)
        | inr full ↦ let k = rw full at e in full-Filled b bundles s full cc
      ]
