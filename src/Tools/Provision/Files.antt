-- ===== src/Tools/Provision/Files.antt =====
-- What a directory holds after a write, and the names that `generate` writes to.
use catp.Base.{
  ℕ, ◌-◌, ◌<◌, ◌^◌, ◌≡◌, ◌≢◌, refl, sym, ap, ◌∙◌, arith, true, false, some, [], ◌∷◌, take, drop,
  Option, if◌then◌else◌, Bool-cases, inl, inr,
}
use catp.Base.Text.{Text, same_text, hex_text, from_str_radix}
use catp.Base.Text.Laws.{from_str_radix-hex_text}
use catp.Base.Words.{u32_to_be}
use catp.Tools.Provision.{Directory, read_text, write_text, file_name}

same_text_refl : (s : Text) → same_text s s ≡ true
same_text_refl [] = refl
same_text_refl (c ∷ s) = ground (arith, same_text_refl s)

same_text-eq : (s t : Text) → same_text s t ≡ true → s ≡ t
same_text-eq [] [] h = refl
same_text-eq [] (d ∷ t) h = cc
same_text-eq (c ∷ s) [] h = cc
same_text-eq (c ∷ s) (d ∷ t) h = ground (arith, same_text-eq s t)

pub same_text-other : (s t : Text) → s ≢ t → same_text s t ≡ false
same_text-other s t h = elim (Bool-cases (same_text s t)) [
  | inl same ↦ absurd (h (same_text-eq s t same))
  | inr other ↦ other
]

pub read_text-write_text :
    (name text : Text) (files : Directory) → read_text name (write_text name text files) ≡ some text
unfolding read_text write_text
read_text-write_text name text [] = rw (same_text_refl name) refl
read_text-write_text name text ((n, old) ∷ files) = elim (Bool-cases (same_text name n)) [
  | inl same ↦ rw same (rw same refl)
  | inr other ↦ rw other (rw other (read_text-write_text name text files))
]

pub read_text-write_text_other :
    (name other text : Text) (files : Directory)
    → name ≢ other
    → read_text name (write_text other text files) ≡ read_text name files
unfolding read_text write_text
read_text-write_text_other name other text [] h = rw (same_text-other name other h) refl
read_text-write_text_other name other text ((n, old) ∷ files) h =
    elim (Bool-cases (same_text other n)) [
      | inl same ↦
          let here = same_text-eq other n same in
          let far : same_text name n ≡ false = rw (sym here) (same_text-other name other h) in
          rw same (rw far refl)
      | inr different ↦ rw different (
          ap (λ r. if same_text name n then some old else r)
            (read_text-write_text_other name other text files h))
    ]

pub file_name_injective : (a b : ℕ) → a < 2 ^ 32 → b < 2 ^ 32 → file_name a ≡ file_name b → a ≡ b
unfolding hex_text
file_name_injective a b ha hb h =
    let digits : hex_text (u32_to_be a) ≡ hex_text (u32_to_be b) =
      ap (λ (s : Text). take 8 (drop 5 s)) h in
    let same = ap (from_str_radix (2 ^ 32 - 1)) digits in
    let found : ◌≡◌ {A = Option ℕ} (some a) (some b) =
      sym (from_str_radix-hex_text a ha) ∙ same ∙ from_str_radix-hex_text b hb in
    cc
