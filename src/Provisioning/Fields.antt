-- ===== src/Provisioning/Fields.antt =====
-- src/provisioning.rs, the values that the loop of `Bundle::parse` collects over the lines.
use mathlib.Core.List.{append-nil, append_assoc}
use catp.Base.{
  ◌≡◌, refl, ap, ◌∙◌, sym, inl, inr, Option, none, some, List, [], ◌∷◌, ◌++◌, Option-cases,
  Bool-cases,
}
use catp.Base.Text.{
  Text, text_of, same_text, lines, trim, split_whitespace, u8_from_hex, u32_from_hex,
}
use catp.Base.Text.Lines.{lines-append}
use catp.Provisioning.{parse_hex_bytes}
use catp.Provisioning.Parse.{
  Provisioned, done, malformed, ◌>>=◌, exactly_32, Fields, no_fields, read_layout, read_sender_id,
  read_device_secret, read_cipher_id, add_layout, read_field, is_skipped, read_line, read_lines,
  finish, parse, Provisioned-cases,
}

-- What later lines set takes the place of what earlier ones set, and their layouts are added.
abbrev pub or_else {ℓ} : {A : Type ℓ} → Option A → Option A → Option A
or_else earlier none = earlier
or_else earlier (some later) = some later

abbrev pub override : Fields → Fields → Fields
override f g = record {
  sender_id = or_else f.sender_id g.sender_id;
  device_secret = or_else f.device_secret g.device_secret;
  cipher_id = or_else f.cipher_id g.cipher_id;
  layouts = f.layouts ++ g.layouts;
}

-- A reader of one line that does not look at what was collected before.
abbrev IsLocal : (Fields → Provisioned Fields) → Type 0
IsLocal step = (f : Fields) → step f ≡ (step no_fields >>= λ g. done (override f g))

read_sender_id-IsLocal : (rest : Text) → IsLocal (λ f. read_sender_id f rest)
unfolding read_sender_id
read_sender_id-IsLocal rest f = elim (Option-cases (u32_from_hex rest)) [
  | inl e ↦ rw e refl
  | inr (n, e) ↦ rw (e, append-nil f.layouts) refl
]

read_cipher_id-IsLocal : (rest : Text) → IsLocal (λ f. read_cipher_id f rest)
unfolding read_cipher_id
read_cipher_id-IsLocal rest f = elim (Option-cases (u8_from_hex rest)) [
  | inl e ↦ rw e refl
  | inr (n, e) ↦ rw (e, append-nil f.layouts) refl
]

read_device_secret-IsLocal : (rest : Text) → IsLocal (λ f. read_device_secret f rest)
unfolding read_device_secret
read_device_secret-IsLocal rest f = elim (Option-cases (parse_hex_bytes rest)) [
  | inl e ↦ rw e refl
  | inr (bytes, e) ↦ elim (Option-cases (exactly_32 bytes)) [
    | inl k ↦ rw (e, k) refl
    | inr (arr, k) ↦ rw (e, k, append-nil f.layouts) refl
  ]
]

add_layout-IsLocal : (rest : Text) → IsLocal (λ f. add_layout f rest)
unfolding add_layout
add_layout-IsLocal rest f = elim (Provisioned-cases (read_layout (split_whitespace rest))) [
  | inl (e, k) ↦ rw k refl
  | inr (pair, k) ↦ rw k refl
]

read_field-IsLocal : (key rest : Text) → IsLocal (λ f. read_field f key rest)
unfolding read_field
read_field-IsLocal key rest f = elim (Bool-cases (same_text key (text_of "sender_id"))) [
  | inl id ↦ rw id (read_sender_id-IsLocal rest f)
  | inr other ↦ elim (Bool-cases (same_text key (text_of "device_secret"))) [
    | inl secret ↦ rw (other, secret) (read_device_secret-IsLocal rest f)
    | inr other' ↦ elim (Bool-cases (same_text key (text_of "cipher_id"))) [
      | inl cipher ↦ rw (other, other', cipher) (read_cipher_id-IsLocal rest f)
      | inr last ↦ elim (Bool-cases (same_text key (text_of "layout"))) [
        | inl layout ↦ rw (other, other', last, layout) (add_layout-IsLocal rest f)
        | inr unknown ↦ rw (other, other', last, unknown) refl
      ]
    ]
  ]
]

read_line-IsLocal : (line : Text) → IsLocal (λ f. read_line f line)
unfolding read_line
read_line-IsLocal line f = elim (Bool-cases (is_skipped (trim line))) [
  | inl e ↦ rw (e, append-nil f.layouts) refl
  | inr e ↦ rw e (read_field-IsLocal _ _ f)
]

or_else_assoc {ℓ} :
    {A : Type ℓ} (a b c : Option A) → or_else (or_else a b) c ≡ or_else a (or_else b c)
or_else_assoc a b none = refl
or_else_assoc a b (some x) = refl

override_assoc : (f g h : Fields) → override (override f g) h ≡ override f (override g h)
override_assoc f g h =
    rw
      (
        or_else_assoc f.sender_id g.sender_id h.sender_id,
        or_else_assoc f.device_secret g.device_secret h.device_secret,
        or_else_assoc f.cipher_id g.cipher_id h.cipher_id,
        append_assoc f.layouts g.layouts h.layouts,
      )
      refl

override_none : (f : Fields) → override f no_fields ≡ f
override_none f = rw (append-nil f.layouts) refl

regroup :
    (r : Provisioned Fields) (f g : Fields)
    → (r >>= λ h. done (override (override f g) h))
      ≡ (r >>= (λ h. done (override g h)) >>= λ h. done (override f h))
regroup (malformed e) f g = refl
regroup (done h) f g = ap done (override_assoc f g h)

read_lines-IsLocal : (ls : List Text) → IsLocal (λ f. read_lines f ls)
unfolding read_lines
read_lines-IsLocal [] f = ap done (sym (override_none f))
read_lines-IsLocal (line ∷ ls) f = elim (Provisioned-cases (read_line no_fields line)) [
  | inl (e, k) ↦ rw (read_line-IsLocal line f, k) refl
  | inr (g, k) ↦
      rw (read_line-IsLocal line f, k)
        (read_lines-IsLocal ls (override f g)
          ∙ regroup (read_lines no_fields ls) f g
          ∙ ap (λ r. r >>= λ h. done (override f h)) (sym (read_lines-IsLocal ls g)))
]

read_lines-append :
    (f : Fields) (before after : List Text)
    → read_lines f (before ++ after) ≡ (read_lines f before >>= λ g. read_lines g after)
unfolding read_lines
read_lines-append f [] after = refl
read_lines-append f (line ∷ ls) after = elim (Provisioned-cases (read_line f line)) [
  | inl (e, k) ↦ rw k refl
  | inr (g, k) ↦ rw k (read_lines-append g ls after)
]

-- What a text sets by itself; a text that follows it on a new line takes precedence.
unfoldable pub fields_of : Text → Provisioned Fields
fields_of s = read_lines no_fields (lines s)

-- Reading one text behind another, on a new line, is reading each by itself and letting the second's
-- values take the place of the first's, with the layouts of both in order; the first text's error
-- comes first.
pub parse-append :
    (s t : Text)
    → parse (s ++ (b'\n' ∷ t))
      ≡ (fields_of (s ++ (b'\n' ∷ [])) >>= (λ f. fields_of t >>= λ g. finish (override f g)))
unfolding parse fields_of
parse-append s t =
    rw (lines-append s t, read_lines-append no_fields (lines (s ++ (b'\n' ∷ []))) (lines t))
      (chain (read_lines no_fields (lines (s ++ (b'\n' ∷ [])))))
  where
    behind :
        (r : Provisioned Fields) (f : Fields)
        → ((r >>= λ g. done (override f g)) >>= finish) ≡ (r >>= λ g. finish (override f g))
    behind (malformed e) f = refl
    behind (done g) f = refl

    chain :
        (r : Provisioned Fields)
        → ((r >>= λ f. read_lines f (lines t)) >>= finish)
          ≡ (r >>= λ f. read_lines no_fields (lines t) >>= λ g. finish (override f g))
    chain (malformed e) = refl
    chain (done f) =
        ap (λ r. r >>= finish) (read_lines-IsLocal (lines t) f)
        ∙ behind (read_lines no_fields (lines t)) f
