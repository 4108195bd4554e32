-- ===== src/Provisioning/Values.antt =====
-- src/provisioning.rs, the widths of the values that `Bundle::parse` returns.
use catp.Base.{
  ℕ, ◌+◌, ◌*◌, ◌^◌, ◌<◌, ◌≤◌, ◌≡◌, ◌==◌, ltb, Option, none, some, List, [], ◌∷◌, ◌++◌, length, All,
  All-append, arith, Option-cases, Bool-cases, inl, inr,
}
use catp.Base.Text.{
  Text, text_of, same_text, lines, trim, split_whitespace, to_digit, read_digits, from_str_radix,
  some_digits, strip_plus, u8_from_hex, u32_from_hex,
}
use catp.Base.Words.{Bytes, IsByte}
use catp.Provisioning.{Bundle, parse_hex_bytes}
use catp.Provisioning.Hex.{parse_hex_bytes_iff}
use catp.Provisioning.Parse.{
  Provisioned, done, malformed, ◌>>=◌, Fields, no_fields, read_layout, read_sender_id,
  read_device_secret, read_cipher_id, add_layout, read_field, is_skipped, read_line, read_lines,
  finish, parse, Provisioned-cases,
}
use catp.Provisioning.RoundTrip.{IsBundle}

read_digits-le :
    (max value : ℕ) (s : Text) {n : ℕ} → value ≤ max → read_digits max value s ≡ some n → n ≤ max
unfolding read_digits
read_digits-le max value [] small h = ground arith
read_digits-le max value (c ∷ cs) {n} small h = elim (Option-cases (to_digit c)) [
  | inl e ↦ absurd_none (rw (read_digits, e) at h)
  | inr (d, e) ↦ elim (Bool-cases (ltb max (value * 16 + d))) [
    | inl over ↦ absurd_none (rw (read_digits, e, over) at h)
    | inr fits ↦
        read_digits-le max (value * 16 + d) cs (ground arith) (rw (read_digits, e, fits) at h)
  ]
]
  where
    absurd_none : none ≡ some n → n ≤ max
    absurd_none k = cc

from_str_radix-le : (max : ℕ) (s : Text) {n : ℕ} → from_str_radix max s ≡ some n → n ≤ max
unfolding from_str_radix
from_str_radix-le max s h = go (strip_plus s) h
  where
    go : (t : Text) {n : ℕ} → some_digits max t ≡ some n → n ≤ max
    go [] k = cc
    go (c ∷ cs) k = read_digits-le max 0 (c ∷ cs) (omega arith) k

byte_lt : (s : Text) {n : ℕ} → u8_from_hex s ≡ some n → n < 256
byte_lt s h = omega (arith, from_str_radix-le 255 s h)

word_lt : (s : Text) {n : ℕ} → u32_from_hex s ≡ some n → n < 2 ^ 32
word_lt s h = omega (arith, from_str_radix-le 4294967295 s h)

-- Every value collected so far has its width.
abbrev IfSome {ℓ κ} : {A : Type ℓ} → (A → Type κ) → Option A → Type κ
IfSome P none = Unit {κ}
IfSome P (some a) = P a

abbrev IsPair : ℕ × ℕ → Type 0
IsPair pair = IsByte pair.0 × IsByte pair.1

record HaveWidths (f : Fields) : Type 0 where
  id_lt : IfSome (λ n. n < 2 ^ 32) f.sender_id
  secret_ok : IfSome (λ bytes. All IsByte bytes × (length bytes ≡ 32)) f.device_secret
  cipher_lt : IfSome IsByte f.cipher_id
  pairs : All IsPair f.layouts

abbrev Sound : Provisioned Fields → Type 0
Sound (malformed e) = Unit {0}
Sound (done f) = HaveWidths f

read_sender_id-Sound : (f : Fields) (rest : Text) → HaveWidths f → Sound (read_sender_id f rest)
unfolding read_sender_id
read_sender_id-Sound f rest v = elim (Option-cases (u32_from_hex rest)) [
  | inl e ↦ rw e tt
  | inr (n, e) ↦ rw e (record {
    id_lt = word_lt rest e;
    secret_ok = v.secret_ok;
    cipher_lt = v.cipher_lt;
    pairs = v.pairs;
  })
]

read_cipher_id-Sound : (f : Fields) (rest : Text) → HaveWidths f → Sound (read_cipher_id f rest)
unfolding read_cipher_id
read_cipher_id-Sound f rest v = elim (Option-cases (u8_from_hex rest)) [
  | inl e ↦ rw e tt
  | inr (n, e) ↦ rw e (record {
    id_lt = v.id_lt;
    secret_ok = v.secret_ok;
    cipher_lt = byte_lt rest e;
    pairs = v.pairs;
  })
]

read_device_secret-Sound :
    (f : Fields) (rest : Text) → HaveWidths f → Sound (read_device_secret f rest)
unfolding read_device_secret
read_device_secret-Sound f rest v = elim (Option-cases (parse_hex_bytes rest)) [
  | inl e ↦ rw e tt
  | inr (bytes, e) ↦ elim (Bool-cases (length bytes == 32)) [
    | inl k ↦
        let small = ((parse_hex_bytes_iff rest bytes).0 e).1 in
        rw (e, k)
          (record {
            id_lt = v.id_lt;
            secret_ok = (small, ground arith);
            cipher_lt = v.cipher_lt;
            pairs = v.pairs;
          })
    | inr k ↦ rw (e, k) tt
  ]
]

abbrev SoundPair : Provisioned (ℕ × ℕ) → Type 0
SoundPair (malformed e) = Unit {0}
SoundPair (done pair) = IsPair pair

read_layout-SoundPair : (parts : List Text) → SoundPair (read_layout parts)
unfolding read_layout
read_layout-SoundPair [] = tt
read_layout-SoundPair (fmt ∷ []) = tt
read_layout-SoundPair (fmt ∷ version ∷ []) = elim (Option-cases (u8_from_hex fmt)) [
  | inl e ↦ rw e tt
  | inr (f, e) ↦ elim (Option-cases (u8_from_hex version)) [
    | inl k ↦ rw (e, k) tt
    | inr (v, k) ↦ rw (e, k) (byte_lt fmt e, byte_lt version k)
  ]
]
read_layout-SoundPair (fmt ∷ version ∷ more ∷ rest) = tt

add_layout-Sound : (f : Fields) (rest : Text) → HaveWidths f → Sound (add_layout f rest)
unfolding add_layout
add_layout-Sound f rest v =
    go (read_layout (split_whitespace rest)) (read_layout-SoundPair (split_whitespace rest))
  where
    go :
        (r : Provisioned (ℕ × ℕ))
        → SoundPair r
        → Sound (r >>= λ pair. done (record f { layouts = f.layouts ++ (pair ∷ []) }))
    go (malformed e) k = tt
    go (done pair) k = record {
      id_lt = v.id_lt;
      secret_ok = v.secret_ok;
      cipher_lt = v.cipher_lt;
      pairs = All-append IsPair f.layouts (pair ∷ []) v.pairs (k, tt);
    }

read_field-Sound : (f : Fields) (key rest : Text) → HaveWidths f → Sound (read_field f key rest)
unfolding read_field
read_field-Sound f key rest v = elim (Bool-cases (same_text key (text_of "sender_id"))) [
  | inl id ↦ rw id (read_sender_id-Sound f rest v)
  | inr other ↦ elim (Bool-cases (same_text key (text_of "device_secret"))) [
    | inl secret ↦ rw (other, secret) (read_device_secret-Sound f rest v)
    | inr other' ↦ elim (Bool-cases (same_text key (text_of "cipher_id"))) [
      | inl cipher ↦ rw (other, other', cipher) (read_cipher_id-Sound f rest v)
      | inr last ↦ elim (Bool-cases (same_text key (text_of "layout"))) [
        | inl layout ↦ rw (other, other', last, layout) (add_layout-Sound f rest v)
        | inr unknown ↦ rw (other, other', last, unknown) tt
      ]
    ]
  ]
]

read_line-Sound : (f : Fields) (line : Text) → HaveWidths f → Sound (read_line f line)
unfolding read_line
read_line-Sound f line v = elim (Bool-cases (is_skipped (trim line))) [
  | inl e ↦ rw e v
  | inr e ↦ rw e (read_field-Sound f _ _ v)
]

read_lines-Sound : (f : Fields) (ls : List Text) → HaveWidths f → Sound (read_lines f ls)
unfolding read_lines
read_lines-Sound f [] v = v
read_lines-Sound f (line ∷ ls) v = elim (Provisioned-cases (read_line f line)) [
  | inl (e, k) ↦ rw k tt
  | inr (g, k) ↦ rw k (read_lines-Sound g ls (rw k at (read_line-Sound f line v)))
]

SoundBundle : Provisioned Bundle → Type 0
SoundBundle (malformed e) = Unit {0}
SoundBundle (done b) = IsBundle b

finish-SoundBundle : (f : Fields) → HaveWidths f → SoundBundle (finish f)
unfolding finish SoundBundle
finish-SoundBundle f v = go f.sender_id f.device_secret f.cipher_id v.id_lt v.secret_ok v.cipher_lt
  where
    go :
        (id : Option ℕ) (secret : Option Bytes) (cipher : Option ℕ)
        → IfSome (λ n. n < 2 ^ 32) id
        → IfSome (λ bytes. All IsByte bytes × (length bytes ≡ 32)) secret
        → IfSome IsByte cipher
        → SoundBundle
            (finish (record f { sender_id = id; device_secret = secret; cipher_id = cipher }))
    go none secret cipher h k l = tt
    go (some id) none cipher h k l = tt
    go (some id) (some secret) none h k l = tt
    go (some id) (some secret) (some cipher) h (small, n) l = record {
      sender_id_lt = h;
      secret_bytes = small;
      secret_length = n;
      cipher_id_lt = l;
      layout_bytes = v.pairs;
    }

parse-SoundBundle : (s : Text) → SoundBundle (parse s)
unfolding parse SoundBundle
parse-SoundBundle s =
    go (read_lines no_fields (lines s)) (read_lines-Sound no_fields (lines s) empty)
  where
    empty : HaveWidths no_fields
    empty = record { id_lt = tt; secret_ok = tt; cipher_lt = tt; pairs = tt }

    go : (r : Provisioned Fields) → Sound r → SoundBundle (r >>= finish)
    go (malformed e) v = tt
    go (done f) v = finish-SoundBundle f v

-- A bundle that is read from a text, whatever the text, holds values of the widths of the struct's
-- fields: a sender id and a suite byte that did not overflow, a secret of 32 bytes, pairs of bytes.
pub parse-IsBundle : (s : Text) {b : Bundle} → parse s ≡ done b → IsBundle b
unfolding SoundBundle
parse-IsBundle s h = rw h at (parse-SoundBundle s)
