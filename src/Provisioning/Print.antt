-- ===== src/Provisioning/Print.antt =====
-- src/provisioning.rs, what the loop of `Bundle::parse` does on each line that `to_text` prints.
use catp.Base.{
  ℕ, ◌^◌, ◌/◌, ◌%◌, ◌<◌, ◌≡◌, refl, ◌∙◌, true, false, some, [], ◌∷◌, ◌++◌, length, All, arith,
}
use catp.Base.Text.{
  Text, text_of, is_whitespace, trim, trim_start, split_key, hex2, hex_text, hex_digit,
}
use catp.Base.Text.Laws.{
  all, is_hex, hex2-is_hex, hex_text-is_hex, trim_hex, trim_start-cons, hex_digit-is_hex,
  trim_end_append, from_str_radix-hex2, from_str_radix-hex_text, split_whitespace_two,
}
use catp.Base.Words.{Bytes, IsByte, u32_to_be}
use catp.Provisioning.{parse_hex_bytes}
use catp.Provisioning.Hex.{parse_hex_bytes_iff, to_lower}
use catp.Provisioning.Parse.{
  done, Fields, read_line, read_field, is_skipped, read_sender_id, read_device_secret,
  read_cipher_id, add_layout, read_layout, exactly_32,
}

-- A line that comes apart into a key and what is behind it.
read_line_parts :
    (fields : Fields) (line key behind rest : Text)
    → trim line ≡ line
    → is_skipped line ≡ false
    → split_key line ≡ (key, behind)
    → trim behind ≡ rest
    → read_line fields line ≡ read_field fields key rest
unfolding read_line
read_line_parts fields line key behind rest whole kept parts trimmed =
    rw (whole, kept, parts, trimmed) refl

-- Digits behind spaces, and digits behind a first word.
trim_behind_spaces :
    (d : ℕ) (ds : Text) → all is_hex (d ∷ ds) ≡ true → trim (text_of "    " ++ (d ∷ ds)) ≡ d ∷ ds
unfolding trim trim_start is_whitespace
trim_behind_spaces d ds h = trim_hex (d ∷ ds) h

trim_behind_word :
    (word : Text) (d : ℕ) (ds : Text)
    → all is_hex (d ∷ ds) ≡ true
    → trim_start (word ++ (d ∷ ds)) ≡ word ++ (d ∷ ds)
    → trim (word ++ (d ∷ ds)) ≡ word ++ (d ∷ ds)
unfolding trim
trim_behind_word word d ds h e = rw e (trim_end_append word d ds h)

sender_id_parts :
    (fields : Fields) (d : ℕ) (ds : Text)
    → all is_hex (d ∷ ds) ≡ true
    → read_line fields (text_of "sender_id     " ++ (d ∷ ds)) ≡ read_sender_id fields (d ∷ ds)
unfolding read_field split_key trim_start is_whitespace
sender_id_parts fields d ds h =
    read_line_parts fields _ (text_of "sender_id") _ (d ∷ ds)
      (trim_behind_word (text_of "sender_id     ") d ds h refl) refl refl
      (trim_behind_spaces d ds h)

device_secret_parts :
    (fields : Fields) (d : ℕ) (ds : Text)
    → all is_hex (d ∷ ds) ≡ true
    → read_line fields (text_of "device_secret " ++ (d ∷ ds)) ≡ read_device_secret fields (d ∷ ds)
unfolding read_field split_key trim_start is_whitespace
device_secret_parts fields d ds h =
    read_line_parts fields _ (text_of "device_secret") (d ∷ ds) (d ∷ ds)
      (trim_behind_word (text_of "device_secret ") d ds h refl) refl refl (trim_hex (d ∷ ds) h)

cipher_id_parts :
    (fields : Fields) (d : ℕ) (ds : Text)
    → all is_hex (d ∷ ds) ≡ true
    → read_line fields (text_of "cipher_id     " ++ (d ∷ ds)) ≡ read_cipher_id fields (d ∷ ds)
unfolding read_field split_key trim_start is_whitespace
cipher_id_parts fields d ds h =
    read_line_parts fields _ (text_of "cipher_id") _ (d ∷ ds)
      (trim_behind_word (text_of "cipher_id     ") d ds h refl) refl refl
      (trim_behind_spaces d ds h)

-- The two bytes of a layout, with the space between them.
abbrev pub pair_text : ℕ → ℕ → Text
pair_text f v = hex2 f ++ (b' ' ∷ hex2 v)

trim_pair :
    (f v : ℕ) → f < 256 → v < 256 → trim (text_of "       " ++ pair_text f v) ≡ pair_text f v
unfolding trim trim_start is_whitespace
trim_pair f v hf hv =
    rw
      (trim_start-cons _ (hex_digit (f % 16) ∷ b' ' ∷ hex2 v)
        (hex_digit-is_hex (f / 16) (omega arith)))
      (trim_end_append (hex2 f ++ (b' ' ∷ [])) _ _ (hex2-is_hex v hv))

layout_parts :
    (fields : Fields) (f v : ℕ)
    → f < 256
    → v < 256
    → read_line fields (text_of "layout        " ++ pair_text f v)
      ≡ add_layout fields (pair_text f v)
unfolding read_field split_key trim_start is_whitespace
layout_parts fields f v hf hv =
    read_line_parts fields _ (text_of "layout") _ (pair_text f v)
      (trim_behind_word (text_of "layout        " ++ (hex2 f ++ (b' ' ∷ []))) _ _ (hex2-is_hex v hv)
        refl)
      refl refl (trim_pair f v hf hv)

pub u32_to_be-IsByte : (n : ℕ) → All IsByte (u32_to_be n)
u32_to_be-IsByte n = (omega arith, (omega arith, (omega arith, (omega arith, tt))))

-- The fields that the printed lines set.
pub read_line-sender_id :
    (fields : Fields) (n : ℕ)
    → n < 2 ^ 32
    → read_line fields (text_of "sender_id     " ++ hex_text (u32_to_be n))
      ≡ done (record fields { sender_id = some n })
unfolding hex_text
read_line-sender_id fields n h =
    sender_id_parts fields _ _ (hex_text-is_hex (u32_to_be n) (u32_to_be-IsByte n))
    ∙ (unfold read_sender_id in rw (from_str_radix-hex_text n h) refl)

-- The digits of bytes are in lower case as they stand.
to_lower_hex_text : (s : Text) → all is_hex s ≡ true → to_lower s ≡ s
to_lower_hex_text [] h = refl
to_lower_hex_text (c ∷ cs) h = ground (arith, to_lower_hex_text cs)

pub parse_hex_bytes-hex_text :
    (bytes : Bytes) → All IsByte bytes → parse_hex_bytes (hex_text bytes) ≡ some bytes
parse_hex_bytes-hex_text bytes h =
    let digits = to_lower_hex_text (hex_text bytes) (hex_text-is_hex bytes h) in
    (parse_hex_bytes_iff (hex_text bytes) bytes).1 (digits, h)

pub read_line-device_secret :
    (fields : Fields) (bytes : Bytes)
    → All IsByte bytes
    → length bytes ≡ 32
    → read_line fields (text_of "device_secret " ++ hex_text bytes)
      ≡ done (record fields { device_secret = some bytes })
unfolding hex_text read_device_secret
read_line-device_secret fields [] h n = absurd (omega arith)
read_line-device_secret fields (b ∷ bytes) h n =
    let digits = hex_text-is_hex (b ∷ bytes) h in
    let arr : exactly_32 (b ∷ bytes) ≡ some (b ∷ bytes) = ground arith in
    device_secret_parts fields _ _ digits ∙ rw (parse_hex_bytes-hex_text (b ∷ bytes) h, arr) refl

pub read_line-cipher_id :
    (fields : Fields) (b : ℕ)
    → b < 256
    → read_line fields (text_of "cipher_id     " ++ hex2 b)
      ≡ done (record fields { cipher_id = some b })
read_line-cipher_id fields b h =
    cipher_id_parts fields _ _ (hex2-is_hex b h)
    ∙ (unfold read_cipher_id in rw (from_str_radix-hex2 b h) refl)

pub read_line-layout :
    (fields : Fields) (f v : ℕ)
    → f < 256
    → v < 256
    → read_line fields (text_of "layout        " ++ pair_text f v)
      ≡ done (record fields { layouts = fields.layouts ++ ((f, v) ∷ []) })
unfolding add_layout read_layout
read_line-layout fields f v hf hv =
    layout_parts fields f v hf hv
    ∙ rw (split_whitespace_two f v hf hv, from_str_radix-hex2 f hf, from_str_radix-hex2 v hv) refl
