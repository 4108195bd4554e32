-- ===== src/Provisioning/RoundTrip.antt =====
-- src/provisioning.rs, `Bundle::to_text` and `Bundle::parse` together.
use mathlib.Core.List.{append-nil, append_assoc}
use catp.Base.{ℕ, ◌^◌, ◌<◌, ◌≡◌, refl, ◌∙◌, true, some, List, [], ◌∷◌, ◌++◌, length, All}
use catp.Base.Text.{
  Text, text_of, hex2, hex_text, lines, split_inclusive, trim, trim_end, trim_start, is_whitespace,
}
use catp.Base.Text.Laws.{
  all, all-append, in_line, is_hex, hex2-is_hex, hex_text-is_hex, all-is_hex-in_line,
}
use catp.Base.Text.Lines.{lines-cons}
use catp.Base.Words.{IsByte, u32_to_be}
use catp.Provisioning.{Bundle, to_text, layout_lines, header_comment}
use catp.Provisioning.Parse.{done, Fields, no_fields, read_line, read_lines, finish, parse}
use catp.Provisioning.Print.{
  pair_text, u32_to_be-IsByte, read_line-sender_id, read_line-device_secret, read_line-cipher_id,
  read_line-layout,
}

-- The widths of the struct's fields.
pub record IsBundle (b : Bundle) : Type 0 where
  pub sender_id_lt : b.sender_id < 2 ^ 32
  pub secret_bytes : All IsByte b.device_secret
  pub secret_length : length b.device_secret ≡ 32
  pub cipher_id_lt : b.cipher_id < 256
  pub layout_bytes : All (λ (pair : ℕ × ℕ). IsByte pair.0 × IsByte pair.1) b.layouts

-- The printed text is made of lines, each with one round of the loop.
read_printed :
    (fields next : Fields) (line rest : Text)
    → all in_line line ≡ true
    → read_line fields line ≡ done next
    → read_lines fields (lines (line ++ (b'\n' ∷ rest))) ≡ read_lines next (lines rest)
unfolding read_lines
read_printed fields next line rest h e = rw (lines-cons line rest h) (rw e refl)

in_line_digits :
    (word : Text) (digits : Text)
    → all in_line word ≡ true
    → all is_hex digits ≡ true
    → all in_line (word ++ digits) ≡ true
in_line_digits word digits h k = all-append in_line word digits h (all-is_hex-in_line digits k)

read_layouts :
    (fields : Fields) (layouts : List (ℕ × ℕ))
    → All (λ (pair : ℕ × ℕ). IsByte pair.0 × IsByte pair.1) layouts
    → read_lines fields (lines (layout_lines layouts))
      ≡ done (record fields { layouts = fields.layouts ++ layouts })
unfolding layout_lines
read_layouts fields [] h =
    unfold read_lines lines split_inclusive in rw (append-nil fields.layouts) refl
read_layouts fields ((f, v) ∷ layouts) ((hf, hv), h) =
    let line : Text = text_of "layout        " ++ pair_text f v in
    let printed : all in_line line ≡ true =
      in_line_digits (text_of "layout        " ++ (hex2 f ++ (b' ' ∷ []))) (hex2 v)
        (all-append in_line (text_of "layout        ") (hex2 f ++ (b' ' ∷ [])) refl (
          all-append in_line (hex2 f) (b' ' ∷ []) (all-is_hex-in_line (hex2 f) (hex2-is_hex f hf))
            refl))
        (hex2-is_hex v hv) in
    read_printed fields _ line (layout_lines layouts) printed (read_line-layout fields f v hf hv)
    ∙ read_layouts _ layouts h
    ∙ rw (append_assoc fields.layouts ((f, v) ∷ []) layouts) refl

read_line-header : (fields : Fields) → read_line fields header_comment ≡ done fields
unfolding read_line trim trim_end trim_start is_whitespace
read_line-header fields = refl

-- The fields after each printed line.
module _ (b : Bundle) where
  abbrev with_id : Fields
  with_id = record no_fields { sender_id = some b.sender_id }

  abbrev with_secret : Fields
  with_secret = record with_id { device_secret = some b.device_secret }

  abbrev with_cipher : Fields
  with_cipher = record with_secret { cipher_id = some b.cipher_id }

  cipher_text : Text
  cipher_text = text_of "cipher_id     " ++ (hex2 b.cipher_id ++ (b'\n' ∷ layout_lines b.layouts))

  secret_text : Text
  secret_text = text_of "device_secret " ++ (hex_text b.device_secret ++ (b'\n' ∷ cipher_text))

  id_text : Text
  id_text = text_of "sender_id     " ++ (hex_text (u32_to_be b.sender_id) ++ (b'\n' ∷ secret_text))

  read_lines-to_text :
      IsBundle b
      → read_lines no_fields (lines (to_text b)) ≡ done (record with_cipher { layouts = b.layouts })
  unfolding to_text cipher_text secret_text id_text
  read_lines-to_text v =
      let word_id = text_of "sender_id     " in
      let word_secret = text_of "device_secret " in
      let word_cipher = text_of "cipher_id     " in
      let digits = hex_text (u32_to_be b.sender_id) in
      read_printed no_fields no_fields header_comment id_text refl (read_line-header no_fields)
      ∙ read_printed no_fields with_id (word_id ++ digits) secret_text
          (in_line_digits word_id digits refl (hex_text-is_hex _ (u32_to_be-IsByte b.sender_id)))
          (read_line-sender_id no_fields b.sender_id v.sender_id_lt)
      ∙ read_printed with_id with_secret (word_secret ++ hex_text b.device_secret) cipher_text
          (in_line_digits word_secret (hex_text b.device_secret) refl
            (hex_text-is_hex _ v.secret_bytes))
          (read_line-device_secret with_id b.device_secret v.secret_bytes v.secret_length)
      ∙ read_printed with_secret with_cipher (word_cipher ++ hex2 b.cipher_id)
          (layout_lines b.layouts)
          (in_line_digits word_cipher (hex2 b.cipher_id) refl
            (hex2-is_hex b.cipher_id v.cipher_id_lt))
          (read_line-cipher_id with_secret b.cipher_id v.cipher_id_lt)
      ∙ read_layouts with_cipher b.layouts v.layout_bytes

-- For a bundle whose values have the widths of its fields: it is read back from the text that it
-- prints, field for field and with its layouts in order.
pub parse-to_text : (b : Bundle) → IsBundle b → parse (to_text b) ≡ done b
unfolding parse
parse-to_text b v = rw (read_lines-to_text b v) (unfold finish in refl)
