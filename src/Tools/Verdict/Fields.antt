-- ===== src/Tools/Verdict/Fields.antt =====
-- tools/src/bin/conformance_iut.rs: the fields that the generator writes are read back.
use catp.Base.{ℕ, ◌<◌, ◌≡◌, refl, true, some, [], ◌∷◌, All, arith}
use catp.Base.Text.{Text, hex_text, hex2}
use catp.Base.Text.Decimal.{to_decimal, is_digit, decimal_digits-digits, decimal_digits-nonempty}
use catp.Base.Text.Laws.{all, from_str_radix-hex2}
use catp.Base.Words.{Bytes, IsByte}
use catp.Tools.Json.{is_number_char}
use catp.Tools.Vectors.Line.{bare, IsValue}
use catp.Tools.Verdict.{unhex}

pub unhex-hex_text : (bytes : Bytes) → All IsByte bytes → unhex (hex_text bytes) ≡ some bytes
unfolding unhex hex_text
unhex-hex_text [] h = refl
unhex-hex_text (b ∷ bytes) (h, hs) = rw (from_str_radix-hex2 b h, unhex-hex_text bytes hs) refl

pub unhex-hex2 : (b : ℕ) → b < 256 → unhex (hex2 b) ≡ some (b ∷ [])
unfolding unhex
unhex-hex2 b h = rw (from_str_radix-hex2 b h) refl

all_digits-number : (s : Text) → all is_digit s ≡ true → all is_number_char s ≡ true
all_digits-number [] h = refl
all_digits-number (c ∷ s) h = ground (arith, all_digits-number s)

-- A number in decimal is a value as the generator writes it.
pub to_decimal-IsValue : (n : ℕ) → IsValue (bare (to_decimal n))
to_decimal-IsValue n =
    let (c, cs, e, digit) = decimal_digits-nonempty 19 n in
    (
      (λ none_left. let k = rw e at none_left in cc),
      all_digits-number (to_decimal n) (decimal_digits-digits 19 n),
    )
