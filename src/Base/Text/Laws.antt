-- ===== src/Base/Text/Laws.antt =====
-- The methods of `str` on texts made of hex digits and of fixed words: their lines, their trimmed
-- form, their parts and their values.
use Prim.Native.Nat.{ℕ, ◌+◌, ◌*◌, ◌/◌, ◌%◌, ◌^◌, ◌-◌, ◌<◌, ◌≤◌}
use mathlib.Core.Bool.{Bool, true, false, ◌&&◌, ◌||◌}
use mathlib.Core.List.{List, [], ◌∷◌, ◌++◌}
use mathlib.Core.Option.{some}
use mathlib.Core.Path.{◌≡◌, refl, ap, ◌∙◌}
use native.Mathlib.Omega.{arith}
use catp.Base.Lists.{All}
use catp.Base.Tests.{leb, ◌==◌, not}
use catp.Base.Words.{IsByte, u32_to_be}
use catp.Base.Text.{
  Text, is_whitespace, trim_start, keep, trim_end, trim, split, not_empty, split_whitespace,
  to_digit, read_digits, strip_plus, from_str_radix, hex_digit, hex2, hex_text,
}

abbrev pub all : (ℕ → Bool) → Text → Bool
all p [] = true
all p (c ∷ cs) = p c && all p cs

abbrev pub in_line : ℕ → Bool
in_line c = not (c == b'\n') && not (c == b'\r')

abbrev pub is_hex : ℕ → Bool
is_hex c = leb b'0' c && leb c b'9' || leb b'a' c && leb c b'f'

pub all-append :
    (p : ℕ → Bool) (xs ys : Text) → all p xs ≡ true → all p ys ≡ true → all p (xs ++ ys) ≡ true
all-append p [] ys h k = k
all-append p (x ∷ xs) ys h k = ground (arith, all-append p xs ys)

pub hex_digit-is_hex : (d : ℕ) → d < 16 → is_hex (hex_digit d) ≡ true
hex_digit-is_hex d h = ground arith

pub hex2-is_hex : (b : ℕ) → b < 256 → all is_hex (hex2 b) ≡ true
hex2-is_hex b h =
    ground (arith, hex_digit-is_hex (b / 16) (omega arith), hex_digit-is_hex (b % 16) (omega arith))

pub hex_text-is_hex : (bytes : List ℕ) → All IsByte bytes → all is_hex (hex_text bytes) ≡ true
unfolding hex_text
hex_text-is_hex [] h = refl
hex_text-is_hex (b ∷ bytes) (h, hs) =
    all-append is_hex (hex2 b) (hex_text bytes) (hex2-is_hex b h) (hex_text-is_hex bytes hs)

is_hex-in_line : (c : ℕ) → is_hex c ≡ true → in_line c ≡ true
is_hex-in_line c h = ground arith

pub all-is_hex-in_line : (s : Text) → all is_hex s ≡ true → all in_line s ≡ true
all-is_hex-in_line [] h = refl
all-is_hex-in_line (c ∷ cs) h = ground (arith, is_hex-in_line c, all-is_hex-in_line cs)

pub is_hex-is_whitespace : (c : ℕ) → is_hex c ≡ true → is_whitespace c ≡ false
unfolding is_whitespace
is_hex-is_whitespace c h = ground arith

-- Trimming
pub trim_start_hex : (s : Text) → all is_hex s ≡ true → trim_start s ≡ s
unfolding trim_start
trim_start_hex [] h = refl
trim_start_hex (c ∷ cs) h = ground (arith, is_hex-is_whitespace c)

pub trim_start_space : (s : Text) → trim_start (b' ' ∷ s) ≡ trim_start s
unfolding trim_start is_whitespace
trim_start_space s = refl

pub trim_start_visible : (c : ℕ) (s : Text) → is_whitespace c ≡ false → trim_start (c ∷ s) ≡ c ∷ s
unfolding trim_start
trim_start_visible c s h = rw h refl

pub trim_start-cons : (c : ℕ) (s : Text) → is_hex c ≡ true → trim_start (c ∷ s) ≡ c ∷ s
trim_start-cons c s h = trim_start_visible c s (is_hex-is_whitespace c h)

trim_end_hex : (s : Text) → all is_hex s ≡ true → trim_end s ≡ s
unfolding trim_end
trim_end_hex [] h = refl
trim_end_hex (c ∷ []) h = ground (arith, is_hex-is_whitespace c)
trim_end_hex (c ∷ d ∷ cs) h = rw (trim_end_hex (d ∷ cs) (ground arith)) refl

pub trim_hex : (s : Text) → all is_hex s ≡ true → trim s ≡ s
unfolding trim
trim_hex s h = rw (trim_start_hex s h) (trim_end_hex s h)

-- A text that ends in a hex digit is not cut at its end.
keep_append :
    (c : ℕ) (xs : Text) (d : ℕ) (ds : Text) → keep c (xs ++ (d ∷ ds)) ≡ c ∷ (xs ++ (d ∷ ds))
keep_append c [] d ds = refl
keep_append c (x ∷ xs) d ds = refl

pub trim_end_append :
    (xs : Text) (d : ℕ) (ds : Text)
    → all is_hex (d ∷ ds) ≡ true
    → trim_end (xs ++ (d ∷ ds)) ≡ xs ++ (d ∷ ds)
unfolding trim_end
trim_end_append [] d ds h = trim_end_hex (d ∷ ds) h
trim_end_append (x ∷ xs) d ds h = ap (keep x) (trim_end_append xs d ds h) ∙ keep_append x xs d ds

pub trim_end_snoc :
    (xs : Text) (c : ℕ) → is_whitespace c ≡ false → trim_end (xs ++ (c ∷ [])) ≡ xs ++ (c ∷ [])
unfolding trim_end
trim_end_snoc [] c h = ground arith
trim_end_snoc (x ∷ xs) c h = ap (keep x) (trim_end_snoc xs c h) ∙ keep_append x xs c []

-- Parts
pub split_hex : (d : ℕ) (s : Text) → all is_hex (d ∷ s) ≡ true → split (d ∷ s) ≡ (d ∷ s) ∷ []
unfolding split
split_hex d [] h = ground (arith, is_hex-is_whitespace d)
split_hex d (e ∷ s) h = ground (arith, is_hex-is_whitespace d, split_hex e s)

-- Two words of two digits each.
split_space : (s : Text) → all is_hex s ≡ true → split (b' ' ∷ s) ≡ [] ∷ split s
unfolding split is_whitespace
split_space s h = refl

split-cons :
    (c : ℕ) (s word : Text) (more : List Text)
    → is_hex c ≡ true
    → split s ≡ word ∷ more
    → split (c ∷ s) ≡ (c ∷ word) ∷ more
unfolding split
split-cons c s word more h e = ground (arith, is_hex-is_whitespace c)

pub split_whitespace_two :
    (f v : ℕ)
    → f < 256
    → v < 256
    → split_whitespace (hex2 f ++ (b' ' ∷ hex2 v)) ≡ hex2 f ∷ hex2 v ∷ []
unfolding split_whitespace
split_whitespace_two f v hf hv = ap not_empty parts
  where
    v_hex : all is_hex (hex2 v) ≡ true
    v_hex = hex2-is_hex v hv

    behind : split (b' ' ∷ hex2 v) ≡ [] ∷ hex2 v ∷ []
    behind = split_space (hex2 v) v_hex ∙ ap (λ l. [] ∷ l) (split_hex _ _ v_hex)

    parts : split (hex2 f ++ (b' ' ∷ hex2 v)) ≡ hex2 f ∷ hex2 v ∷ []
    parts = split-cons (hex_digit (f / 16)) _ _ _ (hex_digit-is_hex (f / 16) (omega arith)) (
        split-cons (hex_digit (f % 16)) (b' ' ∷ hex2 v) [] _
          (hex_digit-is_hex (f % 16) (omega arith)) behind)

-- Values
to_digit-hex_digit : (d : ℕ) → d < 16 → to_digit (hex_digit d) ≡ some d
unfolding to_digit
to_digit-hex_digit d h = ground arith

read_digits-cons :
    (max value c d : ℕ) (rest : Text)
    → to_digit c ≡ some d
    → value * 16 + d ≤ max
    → read_digits max value (c ∷ rest) ≡ read_digits max (value * 16 + d) rest
unfolding read_digits
read_digits-cons max value c d rest e h = rw (read_digits, e) (ground arith)

-- One byte of a number that still fits.
pub read_digits-hex2 :
    (max value b : ℕ) (rest : Text)
    → b < 256
    → value * 256 + b ≤ max
    → read_digits max value (hex2 b ++ rest) ≡ read_digits max (value * 256 + b) rest
read_digits-hex2 max value b rest hb h =
    let whole : (value * 16 + b / 16) * 16 + b % 16 ≡ value * 256 + b = omega arith in
    read_digits-cons max value _ (b / 16) _ (to_digit-hex_digit (b / 16) (omega arith))
      (omega arith)
    ∙ read_digits-cons max _ _ (b % 16) rest (to_digit-hex_digit (b % 16) (omega arith))
        (omega arith)
    ∙ ap (λ n. read_digits max n rest) whole

strip_plus-hex_digit :
    (d : ℕ) (rest : Text) → d < 16 → strip_plus (hex_digit d ∷ rest) ≡ hex_digit d ∷ rest
strip_plus-hex_digit d rest h = ground arith

pub from_str_radix-hex2 : (b : ℕ) → b < 256 → from_str_radix 255 (hex2 b) ≡ some b
unfolding from_str_radix read_digits
from_str_radix-hex2 b h =
    rw (strip_plus-hex_digit (b / 16) _ (omega arith))
      (read_digits-hex2 255 0 b [] h (omega arith) ∙ ap some (omega arith))

pub from_str_radix-hex_text :
    (n : ℕ) → n < 2 ^ 32 → from_str_radix (2 ^ 32 - 1) (hex_text (u32_to_be n)) ≡ some n
unfolding from_str_radix hex_text
from_str_radix-hex_text n h = rw (strip_plus-hex_digit (n / 16777216 % 256 / 16) _ (omega arith)) (
    read_digits-hex2 _ 0 (n / 0x1000000 % 256) _ (omega arith) (omega arith)
    ∙ read_digits-hex2 _ _ (n / 0x10000 % 256) _ (omega arith) (omega arith)
    ∙ read_digits-hex2 _ _ (n / 0x100 % 256) _ (omega arith) (omega arith)
    ∙ read_digits-hex2 _ _ (n % 256) [] (omega arith) (omega arith)
    ∙ whole)
  where
    whole :
        read_digits
          (2 ^ 32 - 1)
          ((((0 * 256 + n / 0x1000000 % 256) * 256 + n / 0x10000 % 256) * 256 + n / 0x100 % 256)
              * 256
            + n % 256)
          []
        ≡ some n
    whole = unfold read_digits in ap some (omega arith)
