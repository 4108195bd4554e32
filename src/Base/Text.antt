-- ===== src/Base/Text.antt =====
-- Rust's `str` as the list of its code points, with the methods of the standard library that the
-- program calls on it.
pub mod Laws
pub mod Lines
pub mod Decimal
use Prim.Native.Nat.{ℕ, zero, ◌+◌, ◌-◌, ◌*◌, ◌/◌, ◌%◌, ◌^◌}
use Prim.Native.Char.{code}
use Prim.Native.String.{String}
use mathlib.Core.Bool.{Bool, true, false, ◌&&◌, ◌||◌}
use mathlib.Core.List.{List, [], ◌∷◌, ◌++◌}
use mathlib.Core.Option.{Option, none, some}
use catp.Base.Tests.{ltb, leb, ◌==◌, not, if◌then◌else◌}

abbrev pub Text : Type 0
Text = List ℕ

abbrev pub text_of : String → Text
text_of String.[] = []
text_of (String.◌∷◌ ch more) = code ch ∷ text_of more

-- `==` of two texts.
abbrev pub same_text : Text → Text → Bool
same_text [] [] = true
same_text [] (d ∷ ds) = false
same_text (c ∷ cs) [] = false
same_text (c ∷ cs) (d ∷ ds) = (c == d) && same_text cs ds

-- `char::is_whitespace`, the code points with the property White_Space.
unfoldable pub is_whitespace : ℕ → Bool
is_whitespace c =
    leb 9 c && leb c 13
    || c == 0x20
    || c == 0x85
    || c == 0xa0
    || c == 0x1680
    || leb 0x2000 c && leb c 0x200a
    || c == 0x2028
    || c == 0x2029
    || c == 0x202f
    || c == 0x205f
    || c == 0x3000

-- The character put at the front of the first piece.
abbrev pub join : ℕ → List Text → List Text
join c [] = (c ∷ []) ∷ []
join c (piece ∷ pieces) = (c ∷ piece) ∷ pieces

-- `split_inclusive('\n')`
unfoldable pub split_inclusive : Text → List Text
split_inclusive [] = []
split_inclusive (c ∷ cs) =
    let rest = split_inclusive cs in if c == b'\n' then (c ∷ []) ∷ rest else join c rest

-- `strip_suffix` by one character.
abbrev pub strip_suffix : ℕ → Text → Option Text
strip_suffix mark [] = none
strip_suffix mark (c ∷ []) = if c == mark then some [] else none
strip_suffix mark (c ∷ d ∷ cs) = elim (strip_suffix mark (d ∷ cs)) [
  | none ↦ none
  | some front ↦ some (c ∷ front)
]

abbrev pub chomp : Text → Text
chomp line = elim (strip_suffix b'\n' line) [
  | none ↦ line
  | some front ↦ elim (strip_suffix b'\r' front) [ none ↦ front | some bare ↦ bare ]
]

abbrev pub each {ℓ κ} : {A : Type ℓ} {B : Type κ} → (A → B) → List A → List B
each f [] = []
each f (x ∷ xs) = f x ∷ each f xs

unfoldable pub lines : Text → List Text
lines s = each chomp (split_inclusive s)

unfoldable pub trim_start : Text → Text
trim_start [] = []
trim_start (c ∷ cs) = let rest = trim_start cs in if is_whitespace c then rest else c ∷ cs

-- A character in front of a text that is cut at its end.
abbrev pub keep : ℕ → Text → Text
keep c [] = if is_whitespace c then [] else c ∷ []
keep c (d ∷ ds) = c ∷ d ∷ ds

unfoldable pub trim_end : Text → Text
trim_end [] = []
trim_end (c ∷ cs) = keep c (trim_end cs)

unfoldable pub trim : Text → Text
trim s = trim_end (trim_start s)

-- `splitn(2, char::is_whitespace)`: the first part, and the second or an empty one.
unfoldable pub split_key : Text → Text × Text
split_key [] = ([], [])
split_key (c ∷ cs) =
    let (key, rest) = split_key cs in if is_whitespace c then ([], cs) else (c ∷ key, rest)

-- `split_whitespace`: the parts between whitespace that are not empty.
unfoldable pub split : Text → List Text
split [] = [] ∷ []
split (c ∷ cs) = let rest = split cs in if is_whitespace c then [] ∷ rest else join c rest

abbrev pub not_empty : List Text → List Text
not_empty [] = []
not_empty ([] ∷ parts) = not_empty parts
not_empty ((c ∷ cs) ∷ parts) = (c ∷ cs) ∷ not_empty parts

unfoldable pub split_whitespace : Text → List Text
split_whitespace s = not_empty (split s)

-- `char::to_digit(16)`
unfoldable pub to_digit : ℕ → Option ℕ
to_digit c =
    if leb b'0' c && leb c b'9'
    then some (c - b'0')
    else if leb b'a' c && leb c b'f'
    then some (c - b'a' + 10)
    else if leb b'A' c && leb c b'F'
    then some (c - b'A' + 10)
    else none

-- `from_str_radix(_, 16)` of an unsigned type with the greatest value `max`.
unfoldable pub read_digits : ℕ → ℕ → Text → Option ℕ
read_digits max value [] = some value
read_digits max value (c ∷ cs) = elim (to_digit c) [
  | none ↦ none
  | some d ↦
      let more = read_digits max (value * 16 + d) cs in
      if ltb max (value * 16 + d) then none else more
]

abbrev pub strip_plus : Text → Text
strip_plus [] = []
strip_plus (c ∷ cs) = if c == b'+' then cs else c ∷ cs

abbrev pub some_digits : ℕ → Text → Option ℕ
some_digits max [] = none
some_digits max (c ∷ cs) = read_digits max 0 (c ∷ cs)

unfoldable pub from_str_radix : ℕ → Text → Option ℕ
from_str_radix max s = some_digits max (strip_plus s)

abbrev pub u32_from_hex : Text → Option ℕ
u32_from_hex = from_str_radix (2 ^ 32 - 1)

abbrev pub u8_from_hex : Text → Option ℕ
u8_from_hex = from_str_radix 255

-- `as_bytes`: the UTF-8 encoding.
abbrev pub utf8 : ℕ → List ℕ
utf8 c =
    if ltb c 0x80
    then c ∷ []
    else if ltb c 0x800
    then (0xc0 + c / 64) ∷ (0x80 + c % 64) ∷ []
    else if ltb c 0x10000
    then (0xe0 + c / 4096) ∷ (0x80 + c / 64 % 64) ∷ (0x80 + c % 64) ∷ []
    else (0xf0 + c / 262144) ∷ (0x80 + c / 4096 % 64) ∷ (0x80 + c / 64 % 64) ∷ (0x80 + c % 64) ∷ []

unfoldable pub as_bytes : Text → List ℕ
as_bytes [] = []
as_bytes (c ∷ cs) = utf8 c ++ as_bytes cs

-- `{:x}` of a digit, `{:02x}` of a u8, and the digits of a run of bytes.
abbrev pub hex_digit : ℕ → ℕ
hex_digit d = if ltb d 10 then b'0' + d else b'a' + (d - 10)

abbrev pub hex2 : ℕ → Text
hex2 b = hex_digit (b / 16) ∷ hex_digit (b % 16) ∷ []

unfoldable pub hex_text : List ℕ → Text
hex_text [] = []
hex_text (b ∷ bytes) = hex2 b ++ hex_text bytes
