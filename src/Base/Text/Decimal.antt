-- ===== src/Base/Text/Decimal.antt =====
-- `to_string` and `parse` of the integers, in decimal.
use Prim.Native.Nat.{ℕ, zero, suc, ◌+◌, ◌-◌, ◌*◌, ◌/◌, ◌%◌, ◌^◌, ◌<◌, ◌≤◌}
use mathlib.Core.Bool.{Bool, true, false, ◌&&◌}
use mathlib.Core.List.{[], ◌∷◌, ◌++◌}
use mathlib.Core.Logic.{inl, inr}
use mathlib.Core.Option.{Option, none, some}
use mathlib.Core.Path.{◌≡◌, refl, ap, ◌∙◌}
use native.Mathlib.Nat.{pow-suc}
use native.Mathlib.Omega.{arith}
use catp.Base.Int.{ℤ, pos, negsuc}
use catp.Base.Tests.{leb, ltb, ◌==◌, if◌then◌else◌, Bool-cases}
use catp.Base.Text.{Text, strip_plus}
use catp.Base.Text.Laws.{all, all-append}

-- At most `fuel + 1` digits; 19 rounds are enough for 64 bits.
unfoldable pub decimal_digits : ℕ → ℕ → Text
decimal_digits zero n = (b'0' + n % 10) ∷ []
decimal_digits (suc fuel) n =
    let front = decimal_digits fuel (n / 10) in
    if ltb n 10 then (b'0' + n) ∷ [] else front ++ ((b'0' + n % 10) ∷ [])

abbrev pub to_decimal : ℕ → Text
to_decimal n = decimal_digits 19 n

abbrev pub int_to_decimal : ℤ → Text
int_to_decimal (pos n) = to_decimal n
int_to_decimal (negsuc n) = b'-' ∷ to_decimal (n + 1)

abbrev pub is_digit : ℕ → Bool
is_digit c = leb b'0' c && leb c b'9'

-- The checked loop of `from_str_radix(_, 10)`.
unfoldable pub read_decimal : ℕ → ℕ → Text → Option ℕ
read_decimal max value [] = some value
read_decimal max value (c ∷ cs) =
    let next = value * 10 + (c - b'0') in
    let more = read_decimal max next cs in if is_digit c && leb next max then more else none

abbrev pub some_decimal : ℕ → Text → Option ℕ
some_decimal max [] = none
some_decimal max (c ∷ cs) = read_decimal max 0 (c ∷ cs)

-- `str::parse` into an unsigned type with the greatest value `max`.
unfoldable pub parse_unsigned : ℕ → Text → Option ℕ
parse_unsigned max s = some_decimal max (strip_plus s)

abbrev pub parse_u32 : Text → Option ℕ
parse_u32 = parse_unsigned (2 ^ 32 - 1)

-- `str::parse` into an i64.
abbrev pub negated : ℕ → ℤ
negated zero = pos 0
negated (suc n) = negsuc n

unfoldable pub parse_i64 : Text → Option ℤ
parse_i64 [] = none
parse_i64 (c ∷ cs) =
    if c == b'-'
    then elim (some_decimal (2 ^ 63) cs) [ none ↦ none | some n ↦ some (negated n) ]
    else elim (parse_unsigned (2 ^ 63 - 1) (c ∷ cs)) [ none ↦ none | some n ↦ some (pos n) ]

read_decimal-snoc :
    (max value c n : ℕ) (s : Text)
    → read_decimal max value s ≡ some n
    → is_digit c ≡ true
    → n * 10 + (c - b'0') ≤ max
    → read_decimal max value (s ++ (c ∷ [])) ≡ some (n * 10 + (c - b'0'))
unfolding read_decimal
read_decimal-snoc max value c n [] h k small = ground arith
read_decimal-snoc max value c n (d ∷ s) h k small =
    ground (arith, read_decimal-snoc max (value * 10 + (d - b'0')) c n s)

read_decimal_single : (max n : ℕ) → n < 10 → n ≤ max → read_decimal max 0 ((b'0' + n) ∷ []) ≡ some n
unfolding read_decimal
read_decimal_single max n h k = ground arith

pub read_decimal-decimal_digits :
    (fuel max n : ℕ)
    → n < 10 ^ suc fuel
    → n ≤ max
    → read_decimal max 0 (decimal_digits fuel n) ≡ some n
unfolding decimal_digits
read_decimal-decimal_digits zero max n h k =
    let whole : n % 10 ≡ n = omega arith in rw whole (read_decimal_single max n (omega arith) k)
read_decimal-decimal_digits (suc fuel) max n h k = elim (Bool-cases (ltb n 10)) [
  | inl small ↦ rw small (read_decimal_single max n (ground arith) k)
  | inr large ↦
      let front =
        read_decimal-decimal_digits fuel max (n / 10) (omega (arith, pow-suc 10 (suc fuel)))
          (omega arith) in
      let whole : n / 10 * 10 + (b'0' + n % 10 - b'0') ≡ n = omega arith in
      rw large (
        read_decimal-snoc max 0 (b'0' + n % 10) (n / 10) _ front (ground arith) (omega arith)
        ∙ ap some whole)
]

pub decimal_digits-digits : (fuel n : ℕ) → all is_digit (decimal_digits fuel n) ≡ true
unfolding decimal_digits
decimal_digits-digits zero n = ground arith
decimal_digits-digits (suc fuel) n = elim (Bool-cases (ltb n 10)) [
  | inl small ↦ rw small (ground arith)
  | inr large ↦ rw large (
      all-append is_digit (decimal_digits fuel (n / 10)) _ (decimal_digits-digits fuel (n / 10))
        (ground arith))
]

pub decimal_digits-nonempty :
    (fuel n : ℕ) → (c : ℕ) × (cs : Text) × (decimal_digits fuel n ≡ c ∷ cs) × (is_digit c ≡ true)
unfolding decimal_digits
decimal_digits-nonempty zero n = (b'0' + n % 10, [], refl, ground arith)
decimal_digits-nonempty (suc fuel) n = elim (Bool-cases (ltb n 10)) [
  | inl small ↦ (b'0' + n, [], rw small refl, ground arith)
  | inr large ↦
      let (c, cs, e, k) = decimal_digits-nonempty fuel (n / 10) in
      (c, cs ++ ((b'0' + n % 10) ∷ []), rw (large, e) refl, k)
]

-- What is printed in decimal is read back.
pub parse_unsigned-to_decimal :
    (max n : ℕ) → n < 10 ^ 20 → n ≤ max → parse_unsigned max (to_decimal n) ≡ some n
unfolding parse_unsigned
parse_unsigned-to_decimal max n h k =
    let (c, cs, e, digit) = decimal_digits-nonempty 19 n in
    let bare : strip_plus (c ∷ cs) ≡ c ∷ cs = ground arith in
    let read = read_decimal-decimal_digits 19 max n h k in rw (e, bare) (rw e at read)

pub parse_i64-to_decimal : (n : ℕ) → n < 2 ^ 63 → parse_i64 (to_decimal n) ≡ some (pos n)
unfolding parse_i64
parse_i64-to_decimal n h =
    let (c, cs, e, digit) = decimal_digits-nonempty 19 n in
    let sign : (c == b'-') ≡ false = ground arith in
    let read = parse_unsigned-to_decimal (2 ^ 63 - 1) n (omega arith) (omega arith) in
    rw (e, sign) (rw (rw e at read) refl)
