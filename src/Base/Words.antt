-- ===== src/Base/Words.antt =====
-- Rust's `from_be_bytes` and `to_be_bytes` on the widths of the program, `as` casts, and the fixed
-- width additions. An unsigned integer is the native number below its modulus; an i16 or an i64 is
-- an integer, read from its two's-complement bit pattern.
use catp.Base.Tests.{ltb, if◌then◌else◌}
use catp.Base.Lists.{get_or}
use catp.Base.Int.{ℤ, pos, negsuc}
use Prim.Native.Nat.{ℕ, ◌+◌, ◌-◌, ◌*◌, ◌/◌, ◌%◌, ◌^◌, ◌<◌}
use mathlib.Core.Path.{◌≡◌, ap, ◌∙◌}
use mathlib.Core.List.{List, [], ◌∷◌}
use native.Mathlib.Omega.{arith}

abbrev pub Bytes : Type 0
Bytes = List ℕ

abbrev pub IsByte : ℕ → Type 0
IsByte b = b < 256

abbrev pub shl : ℕ → ℕ → ℕ
shl x k = x * 2 ^ k

abbrev pub shr : ℕ → ℕ → ℕ
shr x k = x / 2 ^ k

abbrev pub as_u8 : ℕ → ℕ
as_u8 x = x % 2 ^ 8

abbrev pub as_u32 : ℕ → ℕ
as_u32 x = x % 2 ^ 32

abbrev pub u16_from_be : ℕ → ℕ → ℕ
u16_from_be a b = a * 256 + b

abbrev pub u16_to_be : ℕ → Bytes
u16_to_be n = (n / 256 % 256) ∷ (n % 256) ∷ []

abbrev pub u32_from_be : ℕ → ℕ → ℕ → ℕ → ℕ
u32_from_be a b c d = ((a * 256 + b) * 256 + c) * 256 + d

abbrev pub u32_to_be : ℕ → Bytes
u32_to_be n = (n / 0x1000000 % 256) ∷ (n / 0x10000 % 256) ∷ (n / 0x100 % 256) ∷ (n % 256) ∷ []

abbrev pub u64_to_be : ℕ → Bytes
u64_to_be n =
    (n / 2 ^ 56 % 256)
    ∷ (n / 2 ^ 48 % 256)
    ∷ (n / 2 ^ 40 % 256)
    ∷ (n / 2 ^ 32 % 256)
    ∷ u32_to_be (n % 2 ^ 32)

-- The integer that a two's-complement pattern of 16 bits stands for, and the pattern of one.
unfoldable pub i16_of_bits : ℕ → ℤ
i16_of_bits w = if ltb w (2 ^ 15) then pos w else negsuc (2 ^ 16 - w - 1)

unfoldable pub i16_to_bits : ℤ → ℕ
i16_to_bits (pos n) = n % 2 ^ 16
i16_to_bits (negsuc n) = 2 ^ 16 - n % 2 ^ 16 - 1

unfoldable pub i64_of_bits : ℕ → ℤ
i64_of_bits w = if ltb w (2 ^ 63) then pos w else negsuc (2 ^ 64 - w - 1)

unfoldable pub i64_to_bits : ℤ → ℕ
i64_to_bits (pos n) = n % 2 ^ 64
i64_to_bits (negsuc n) = 2 ^ 64 - n % 2 ^ 64 - 1

abbrev pub i16_from_be : ℕ → ℕ → ℤ
i16_from_be a b = i16_of_bits (u16_from_be a b)

abbrev pub i16_to_be : ℤ → Bytes
i16_to_be v = u16_to_be (i16_to_bits v)

abbrev pub i64_to_be : ℤ → Bytes
i64_to_be v = u64_to_be (i64_to_bits v)

-- The values that an i16 and an i64 can hold.
abbrev pub IsI16 : ℤ → Type 0
IsI16 (pos n) = n < 2 ^ 15
IsI16 (negsuc n) = n < 2 ^ 15

abbrev pub IsI64 : ℤ → Type 0
IsI64 (pos n) = n < 2 ^ 63
IsI64 (negsuc n) = n < 2 ^ 63

-- `saturating_add` and `saturating_mul` on u64, and the wrapping counter increment.
unfoldable pub saturate_u64 : ℕ → ℕ
saturate_u64 n = if ltb n (2 ^ 64) then n else 2 ^ 64 - 1

abbrev pub add_u64 : ℕ → ℕ → ℕ
add_u64 a b = (a + b) % 2 ^ 64

-- `+`, `-` and `*` on i64 in a release build, `saturating_add`, and the cast of an i64 to u32.
unfoldable pub wrap_i64 : ℤ → ℤ
unfolding i64_of_bits i64_to_bits
wrap_i64 v = i64_of_bits (i64_to_bits v)

unfoldable pub saturate_i64 : ℤ → ℤ
saturate_i64 (pos n) = if ltb n (2 ^ 63) then pos n else pos (2 ^ 63 - 1)
saturate_i64 (negsuc n) = if ltb n (2 ^ 63) then negsuc n else negsuc (2 ^ 63 - 1)

unfoldable pub i64_as_u32 : ℤ → ℕ
unfolding i64_to_bits
i64_as_u32 v = i64_to_bits v % 2 ^ 32

-- The i64 that 8 bytes stand for, from the most significant on.
unfoldable pub i64_from_be : Bytes → ℤ
unfolding i64_of_bits
i64_from_be p = i64_of_bits (
    u32_from_be (get_or p 0 0) (get_or p 1 0) (get_or p 2 0) (get_or p 3 0) * 2 ^ 32
    + u32_from_be (get_or p 4 0) (get_or p 5 0) (get_or p 6 0) (get_or p 7 0))

pub i16_bits_round : (v : ℤ) → IsI16 v → i16_of_bits (i16_to_bits v) ≡ v
unfolding i16_of_bits i16_to_bits
i16_bits_round (pos n) h = ground arith
i16_bits_round (negsuc n) h = ground arith

pub i16_to_bits-lt : (v : ℤ) → i16_to_bits v < 65536
unfolding i16_to_bits
i16_to_bits-lt (pos n) = omega arith
i16_to_bits-lt (negsuc n) = omega arith

pub i64_bits_round : (v : ℤ) → IsI64 v → i64_of_bits (i64_to_bits v) ≡ v
unfolding i64_of_bits i64_to_bits
i64_bits_round (pos n) h = ground arith
i64_bits_round (negsuc n) h = ground arith

pub i64_to_bits-lt : (v : ℤ) → i64_to_bits v < 2 ^ 64
unfolding i64_to_bits
i64_to_bits-lt (pos n) = omega arith
i64_to_bits-lt (negsuc n) = omega arith

pub u16_round : (n : ℕ) → n < 65536 → u16_from_be (n / 256 % 256) (n % 256) ≡ n
u16_round n h = omega arith

pub u32_round :
    (n : ℕ)
    → n < 2 ^ 32
    → u32_from_be (n / 0x1000000 % 256) (n / 0x10000 % 256) (n / 0x100 % 256) (n % 256) ≡ n
u32_round n h = omega arith

pub u64_round :
    (n : ℕ)
    → n < 2 ^ 64
    → u32_from_be (n / 2 ^ 56 % 256) (n / 2 ^ 48 % 256) (n / 2 ^ 40 % 256) (n / 2 ^ 32 % 256)
          * 2 ^ 32
        + u32_from_be
            (n % 2 ^ 32 / 0x1000000 % 256)
            (n % 2 ^ 32 / 0x10000 % 256)
            (n % 2 ^ 32 / 0x100 % 256)
            (n % 2 ^ 32 % 256)
      ≡ n
u64_round n h = omega arith

pub i64_from_be-i64_to_be : (v : ℤ) → IsI64 v → i64_from_be (i64_to_be v) ≡ v
unfolding i64_from_be
i64_from_be-i64_to_be v h =
    ap i64_of_bits (u64_round (i64_to_bits v) (i64_to_bits-lt v)) ∙ i64_bits_round v h
