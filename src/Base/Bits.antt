-- ===== src/Base/Bits.antt =====
-- The bit operations `&` and `|` at variables: the law for the lowest binary digit, and from it the
-- masks, the disjoint sums and the single bits that the program uses.
use Prim.Native.Nat.{
  ℕ, zero, suc, ◌+◌, ◌-◌, ◌*◌, ◌/◌, ◌%◌, ◌^◌, ◌≤◌, ◌<◌, min, max, bit_and, bit_or, digits,
  bit_and-bitwise, bit_or-bitwise,
}
use mathlib.Core.Path.{◌≡◌, refl, sym, ap, ◌∙◌}
use mathlib.Core.Logic.{◌≢◌}
use native.Mathlib.Nat.{
  pow-suc, one-le-pow, add-mul-mod_self_left, mod-eq_of_lt, mod-lt, div-add-mod,
}
use native.Mathlib.Omega.{arith}

-- The rounds that `digits` is given are fuel: any number from the first operand on will do.
module _ (stop : ℕ → ℕ) (bit : ℕ → ℕ → ℕ) where
  digits_enough : (k l a b : ℕ) → a ≤ k → a ≤ l → digits stop bit k a b ≡ digits stop bit l a b
  digits_enough zero zero a b hk hl = refl
  digits_enough zero (suc l) zero b hk hl = refl
  digits_enough zero (suc l) (suc a) b hk hl = absurd (omega arith)
  digits_enough (suc k) zero zero b hk hl = refl
  digits_enough (suc k) zero (suc a) b hk hl = absurd (omega arith)
  digits_enough (suc k) (suc l) zero b hk hl = refl
  digits_enough (suc k) (suc l) (suc a) b hk hl =
      omega (arith, digits_enough k l (suc a / 2) (b / 2) (omega arith) (omega arith))

pub bit_and_low : (a b : ℕ) → bit_and a b ≡ bit_and (a / 2) (b / 2) * 2 + min (a % 2) (b % 2)
bit_and_low zero b = omega (arith, bit_and-bitwise 0 b, bit_and-bitwise 0 (b / 2))
bit_and_low (suc a) b = omega (
  arith,
  bit_and-bitwise (suc a) b,
  bit_and-bitwise (suc a / 2) (b / 2),
  digits_enough (λ _. zero) min a (suc a / 2) (suc a / 2) (b / 2) (omega arith) (omega arith),
)

pub bit_or_low : (a b : ℕ) → bit_or a b ≡ bit_or (a / 2) (b / 2) * 2 + max (a % 2) (b % 2)
bit_or_low zero b = omega (arith, bit_or-bitwise 0 b, bit_or-bitwise 0 (b / 2))
bit_or_low (suc a) b = omega (
  arith,
  bit_or-bitwise (suc a) b,
  bit_or-bitwise (suc a / 2) (b / 2),
  digits_enough (λ y. y) max a (suc a / 2) (suc a / 2) (b / 2) (omega arith) (omega arith),
)

pub bit_or_zero : (b : ℕ) → bit_or 0 b ≡ b
bit_or_zero b = omega (arith, bit_or-bitwise 0 b)

pub bit_and-zero_left : (b : ℕ) → bit_and 0 b ≡ 0
bit_and-zero_left b = omega (arith, bit_and-bitwise 0 b)

bit_and-zero_below : (n a : ℕ) → a ≤ n → bit_and a 0 ≡ 0
bit_and-zero_below zero a h = let e : a ≡ 0 = omega arith in rw e refl
bit_and-zero_below (suc n) a h = ground (arith, bit_and_low a 0, bit_and-zero_below n (a / 2))

pub bit_and-zero_right : (a : ℕ) → bit_and a 0 ≡ 0
bit_and-zero_right a = bit_and-zero_below a a (omega arith)

bit_or-zero_below : (n a : ℕ) → a ≤ n → bit_or a 0 ≡ a
bit_or-zero_below zero a h = let e : a ≡ 0 = omega arith in rw e refl
bit_or-zero_below (suc n) a h = ground (arith, bit_or_low a 0, bit_or-zero_below n (a / 2))

pub bit_or-zero_right : (a : ℕ) → bit_or a 0 ≡ a
bit_or-zero_right a = bit_or-zero_below a a (omega arith)

-- `x & (2^k - 1)`, for the masks of the program.
abbrev ones : ℕ → ℕ
ones zero = 0
ones (suc k) = ones k * 2 + 1

abbrev two_to : ℕ → ℕ
two_to zero = 1
two_to (suc k) = two_to k * 2

two_to-pos : (k : ℕ) → 0 < two_to k
two_to-pos zero = omega arith
two_to-pos (suc k) = omega (arith, two_to-pos k)

digit_mod : (a m : ℕ) → 0 < m → a / 2 % m * 2 + a % 2 ≡ a % (m * 2)
digit_mod a m h =
    let x : ℕ = a / 2 % m * 2 + a % 2 in
    let split : a ≡ x + m * 2 * (a / 2 / m) = omega (arith, div-add-mod (a / 2) m) in
    sym (
      ap (λ t. t % (m * 2)) split
      ∙ add-mul-mod_self_left x (m * 2) (a / 2 / m)
      ∙ mod-eq_of_lt (omega (arith, mod-lt (a / 2) h)))

mask-mod : (k a : ℕ) → bit_and a (ones k) ≡ a % two_to k
mask-mod zero a = omega (arith, bit_and-zero_right a)
mask-mod (suc k) a = ground (
  arith,
  bit_and_low a (ones k * 2 + 1),
  mask-mod k (a / 2),
  digit_mod a (two_to k) (two_to-pos k),
)

pub and_0x07 : (a : ℕ) → bit_and a 0x07 ≡ a % 8
and_0x07 a = mask-mod 3 a

pub and_0x0f : (a : ℕ) → bit_and a 0x0f ≡ a % 16
and_0x0f a = mask-mod 4 a

pub and_0x1f : (a : ℕ) → bit_and a 0x1f ≡ a % 32
and_0x1f a = mask-mod 5 a

pub and_0xff : (a : ℕ) → bit_and a 0xff ≡ a % 256
and_0xff a = mask-mod 8 a

pub and_0xfff : (a : ℕ) → bit_and a 0xfff ≡ a % 4096
and_0xfff a = mask-mod 12 a

pub and_0x7ffff : (a : ℕ) → bit_and a 0x7ffff ≡ a % 524288
and_0x7ffff a = mask-mod 19 a

-- `x & 0xF0` keeps the high nibble of a byte.
pub and_0xf0 : (a : ℕ) → bit_and a 0xf0 ≡ a % 256 / 16 * 16
and_0xf0 a = omega (
  arith,
  bit_and_low a 0xf0,
  bit_and_low (a / 2) 0x78,
  bit_and_low (a / 2 / 2) 0x3c,
  bit_and_low (a / 2 / 2 / 2) 0x1e,
  and_0x0f (a / 2 / 2 / 2 / 2),
)

-- `(q << k) | r` is a sum where `r` has at most `k` bits.
pub bit_or_sum : (k q r : ℕ) → r < two_to k → bit_or (q * two_to k) r ≡ q * two_to k + r
bit_or_sum zero q r h = ground (arith, bit_or-zero_right q)
bit_or_sum (suc k) q r h = ground (arith, bit_or_low (q * two_to k * 2) r, bit_or_sum k q (r / 2))

-- `(a << 16) | (b << 8) | c` for bytes `b` and `c`.
pub or_bytes :
    (a b c : ℕ)
    → b < 256
    → c < 256
    → bit_or (bit_or (a * 65536) (b * 256)) c ≡ (a * 256 + b) * 256 + c
or_bytes a b c hb hc =
    ap (λ t. bit_or t c) (bit_or_sum 16 a (b * 256) (omega arith) ∙ regroup)
    ∙ bit_or_sum 8 (a * 256 + b) c hc
  where
    regroup : a * 65536 + b * 256 ≡ (a * 256 + b) * 256
    regroup = omega arith

-- The bit of `w` at position `k`.
pub bit_at : ℕ → ℕ → ℕ
bit_at w zero = w % 2
bit_at w (suc k) = bit_at (w / 2) k

pub bit_at-and : (k a b : ℕ) → bit_at (bit_and a b) k ≡ min (bit_at a k) (bit_at b k)
unfolding bit_at
bit_at-and zero a b = omega (arith, bit_and_low a b)
bit_at-and (suc k) a b =
    let e : bit_and a b / 2 ≡ bit_and (a / 2) (b / 2) = omega (arith, bit_and_low a b) in
    rw e (bit_at-and k (a / 2) (b / 2))

pub bit_at-or : (k a b : ℕ) → bit_at (bit_or a b) k ≡ max (bit_at a k) (bit_at b k)
unfolding bit_at
bit_at-or zero a b = omega (arith, bit_or_low a b)
bit_at-or (suc k) a b =
    let e : bit_or a b / 2 ≡ bit_or (a / 2) (b / 2) = omega (arith, bit_or_low a b) in
    rw e (bit_at-or k (a / 2) (b / 2))

pub bit_at-le : (k w : ℕ) → bit_at w k ≤ 1
unfolding bit_at
bit_at-le zero w = omega arith
bit_at-le (suc k) w = bit_at-le k (w / 2)

pub bit_at-zero : (k : ℕ) → bit_at 0 k ≡ 0
unfolding bit_at
bit_at-zero zero = refl
bit_at-zero (suc k) = bit_at-zero k

-- `1 << k` has that bit alone.
pub bit_at-pow_self : (k : ℕ) → bit_at (2 ^ k) k ≡ 1
unfolding bit_at
bit_at-pow_self zero = refl
bit_at-pow_self (suc k) =
    let e : 2 ^ suc k / 2 ≡ 2 ^ k = omega (arith, pow-suc 2 k) in rw e (bit_at-pow_self k)

pub bit_at-pow_ne : (k j : ℕ) → j ≢ k → bit_at (2 ^ k) j ≡ 0
unfolding bit_at
bit_at-pow_ne zero zero h = absurd (h refl)
bit_at-pow_ne zero (suc j) h = bit_at-zero j
bit_at-pow_ne (suc k) zero h = omega (arith, pow-suc 2 k)
bit_at-pow_ne (suc k) (suc j) h =
    let e : 2 ^ suc k / 2 ≡ 2 ^ k = omega (arith, pow-suc 2 k) in
    rw e (bit_at-pow_ne k j (λ p. h (ap suc p)))

-- `w & (1 << k)` is 0 or `1 << k`, by the bit.
pub and_pow : (k w : ℕ) → bit_and w (2 ^ k) ≡ bit_at w k * 2 ^ k
unfolding bit_at
and_pow zero w = omega (arith, bit_and_low w 1, bit_and-zero_right (w / 2))
and_pow (suc k) w = omega (
  arith,
  bit_and_low w (2 ^ suc k),
  pow-suc 2 k,
  ap (λ (t : ℕ). bit_and (w / 2) t) half,
  and_pow k (w / 2),
  ap (λ (t : ℕ). bit_at (w / 2) k * t) (pow-suc 2 k),
)
  where
    half : 2 ^ suc k / 2 ≡ 2 ^ k
    half = omega (arith, pow-suc 2 k)

-- `!x` on `n` bits.
pub bit_at-complement : (j n x : ℕ) → j < n → x < 2 ^ n → bit_at (2 ^ n - 1 - x) j ≡ 1 - bit_at x j
unfolding bit_at
bit_at-complement j zero x hj hx = absurd (omega arith)
bit_at-complement zero (suc n) x hj hx = omega (arith, pow-suc 2 n, one-le-pow n 2)
bit_at-complement (suc j) (suc n) x hj hx =
    let e : (2 ^ suc n - 1 - x) / 2 ≡ 2 ^ n - 1 - x / 2 =
      omega (arith, pow-suc 2 n, one-le-pow n 2) in
    rw e (bit_at-complement j n (x / 2) (omega arith) (omega (arith, pow-suc 2 n)))

pub pow-lt : (k n : ℕ) → k < n → 2 ^ k < 2 ^ n
pow-lt k zero h = absurd (omega arith)
pow-lt zero (suc n) h = omega (arith, pow-suc 2 n, one-le-pow n 2)
pow-lt (suc k) (suc n) h = omega (arith, pow-suc 2 n, pow-suc 2 k, pow-lt k n (omega arith))
