-- ===== src/Replay/Bitmap.antt =====
-- The bitmap of the window as a function of the tick: what `mark` and the clearing loop do to it.
use catp.Base.{
  ℕ, zero, suc, ◌+◌, ◌*◌, ◌/◌, ◌%◌, ◌^◌, ◌≤◌, ◌<◌, ◌≡◌, refl, ◌≢◌, ◌∙◌, ap, sym, arith, List,
  bit_and, bit_or, length, get_or, set, length-set, get_or-set_self, get_or-set_ne, true, false,
  ◌!=◌, inl, inr, ◌⊎◌,
}
use catp.Base.Bits.{
  bit_at, bit_at-and, bit_at-or, bit_at-le, bit_at-pow_self, bit_at-pow_ne, and_pow,
  bit_at-complement, pow-lt,
}
use catp.Base.Words.{as_u32}
use catp.Replay.{entries, mark, seen, clear, clear_span, all_but}
use native.Mathlib.Nat.{one-le-pow, mod-lt, div-add-mod}
use native.Mathlib.Decide.{ℕ_discrete}

-- The bit of the bitmap at index `i`.
abbrev pub bit_of : List ℕ → ℕ → ℕ
bit_of bits i = bit_at (get_or bits (i / 64) 0) (i % 64)

abbrev set_or : List ℕ → ℕ → List ℕ
set_or bits i = set bits (i / 64) (bit_or (get_or bits (i / 64) 0) (2 ^ (i % 64)))

abbrev set_and : List ℕ → ℕ → List ℕ
set_and bits i = set bits (i / 64) (bit_and (get_or bits (i / 64) 0) (all_but (i % 64)))

bit_of-set_or_self : (bits : List ℕ) (i : ℕ) → i / 64 < length bits → bit_of (set_or bits i) i ≡ 1
bit_of-set_or_self bits i h =
    rw (get_or-set_self bits (i / 64) (bit_or (get_or bits (i / 64) 0) (2 ^ (i % 64))) 0 h) (
      omega (
        arith,
        bit_at-or (i % 64) (get_or bits (i / 64) 0) (2 ^ (i % 64)),
        bit_at-pow_self (i % 64),
        bit_at-le (i % 64) (get_or bits (i / 64) 0),
      ))

bit_of-set_or_ne :
    (bits : List ℕ) (i j : ℕ)
    → i / 64 < length bits
    → i ≢ j
    → bit_of (set_or bits i) j ≡ bit_of bits j
bit_of-set_or_ne bits i j h ne = elim (ℕ_discrete (i / 64) (j / 64)) [
  | yes e ↦ rw (← e) (
      rw (get_or-set_self bits (i / 64) (bit_or (get_or bits (i / 64) 0) (2 ^ (i % 64))) 0 h) (
        omega (
          arith,
          bit_at-or (j % 64) (get_or bits (i / 64) 0) (2 ^ (i % 64)),
          bit_at-pow_ne (i % 64) (j % 64) (omega arith),
        )))
  | no n ↦ ap (λ w. bit_at w (j % 64)) (get_or-set_ne bits (i / 64) (j / 64) _ 0 n)
]

bit_of-set_and_self : (bits : List ℕ) (i : ℕ) → i / 64 < length bits → bit_of (set_and bits i) i ≡ 0
bit_of-set_and_self bits i h =
    rw (get_or-set_self bits (i / 64) (bit_and (get_or bits (i / 64) 0) (all_but (i % 64))) 0 h) (
      omega (
        arith,
        bit_at-and (i % 64) (get_or bits (i / 64) 0) (all_but (i % 64)),
        bit_at-complement (i % 64) 64 (2 ^ (i % 64)) (omega arith)
            (pow-lt (i % 64) 64 (omega arith)),
        bit_at-pow_self (i % 64),
      ))

bit_of-set_and_ne :
    (bits : List ℕ) (i j : ℕ)
    → i / 64 < length bits
    → i ≢ j
    → bit_of (set_and bits i) j ≡ bit_of bits j
bit_of-set_and_ne bits i j h ne = elim (ℕ_discrete (i / 64) (j / 64)) [
  | yes e ↦ rw (← e) (
      rw (get_or-set_self bits (i / 64) (bit_and (get_or bits (i / 64) 0) (all_but (i % 64))) 0 h) (
        omega (
          arith,
          bit_at-and (j % 64) (get_or bits (i / 64) 0) (all_but (i % 64)),
          bit_at-complement (j % 64) 64 (2 ^ (i % 64)) (omega arith)
              (pow-lt (i % 64) 64 (omega arith)),
          bit_at-pow_ne (i % 64) (j % 64) (omega arith),
          bit_at-le (j % 64) (get_or bits (i / 64) 0),
        )))
  | no n ↦ ap (λ w. bit_at w (j % 64)) (get_or-set_ne bits (i / 64) (j / 64) _ 0 n)
]

-- Different ticks less than `e` apart have different indices.
pub mod-ne_of_near : (e x y : ℕ) → x < y → y < x + e → x % e ≢ y % e
mod-ne_of_near e x y lt near same = grind (arith, div-add-mod x e, div-add-mod y e)

-- `w & (1 << k) != 0`, for the product `x` of the bit `b` and a power `p`.
mask_test :
    (x b p : ℕ)
    → x ≡ b * p
    → b ≤ 1
    → 0 < p
    → ((b ≡ 1) × ((x != 0) ≡ true)) ⊎ ((b ≡ 0) × ((x != 0) ≡ false))
mask_test x zero p e h k = inr (refl, let z : x ≡ 0 = omega arith in ground arith)
mask_test x (suc zero) p e h k = inl (refl, let z : x ≡ p = omega arith in ground arith)
mask_test x (suc (suc b)) p e h k = absurd (omega arith)

-- The bit that stands for the tick `t`.
abbrev pub tick_bit : ℕ → List ℕ → ℕ → ℕ
tick_bit words bits t = bit_of bits (t % entries words)

module _ (words : ℕ) (some_words : 0 < words) (small : words * 64 < 2 ^ 32) where
  in_bitmap : (bits : List ℕ) (t : ℕ) → length bits ≡ words → t % entries words / 64 < length bits
  in_bitmap bits t h = omega (arith, mod-lt t {m = entries words} (omega arith))

  pub tick_bit-mark_self :
      (bits : List ℕ) (t : ℕ) → length bits ≡ words → tick_bit words (mark words bits t) t ≡ 1
  unfolding mark
  tick_bit-mark_self bits t h = bit_of-set_or_self bits (t % entries words) (in_bitmap bits t h)

  pub tick_bit-mark_ne :
      (bits : List ℕ) (t u : ℕ)
      → length bits ≡ words
      → t % entries words ≢ u % entries words
      → tick_bit words (mark words bits t) u ≡ tick_bit words bits u
  unfolding mark
  tick_bit-mark_ne bits t u h ne =
      bit_of-set_or_ne bits (t % entries words) (u % entries words) (in_bitmap bits t h) ne

  pub length-mark : (bits : List ℕ) (t : ℕ) → length (mark words bits t) ≡ length bits
  unfolding mark
  length-mark bits t = length-set bits _ _

  pub length-clear_span :
      (hi i n : ℕ) (bits : List ℕ) → length (clear_span words hi i n bits) ≡ length bits
  unfolding clear_span clear
  length-clear_span hi i zero bits = refl
  length-clear_span hi i (suc n) bits = length-clear_span hi (i + 1) n _ ∙ length-set bits _ _

  clear_self :
      (bits : List ℕ) (t : ℕ) → length bits ≡ words → tick_bit words (clear words bits t) t ≡ 0
  unfolding clear
  clear_self bits t h = bit_of-set_and_self bits (t % entries words) (in_bitmap bits t h)

  clear_ne :
      (bits : List ℕ) (t u : ℕ)
      → length bits ≡ words
      → t % entries words ≢ u % entries words
      → tick_bit words (clear words bits t) u ≡ tick_bit words bits u
  unfolding clear
  clear_ne bits t u h ne =
      bit_of-set_and_ne bits (t % entries words) (u % entries words) (in_bitmap bits t h) ne

  length-clear : (bits : List ℕ) (t : ℕ) → length (clear words bits t) ≡ length bits
  unfolding clear
  length-clear bits t = length-set bits _ _

  -- A tick that no round meets keeps its bit.
  pub clear_span_miss :
      (hi i n u : ℕ) (bits : List ℕ)
      → length bits ≡ words
      → hi + i + n ≤ 2 ^ 32
      → ((k : ℕ) → i ≤ k → k < i + n → (hi + k) % entries words ≢ u % entries words)
      → tick_bit words (clear_span words hi i n bits) u ≡ tick_bit words bits u
  unfolding clear_span
  clear_span_miss hi i zero u bits h fits miss = refl
  clear_span_miss hi i (suc n) u bits h fits miss =
      clear_span_miss hi (i + 1) n u (clear words bits (as_u32 (hi + i))) (length-clear bits _ ∙ h)
        (omega arith) (λ k lo up. miss k (omega arith) (omega arith))
      ∙ clear_ne bits (as_u32 (hi + i)) u h (
          let e : as_u32 (hi + i) ≡ hi + i = omega arith in
          rw e (miss i (omega arith) (omega arith)))

  clear_zero :
      (bits : List ℕ) (t u : ℕ)
      → length bits ≡ words
      → tick_bit words bits u ≡ 0
      → tick_bit words (clear words bits t) u ≡ 0
  clear_zero bits t u h z = elim (ℕ_discrete (t % entries words) (u % entries words)) [
    | yes e ↦ ap (bit_of (clear words bits t)) (sym e) ∙ clear_self bits t h
    | no ne ↦ clear_ne bits t u h ne ∙ z
  ]

  clear_span_zero :
      (hi i n u : ℕ) (bits : List ℕ)
      → length bits ≡ words
      → tick_bit words bits u ≡ 0
      → tick_bit words (clear_span words hi i n bits) u ≡ 0
  unfolding clear_span
  clear_span_zero hi i zero u bits h z = z
  clear_span_zero hi i (suc n) u bits h z =
      clear_span_zero hi (i + 1) n u _ (length-clear bits _ ∙ h)
        (clear_zero bits (as_u32 (hi + i)) u h z)

  -- A tick that the round `k` meets is cleared.
  pub clear_span_hit :
      (hi i n u k : ℕ) (bits : List ℕ)
      → length bits ≡ words
      → hi + i + n ≤ 2 ^ 32
      → i ≤ k
      → k < i + n
      → (hi + k) % entries words ≡ u % entries words
      → tick_bit words (clear_span words hi i n bits) u ≡ 0
  unfolding clear_span
  clear_span_hit hi i zero u k bits h fits lo up e = absurd (omega arith)
  clear_span_hit hi i (suc n) u k bits h fits lo up e = elim (ℕ_discrete i k) [
    | yes here ↦ clear_span_zero hi (i + 1) n u _ (length-clear bits _ ∙ h) (
        ap (bit_of (clear words bits (as_u32 (hi + i)))) (sym (same here))
        ∙ clear_self bits (as_u32 (hi + i)) h)
    | no later ↦
        clear_span_hit hi (i + 1) n u k _ (length-clear bits _ ∙ h) (omega arith) (omega arith)
          (omega arith) e
  ]
    where
      same : i ≡ k → as_u32 (hi + i) % entries words ≡ u % entries words
      same here = let c : as_u32 (hi + i) ≡ hi + k = omega arith in rw c e

  -- `seen` reads that bit.
  pub seen-tick_bit :
      (bits : List ℕ) (t : ℕ)
      → ((tick_bit words bits t ≡ 1) × (seen words bits t ≡ true))
        ⊎ ((tick_bit words bits t ≡ 0) × (seen words bits t ≡ false))
  unfolding seen
  seen-tick_bit bits t =
      let i = t % entries words in
      let w = get_or bits (i / 64) 0 in
      mask_test (bit_and w (2 ^ (i % 64))) (bit_at w (i % 64)) (2 ^ (i % 64)) (and_pow (i % 64) w)
        (bit_at-le (i % 64) w) (one-le-pow (i % 64) 2 (omega arith))
