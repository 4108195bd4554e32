-- ===== src/Provisioning/Hex.antt =====
-- src/provisioning.rs, `parse_hex_bytes`.
use catp.Base.{
  ℕ, ◌+◌, ◌*◌, ◌/◌, ◌%◌, ◌<◌, ◌≡◌, refl, ap, ◌∙◌, ◌↔◌, bit_or, true, ◌&&◌, leb, Option, none, some,
  [], ◌∷◌, length, All, arith, if◌then◌else◌, Option-cases, inl, inr, subst, sym, suc,
}
use catp.Base.Bits.{bit_or_sum}
use catp.Base.Text.{Text, as_bytes, hex_digit, hex2, hex_text}
use catp.Base.Text.Laws.{all, is_hex, hex_text-is_hex}
use catp.Base.Words.{Bytes, IsByte}
use catp.Provisioning.{hex_value, nibbles, cons_some, hex_pairs, parse_hex_bytes}

-- The lower-case letter of a hex digit; other characters stay.
abbrev pub to_lower_hex : ℕ → ℕ
to_lower_hex c = if leb b'A' c && leb c b'F' then c + 32 else c

abbrev pub to_lower : Text → Text
to_lower [] = []
to_lower (c ∷ cs) = to_lower_hex c ∷ to_lower cs

hex_value_iff : (c d : ℕ) → (hex_value c ≡ some d) ↔ ((to_lower_hex c ≡ hex_digit d) × (d < 16))
unfolding hex_value
hex_value_iff c d = ground arith

nibbles_join : (hi lo : ℕ) → lo < 16 → bit_or (hi * 16) lo ≡ hi * 16 + lo
nibbles_join hi lo h = bit_or_sum 4 hi lo h

-- One pair of digits is the byte that `hex2` prints.
pair_reads :
    (x y b : ℕ)
    → nibbles (hex_value x) (hex_value y) ≡ some b
    → (to_lower_hex x ∷ to_lower_hex y ∷ [] ≡ hex2 b) × (b < 256)
pair_reads x y b h = elim (Option-cases (hex_value x)) [
  | inl e ↦ absurd_none (rw (e) at h)
  | inr (hi, e) ↦ elim (Option-cases (hex_value y)) [
    | inl k ↦ absurd_none (rw (e, k) at h)
    | inr (lo, k) ↦ join_reads hi lo e k (rw (e, k) at h)
  ]
]
  where
    absurd_none : none ≡ some b → (to_lower_hex x ∷ to_lower_hex y ∷ [] ≡ hex2 b) × (b < 256)
    absurd_none h = cc

    join_reads :
        (hi lo : ℕ)
        → hex_value x ≡ some hi
        → hex_value y ≡ some lo
        → some (bit_or (hi * 16) lo) ≡ some b
        → (to_lower_hex x ∷ to_lower_hex y ∷ [] ≡ hex2 b) × (b < 256)
    join_reads hi lo e k h =
        let (e', small) = (hex_value_iff x hi).0 e in
        let (k', small') = (hex_value_iff y lo).0 k in
        let whole : b ≡ hi * 16 + lo = ground (arith, nibbles_join hi lo small') in
        let upper : hi ≡ b / 16 = omega arith in
        let lower : lo ≡ b % 16 = omega arith in (cc (e', k', upper, lower), omega arith)

pair_writes :
    (x y b : ℕ)
    → to_lower_hex x ≡ hex_digit (b / 16)
    → to_lower_hex y ≡ hex_digit (b % 16)
    → b < 256
    → nibbles (hex_value x) (hex_value y) ≡ some b
pair_writes x y b h k small =
    rw
      ((hex_value_iff x (b / 16)).1 (h, omega arith), (hex_value_iff y (b % 16)).1 (k, omega arith))
      (ap some (nibbles_join (b / 16) (b % 16) (omega arith) ∙ omega arith))

abbrev AreDigitsOf : Text → Bytes → Type 0
AreDigitsOf s bytes = (to_lower s ≡ hex_text bytes) × All IsByte bytes

cons_some-eq-some :
    (o : Option ℕ) (rest : Option Bytes) (bytes : Bytes)
    → cons_some o rest ≡ some bytes
    → (b : ℕ) × (more : Bytes) × (o ≡ some b) × (rest ≡ some more) × (bytes ≡ b ∷ more)
cons_some-eq-some none rest bytes h = cc
cons_some-eq-some (some b) none bytes h = cc
cons_some-eq-some (some b) (some more) bytes h = (b, more, refl, refl, cc)

hex_pairs-reads :
    (s : Text) (bytes : Bytes) → length s % 2 ≡ 0 → hex_pairs s ≡ some bytes → AreDigitsOf s bytes
unfolding hex_pairs hex_text
hex_pairs-reads [] [] even h = (refl, tt)
hex_pairs-reads [] (b ∷ bytes) even h = cc
hex_pairs-reads (x ∷ []) bytes even h = absurd (omega arith)
hex_pairs-reads (x ∷ y ∷ s) bytes even h =
    let (b, more, pair, rest, e) = cons_some-eq-some _ (hex_pairs s) bytes h in
    let (digits, small) = pair_reads x y b pair in
    let (later, bound) = hex_pairs-reads s more (omega arith) rest in
    subst (AreDigitsOf (x ∷ y ∷ s)) (sym e) (cc (digits, later), (small, bound))

hex_pairs-writes : (s : Text) (bytes : Bytes) → AreDigitsOf s bytes → hex_pairs s ≡ some bytes
unfolding hex_pairs hex_text
hex_pairs-writes [] [] h = refl
hex_pairs-writes [] (b ∷ bytes) (h, small) = cc
hex_pairs-writes (x ∷ s) [] (h, small) = cc
hex_pairs-writes (x ∷ []) (b ∷ bytes) (h, small) = cc
hex_pairs-writes (x ∷ y ∷ s) (b ∷ bytes) (h, (small, bound)) =
    let pair = pair_writes x y b (cc) (cc) small in
    let later = hex_pairs-writes s bytes (cc, bound) in rw (pair, later) refl

-- A text of hex digits is its own encoding.
as_bytes_digits : (s : Text) → all is_hex (to_lower s) ≡ true → as_bytes s ≡ s
unfolding as_bytes
as_bytes_digits [] h = refl
as_bytes_digits (c ∷ cs) h = ground (arith, as_bytes_digits cs)

digits_as_bytes : (s : Text) → all is_hex (to_lower (as_bytes s)) ≡ true → as_bytes s ≡ s
unfolding as_bytes
digits_as_bytes [] h = refl
digits_as_bytes (c ∷ cs) h = ground (arith, digits_as_bytes cs)

length-hex_text : (bytes : Bytes) → length (hex_text bytes) ≡ 2 * length bytes
unfolding hex_text
length-hex_text [] = refl
length-hex_text (b ∷ bytes) = omega (arith, length-hex_text bytes)

length-to_lower : (s : Text) → length (to_lower s) ≡ length s
length-to_lower [] = refl
length-to_lower (c ∷ cs) = ap suc (length-to_lower cs)

-- The reader of a run of hex digits accepts a text exactly when its letters, in lower case, are the
-- digits that print the bytes it returns, two to a byte.
pub parse_hex_bytes_iff :
    (s : Text) (bytes : Bytes)
    → (parse_hex_bytes s ≡ some bytes) ↔ ((to_lower s ≡ hex_text bytes) × All IsByte bytes)
parse_hex_bytes_iff s bytes = (accepts, returns)
  where
    accepts : parse_hex_bytes s ≡ some bytes → AreDigitsOf s bytes
    accepts h =
        let even : length (as_bytes s) % 2 ≡ 0 = unfold parse_hex_bytes in ground arith in
        let pairs : hex_pairs (as_bytes s) ≡ some bytes = unfold parse_hex_bytes in ground arith in
        let (digits, small) = hex_pairs-reads (as_bytes s) bytes even pairs in
        let same : as_bytes s ≡ s = digits_as_bytes s (rw digits (hex_text-is_hex bytes small)) in
        subst (λ t. AreDigitsOf t bytes) same (digits, small)

    returns : AreDigitsOf s bytes → parse_hex_bytes s ≡ some bytes
    returns (digits, small) =
        let same : as_bytes s ≡ s = as_bytes_digits s (rw digits (hex_text-is_hex bytes small)) in
        let even : length s % 2 ≡ 0 =
          omega (arith, ap length digits, length-to_lower s, length-hex_text bytes) in
        let pairs = hex_pairs-writes s bytes (digits, small) in
        unfold parse_hex_bytes in rw same (ground arith)
