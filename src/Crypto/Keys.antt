-- ===== src/Crypto/Keys.antt =====
-- The inputs of the key derivation: different keys are derived from different inputs.
use catp.Base.{ℕ, ◌+◌, ◌^◌, ◌<◌, ◌≡◌, refl, ap, ◌≢◌, arith, length, get_or}
use catp.Base.Words.{Bytes, u32_from_be}
use catp.Registry.{Direction, node_to_collector, collector_to_node, direction_byte}
use catp.Crypto.{epoch_info, time_info}

direction_byte-injective : (d d' : Direction) → direction_byte d ≡ direction_byte d' → d ≡ d'
direction_byte-injective node_to_collector node_to_collector h = refl
direction_byte-injective node_to_collector collector_to_node h = absurd (omega arith)
direction_byte-injective collector_to_node node_to_collector h = absurd (omega arith)
direction_byte-injective collector_to_node collector_to_node h = refl

-- The u32 that stands at index `i`.
abbrev word_at : ℕ → Bytes → ℕ
word_at i l =
    u32_from_be (get_or l i 0) (get_or l (i + 1) 0) (get_or l (i + 2) 0) (get_or l (i + 3) 0)

-- For u32 identifiers and epochs: the inputs of two epoch keys are the same only for the same
-- sender, epoch and direction; those of two time keys only for the same sender and direction; and
-- an epoch key and a time key never have the same input.
pub info_separates :
    (s s' e e' : ℕ) (d d' : Direction)
    → s < 2 ^ 32
    → s' < 2 ^ 32
    → e < 2 ^ 32
    → e' < 2 ^ 32
    → (epoch_info s e d ≡ epoch_info s' e' d' → (s ≡ s') × (e ≡ e') × (d ≡ d'))
      × (time_info s d ≡ time_info s' d' → (s ≡ s') × (d ≡ d'))
      × (epoch_info s e d ≢ time_info s' d')
unfolding epoch_info time_info
info_separates s s' e e' d d' hs hs' he he' = (
  (λ h. (
    omega (arith, ap (word_at 5) h),
    omega (arith, ap (word_at 9) h),
    direction_byte-injective d d' (ap (λ l. get_or l 13 0) h),
  )),
  (λ h. (
    omega (arith, ap (word_at 10) h),
    direction_byte-injective d d' (ap (λ l. get_or l 14 0) h),
  )),
  (λ h. omega (arith, ap length h)),
)
