-- ===== src/Replay/Marks.antt =====
-- The relation between the bitmap window and the list of accepted offsets, and what marking an offset
-- and sliding the window keep of it.
use catp.Base.{
  ℕ, ◌+◌, ◌-◌, ◌*◌, ◌/◌, ◌%◌, ◌^◌, ◌≤◌, ◌<◌, min, ◌≡◌, refl, ◌≢◌, sym, ap, ◌∙◌, Bool, true, false,
  none, some, List, [], ◌∷◌, length, length-replicate, get_or-replicate, arith, inl, inr,
  Bool-cases,
}
use catp.Base.Bits.{bit_at-zero}
use catp.Errors.{Result, ok, err}
use catp.Replay.{ReplayWindow, entries, new, mark, clear_span}
use catp.Replay.Bitmap.{
  bit_of, tick_bit, tick_bit-mark_self, tick_bit-mark_ne, length-mark, clear_span_miss,
  clear_span_hit, mod-ne_of_near,
}
use catp.Replay.History.{contains, highest, highest-cons, contains-le}
use native.Mathlib.Decide.{ℕ_discrete, dec_lt}
use native.Mathlib.Nat.{mod-lt, add-mul-mod_self_left, div-add-mod}

-- 1 for `true`.
abbrev pub bit : Bool → ℕ
bit true = 1
bit false = 0

-- `check_and_set` answers Ok exactly where the result is `ok`.
abbrev pub is_ok {ℓ} : {A : Type ℓ} → Result A → Bool
is_ok (ok a) = true
is_ok (err e) = false

-- The ticks that lie in the window below the highest offset.
abbrev pub InWindow : ℕ → ℕ → ℕ → Type 0
InWindow span hi o = (o ≤ hi) × (hi < o + span)

module _ (words : ℕ) where
  -- The window `w` stands for the accepted offsets `hist`.
  pub record Refines (w : ReplayWindow) (hist : List ℕ) : Type 0 where
    pub size : length w.bits ≡ words
    pub top : w.high ≡ highest hist
    pub unused : w.high ≡ none → (t : ℕ) → bit_of w.bits t ≡ 0
    pub marks :
        (hi o : ℕ)
        → w.high ≡ some hi
        → InWindow (entries words) hi o
        → tick_bit words w.bits o ≡ bit (contains o hist)

pub contains-nil : (o : ℕ) → contains o [] ≡ false
unfolding contains
contains-nil o = refl

pub contains-cons_ne : (o x : ℕ) (xs : List ℕ) → o ≢ x → contains o (x ∷ xs) ≡ contains o xs
unfolding contains
contains-cons_ne o x xs ne = ground arith

pub contains-cons_self : (o : ℕ) (xs : List ℕ) → contains o (o ∷ xs) ≡ true
unfolding contains
contains-cons_self o xs = ground arith

pub highest-singleton : (x : ℕ) → highest (x ∷ []) ≡ some x
unfolding highest
highest-singleton x = refl

pub contains_above :
    (hi o : ℕ) (hist : List ℕ) → highest hist ≡ some hi → hi < o → contains o hist ≡ false
contains_above hi o hist e lt = elim (Bool-cases (contains o hist)) [
  | inl c ↦ absurd (omega (arith, contains-le o hi hist e c))
  | inr absent ↦ absent
]

pub mod-le : (n m : ℕ) → n % m ≤ n
mod-le n m = omega (arith, div-add-mod n m)

module _ (words : ℕ) (some_words : 0 < words) (small : words * 64 < 2 ^ 32) where
  pub new-Refines : Refines words (new words) []
  unfolding new highest
  new-Refines = record {
    size = length-replicate words 0;
    top = refl;
    unused = λ _ t. rw (get_or-replicate {A = ℕ} words (t / 64) 0) (bit_at-zero (t % 64));
    marks = λ hi o e. cc;
  }

  near_ne :
      (hi o u : ℕ)
      → InWindow (entries words) hi o
      → InWindow (entries words) hi u
      → o ≢ u
      → o % entries words ≢ u % entries words
  near_ne hi o u ho hu ne = elim (dec_lt o u) [
    | yes lt ↦ mod-ne_of_near (entries words) o u lt (omega arith)
    | no ge ↦ λ e. mod-ne_of_near (entries words) u o (omega arith) (omega arith) (sym e)
  ]

  -- Marking a tick of the window that `hi` tops.
  pub mark-Refines :
      (bits hist : List ℕ) (hi off : ℕ)
      → length bits ≡ words
      → InWindow (entries words) hi off
      → highest (off ∷ hist) ≡ some hi
      → ((o : ℕ)
          → InWindow (entries words) hi o
          → o ≢ off
          → tick_bit words bits o ≡ bit (contains o hist))
      → Refines words (record { high = some hi; bits = mark words bits off }) (off ∷ hist)
  mark-Refines bits hist hi off size win top same = record {
    size = length-mark words some_words small bits off ∙ size;
    top = sym top;
    unused = λ e. cc;
    marks = λ h o e w. let same_high : hi ≡ h = cc in marked o (rw same_high w);
  }
    where
      marked :
          (o : ℕ)
          → InWindow (entries words) hi o
          → tick_bit words (mark words bits off) o ≡ bit (contains o (off ∷ hist))
      marked o w = elim (ℕ_discrete o off) [
        | yes e ↦
            rw (e, contains-cons_self off hist)
              (tick_bit-mark_self words some_words small bits off size)
        | no ne ↦
            tick_bit-mark_ne words some_words small bits off o size
              (near_ne hi off o win w (λ e. ne (sym e)))
            ∙ same o w ne
            ∙ ap bit (sym (contains-cons_ne o off hist ne))
      ]

  -- The round of the clearing loop that meets a tick `o` above `hi`.
  round : ℕ → ℕ → ℕ
  round hi o = (o - hi - 1) % entries words + 1

  round-hits : (hi o : ℕ) → hi < o → (hi + round hi o) % entries words ≡ o % entries words
  unfolding round
  round-hits hi o lt =
      let d : ℕ = o - hi - 1 in
      let whole : o ≡ hi + (d % entries words + 1) + entries words * (d / entries words) =
        omega (arith, div-add-mod d (entries words)) in
      sym (
        ap (λ t. t % entries words) whole
        ∙ add-mul-mod_self_left (hi + (d % entries words + 1)) (entries words) (d / entries words))

  -- After the slide from `hi` to `off`, the ticks of the new window below `off` are as they were
  -- accepted, and those above `hi` are clear.
  pub slide_bits :
      (w : ReplayWindow) (hist : List ℕ) (hi off o : ℕ)
      → Refines words w hist
      → w.high ≡ some hi
      → hi < off
      → off < 2 ^ 32
      → InWindow (entries words) off o
      → o ≢ off
      → tick_bit words (clear_span words hi 1 (min (off - hi) (entries words)) w.bits) o
        ≡ bit (contains o hist)
  slide_bits w hist hi off o r e lt fits win ne = elim (dec_lt hi o) [
    | yes above ↦
        clear_span_hit words some_words small hi 1 (min (off - hi) (entries words)) o (round hi o)
          w.bits r.size (omega arith) (unfold round in omega arith)
          (unfold round in
            omega (
              arith,
              mod-lt (o - hi - 1) {m = entries words} (omega arith),
              mod-le (o - hi - 1) (entries words),
            ))
          (round-hits hi o above)
        ∙ ap bit (sym (contains_above hi o hist (sym r.top ∙ e) above))
    | no below ↦
        clear_span_miss words some_words small hi 1 (min (off - hi) (entries words)) o w.bits r.size
          (omega arith)
          (λ k lo up. λ same.
            mod-ne_of_near (entries words) o (hi + k) (omega arith) (omega arith) (sym same))
        ∙ r.marks hi o e (omega arith)
  ]

  pub highest_raised :
      (hist : List ℕ) (hi off : ℕ)
      → highest hist ≡ some hi
      → hi < off
      → highest (off ∷ hist) ≡ some off
  highest_raised hist hi off e lt = highest-cons off hist hi e ∙ ap some (omega arith)

  pub highest_kept :
      (hist : List ℕ) (hi off : ℕ)
      → highest hist ≡ some hi
      → off ≤ hi
      → highest (off ∷ hist) ≡ some hi
  highest_kept hist hi off e le = highest-cons off hist hi e ∙ ap some (omega arith)
