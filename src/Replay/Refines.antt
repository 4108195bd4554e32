-- ===== src/Replay/Refines.antt =====
-- The bitmap window answers as the list of accepted offsets does.
use catp.Base.{
  ℕ, ◌+◌, ◌-◌, ◌*◌, ◌%◌, ◌^◌, ◌≤◌, ◌<◌, min, ◌≡◌, refl, sym, ap, ◌∙◌, Bool, true, false, Option,
  none, some, List, [], ◌∷◌, if◌then◌else◌, arith, inl, inr, lt→ltb, ge→ltb, le→leb, gt→leb,
}
use catp.Errors.{replay, Result, ok, err}
use catp.Replay.{ReplayWindow, entries, mark, seen, clear_span, check_at, check_and_set}
use catp.Replay.Bitmap.{length-clear_span, seen-tick_bit}
use catp.Replay.History.{contains, highest, highest-nil, fresh_at, is_fresh}
use native.Mathlib.Decide.{dec_lt}
use native.Mathlib.Nat.{mod-lt}
pub use catp.Replay.Marks.{is_ok, Refines, new-Refines}
use catp.Replay.Marks.{
  bit, InWindow, contains-nil, highest-singleton, mark-Refines, slide_bits, highest_raised,
  highest_kept,
}

module _ (words : ℕ) (some_words : 0 < words) (small : words * 64 < 2 ^ 32) where
  -- One call: the answer is the specification's, and the new window stands for the new list.
  abbrev Agrees : List ℕ → ℕ → Result (Unit {0}) × ReplayWindow → Type 0
  Agrees hist off (r, w) =
      (is_ok r ≡ is_fresh (entries words) hist off)
      × Refines words w (if is_fresh (entries words) hist off then off ∷ hist else hist)

  first_Agrees :
      (bits hist : List ℕ) (off : ℕ)
      → Refines words (record { high = none; bits = bits }) hist
      → Agrees hist off (check_at words none bits off)
  unfolding check_at is_fresh fresh_at highest
  first_Agrees bits hist off r =
      let e : hist ≡ [] = highest-nil hist (sym r.top) in
      rw e (
        refl,
        mark-Refines words some_words small bits [] off off r.size
            (omega (arith, mod-lt 0 {m = entries words})) (highest-singleton off)
            (λ o w ne. r.unused refl (o % entries words) ∙ ap bit (sym (contains-nil o))),
      )

  slide_Agrees :
      (bits hist : List ℕ) (hi off : ℕ)
      → Refines words (record { high = some hi; bits = bits }) hist
      → off < 2 ^ 32
      → hi < off
      → Agrees hist off (check_at words (some hi) bits off)
  unfolding check_at is_fresh fresh_at
  slide_Agrees bits hist hi off r fits lt =
      rw (← r.top, lt→ltb hi off lt)
        (
          refl,
          mark-Refines words some_words small
              (clear_span words hi 1 (min (off - hi) (entries words)) bits) hist off off
              (length-clear_span words some_words small hi 1 _ bits ∙ r.size) (omega arith)
              (highest_raised words some_words small hist hi off (sym r.top) lt)
              (λ o w ne. slide_bits words some_words small _ hist hi off o r refl lt fits w ne),
        )

  seen-contains :
      (bits hist : List ℕ) (hi off : ℕ)
      → Refines words (record { high = some hi; bits = bits }) hist
      → InWindow (entries words) hi off
      → seen words bits off ≡ contains off hist
  seen-contains bits hist hi off r win = elim (seen-tick_bit words some_words small bits off) [
    | inl (one, s) ↦ s ∙ bit_true (contains off hist) (sym one ∙ r.marks hi off refl win)
    | inr (zero, s) ↦ s ∙ bit_false (contains off hist) (sym zero ∙ r.marks hi off refl win)
  ]
    where
      bit_true : (b : Bool) → 1 ≡ bit b → true ≡ b
      bit_true true e = refl
      bit_true false e = absurd (omega arith)

      bit_false : (b : Bool) → 0 ≡ bit b → false ≡ b
      bit_false true e = absurd (omega arith)
      bit_false false e = refl

  below_Agrees :
      (bits hist : List ℕ) (hi off : ℕ)
      → Refines words (record { high = some hi; bits = bits }) hist
      → off ≤ hi
      → hi < off + entries words
      → Agrees hist off (check_at words (some hi) bits off)
  unfolding check_at is_fresh fresh_at
  below_Agrees bits hist hi off r le near =
      rw
        (
          ← r.top,
          ge→ltb hi off le,
          gt→leb (entries words) (hi - off) (omega arith),
          lt→ltb (hi - off) (entries words) (omega arith),
          seen-contains bits hist hi off r (le, near),
        )
        (split (contains off hist))
    where
      marked : Refines words (record { high = some hi; bits = mark words bits off }) (off ∷ hist)
      marked =
          mark-Refines words some_words small bits hist hi off r.size (le, near)
            (highest_kept words some_words small hist hi off (sym r.top) le)
            (λ o w ne. r.marks hi o refl w)

      split :
          (c : Bool)
          → let (res, w) =
              if◌then◌else◌ {A = Result (Unit {0}) × ReplayWindow} c
                (err replay, record { high = some hi; bits = bits })
                (ok tt, record { high = some hi; bits = mark words bits off }) in
            (is_ok res ≡ (if c then false else true))
            × Refines words w (if (if c then false else true) then off ∷ hist else hist)
      split true = (refl, r)
      split false = (refl, marked)

  stale_Agrees :
      (bits hist : List ℕ) (hi off : ℕ)
      → Refines words (record { high = some hi; bits = bits }) hist
      → off + entries words ≤ hi
      → Agrees hist off (check_at words (some hi) bits off)
  unfolding check_at is_fresh fresh_at
  stale_Agrees bits hist hi off r far =
      rw
        (
          ← r.top,
          ge→ltb hi off (omega arith),
          le→leb (entries words) (hi - off) (omega arith),
          ge→ltb (hi - off) (entries words) (omega arith),
        )
        (refl, r)

  check_at-Agrees :
      (m : Option ℕ) (bits hist : List ℕ) (off : ℕ)
      → Refines words (record { high = m; bits = bits }) hist
      → off < 2 ^ 32
      → Agrees hist off (check_at words m bits off)
  check_at-Agrees none bits hist off r fits = first_Agrees bits hist off r
  check_at-Agrees (some hi) bits hist off r fits = elim (dec_lt hi off) [
    | yes lt ↦ slide_Agrees bits hist hi off r fits lt
    | no ge ↦ elim (dec_lt hi (off + entries words)) [
      | yes near ↦ below_Agrees bits hist hi off r (omega arith) near
      | no far ↦ stale_Agrees bits hist hi off r (omega arith)
    ]
  ]

  -- For a window of at least one word and less than 2^32 ticks that stands for the accepted offsets
  -- `hist`, and a u32 offset: `check_and_set` returns Ok exactly if the offset is fresh for `hist`,
  -- and the window that it leaves stands for `hist` with the offset put before it if that is so,
  -- and for `hist` if not.
  pub check_and_set-Refines :
      (w : ReplayWindow) (hist : List ℕ) (off : ℕ)
      → Refines words w hist
      → off < 2 ^ 32
      → (is_ok (check_and_set words w off).0 ≡ is_fresh (entries words) hist off)
        × Refines words
            (check_and_set words w off).1
            (if is_fresh (entries words) hist off then off ∷ hist else hist)
  unfolding check_and_set
  check_and_set-Refines w hist off r fits = check_at-Agrees w.high w.bits hist off r fits
