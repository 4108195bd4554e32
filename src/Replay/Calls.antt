-- ===== src/Replay/Calls.antt =====
-- Sequences of calls of `check_and_set`.
use catp.Base.{
  ℕ, ◌*◌, ◌^◌, ◌<◌, ◌≡◌, refl, sym, ap, ◌∙◌, Bool, true, false, Option, none, some, List, [], ◌∷◌,
  All, if◌then◌else◌, arith,
}
use catp.Errors.{Error, replay, Result, ok, err}
use catp.Replay.{ReplayWindow, entries, new, check_at, check_and_set}
use catp.Replay.History.{contains, is_fresh, answers, contains-ne-fresh}
use catp.Replay.Refines.{Refines, is_ok, new-Refines, check_and_set-Refines}

-- Which of the offsets, in the order of their arrival, are accepted.
unfoldable pub check_all : ℕ → ReplayWindow → List ℕ → List Bool
check_all words w [] = []
check_all words w (o ∷ os) =
    let (r, w') = check_and_set words w o in is_ok r ∷ check_all words w' os

-- A call that fails returns `Replay` and leaves the window as it was.
pub check_and_set-err :
    (words : ℕ) (w : ReplayWindow) (off : ℕ) (e : Error)
    → (check_and_set words w off).0 ≡ err e
    → (e ≡ replay) × ((check_and_set words w off).1 ≡ w)
unfolding check_and_set check_at
check_and_set-err words w off e h = at w.high w.bits h
  where
    at :
        (m : Option ℕ) (bits : List ℕ)
        → (check_at words m bits off).0 ≡ err e
        → (e ≡ replay) × ((check_at words m bits off).1 ≡ record { high = m; bits = bits })
    at none bits h = cc
    at (some hi) bits h = ground arith

module _ (words : ℕ) (some_words : 0 < words) (small : words * 64 < 2 ^ 32) where
  check_all-answers_from :
      (w : ReplayWindow) (hist os : List ℕ)
      → Refines words w hist
      → All (λ o. o < 2 ^ 32) os
      → check_all words w os ≡ answers (entries words) hist os
  unfolding check_all answers
  check_all-answers_from w hist [] r fits = refl
  check_all-answers_from w hist (o ∷ os) r (fit, fits) =
      let (same, r') = check_and_set-Refines words some_words small w hist o r fit in
      ap (λ b. b ∷ check_all words (check_and_set words w o).1 os) same
      ∙ ap (λ bs. is_fresh (entries words) hist o ∷ bs)
          (check_all-answers_from (check_and_set words w o).1
            (if is_fresh (entries words) hist o then o ∷ hist else hist) os r' fits)

  -- For a window of at least one word and less than 2^32 ticks: on any sequence of u32 offsets, the
  -- calls of `check_and_set` on a new window return Ok for exactly the offsets that the list of
  -- accepted offsets allows, namely those above all accepted ones, and those less than a window
  -- below the highest that were not accepted before.
  pub check_all-answers :
      (os : List ℕ)
      → All (λ o. o < 2 ^ 32) os
      → check_all words (new words) os ≡ answers (entries words) [] os
  check_all-answers os fits =
      check_all-answers_from (new words) [] os (new-Refines words some_words small) fits

  -- For such a window that stands for a list of accepted offsets, an offset of the list is refused
  -- with `Replay`, and the window is left as it was.
  pub check_and_set-replay :
      (w : ReplayWindow) (hist : List ℕ) (off : ℕ)
      → Refines words w hist
      → off < 2 ^ 32
      → contains off hist ≡ true
      → check_and_set words w off ≡ (err replay, w)
  check_and_set-replay w hist off r fit c = refused (check_and_set words w off) refl (
      sym (contains-ne-fresh (entries words) hist off c)
      ∙ sym (check_and_set-Refines words some_words small w hist off r fit).0)
    where
      refused :
          (out : Result (Unit {0}) × ReplayWindow)
          → check_and_set words w off ≡ out
          → false ≡ is_ok out.0
          → out ≡ (err replay, w)
      refused (ok a, w') e h = cc
      refused (err x, w') e h =
          let (a, b) = check_and_set-err words w off x (ap (λ t. t.0) e) in
          ground (arith, ap (λ t. t.1) e)
