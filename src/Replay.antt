-- ===== src/Replay.antt =====
-- src/lib.rs, `ReplayWindow`: the sliding bitmap over tick space. `words` is the type's constant
-- WORDS; a method that takes `&mut self` returns the new window beside its result.
pub mod Bitmap
pub mod History
pub mod Marks
pub mod Refines
pub mod Calls
use catp.Base.{
  ℕ, zero, suc, ◌+◌, ◌-◌, ◌*◌, ◌/◌, ◌%◌, ◌^◌, min, bit_and, bit_or, Bool, Option, none, some, List,
  get_or, set, replicate, ltb, leb, ◌!=◌, if◌then◌else◌,
}
use catp.Base.Words.{as_u32}
use catp.Errors.{Error, replay, Result, ok, err}

pub record ReplayWindow : Type 0 where
  pub high : Option ℕ
  pub bits : List ℕ

abbrev pub default_window_words : ℕ
default_window_words = 64

-- `!(1u64 << k)`
abbrev pub all_but : ℕ → ℕ
all_but k = 2 ^ 64 - 1 - 2 ^ k

module _ (words : ℕ) where
  -- `(WORDS * 64) as u32`
  abbrev pub entries : ℕ
  entries = as_u32 (words * 64)

  unfoldable pub new : ReplayWindow
  new = record { high = none; bits = replicate words 0 }

  unfoldable pub mark : List ℕ → ℕ → List ℕ
  mark bits off =
      let idx = off % entries in
      set bits (idx / 64) (bit_or (get_or bits (idx / 64) 0) (2 ^ (idx % 64)))

  unfoldable pub seen : List ℕ → ℕ → Bool
  seen bits off =
      let idx = off % entries in bit_and (get_or bits (idx / 64) 0) (2 ^ (idx % 64)) != 0

  -- The body of the clearing loop.
  unfoldable pub clear : List ℕ → ℕ → List ℕ
  clear bits at =
      let idx = at % entries in
      set bits (idx / 64) (bit_and (get_or bits (idx / 64) 0) (all_but (idx % 64)))

  -- The loop from round `i` on, with `n` rounds left.
  unfoldable pub clear_span : ℕ → ℕ → ℕ → List ℕ → List ℕ
  clear_span hi i zero bits = bits
  clear_span hi i (suc n) bits = clear_span hi (i + 1) n (clear bits (as_u32 (hi + i)))

  -- The three arms of the `match` on `self.high`.
  unfoldable pub check_at : Option ℕ → List ℕ → ℕ → Result (Unit {0}) × ReplayWindow
  check_at none bits off = (ok tt, record { high = some off; bits = mark bits off })
  check_at (some hi) bits off =
      if ltb hi off
      then (
        ok tt,
        record { high = some off; bits = mark (clear_span hi 1 (min (off - hi) entries) bits) off },
      )
      else if leb entries (hi - off)
      then (err replay, record { high = some hi; bits = bits })
      else if seen bits off
      then (err replay, record { high = some hi; bits = bits })
      else (ok tt, record { high = some hi; bits = mark bits off })

  unfoldable pub check_and_set : ReplayWindow → ℕ → Result (Unit {0}) × ReplayWindow
  unfolding check_at
  check_and_set w off = check_at w.high w.bits off

-- `ReplayWindow::one_second`
unfoldable pub one_second : ReplayWindow
unfolding new
one_second = new default_window_words
