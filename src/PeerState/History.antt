-- ===== src/PeerState/History.antt =====
-- No datagram is taken twice, over the arrivals of a run.
use catp.Base.{
  ℕ, ◌+◌, ◌*◌, ◌^◌, ◌≤◌, ◌<◌, ◌≡◌, refl, ◌≢◌, sym, ◌∙◌, arith, Option, none, some, List, [], ◌∷◌,
  ◌==◌, if◌then◌else◌,
}
use catp.Replay
use catp.Replay.{ReplayWindow, entries, check_and_set}
use catp.Replay.Refines.{Refines, new-Refines}
use catp.PeerState.{Slots, window_for, prune}
use catp.PeerState.Windows.{
  held, IsDistinct, Accepts, after, window_for-window, after-IsDistinct, held-after_same,
  held-after_other, held-after_reach,
}
use native.Mathlib.Decide.{ℕ_discrete, dec_lt}

-- The offsets that were taken in each epoch.
abbrev pub Taken : Type 0
Taken = ℕ → List ℕ

unfoldable pub take_offset : ℕ → ℕ → Taken → Taken
take_offset e off taken e' = if e' == e then off ∷ taken e' else taken e'

pub take_offset-same : (e off : ℕ) (taken : Taken) → take_offset e off taken e ≡ off ∷ taken e
unfolding take_offset
take_offset-same e off taken = ground arith

pub take_offset-other :
    (e off : ℕ) (taken : Taken) (e' : ℕ) → e' ≢ e → take_offset e off taken e' ≡ taken e'
unfolding take_offset
take_offset-other e off taken e' ne = ground arith

some_inj : (a b : ReplayWindow) → some a ≡ some b → a ≡ b
some_inj a b h = cc

some-ne-none : (a : ReplayWindow) → ◌≢◌ {A = Option ReplayWindow} (some a) none
some-ne-none a h = cc

module _ (words : ℕ) (some_words : 0 < words) (small : words * 64 < 2 ^ 32) where
  -- The slots stand for the offsets taken, as far as a clock at `l` or later accepts their epochs.
  pub record Tracks (l : ℕ) (ws : Slots) (taken : Taken) : Type 0 where
    pub distinct : IsDistinct ws
    pub window_Refines : (e : ℕ) (w : ReplayWindow) → held e ws ≡ some w → Refines words w (taken e)
    pub no_later : (e : ℕ) → l < e → taken e ≡ []
    pub no_window : (e : ℕ) → held e ws ≡ none → l ≤ e + 1 → taken e ≡ []

  pub Tracks-later :
      (l l' : ℕ) (ws : Slots) (taken : Taken) → Tracks l ws taken → l ≤ l' → Tracks l' ws taken
  Tracks-later l l' ws taken t forward = record {
    distinct = t.distinct;
    window_Refines = t.window_Refines;
    no_later = λ e later. t.no_later e (omega arith);
    no_window = λ e h le. t.no_window e h (omega arith);
  }

  module _ (l l' e : ℕ) (ws : Slots) (taken : Taken) (t : Tracks l ws taken) (forward : l ≤ l')
      (lt : l' < 2 ^ 32) (acc : Accepts l' e) where
    -- The window that `decode` is handed stands for the offsets taken in the datagram's epoch.
    pub handed-Refines : Refines words (window_for words (prune l' ws) e).1 (taken e)
    handed-Refines = rw (window_for-window words l' e ws lt acc t.distinct) (at (held e ws) refl)
      where
        at :
            (m : Option ReplayWindow)
            → held e ws ≡ m
            → Refines words (elim m [ some w ↦ w | none ↦ Replay.new words ]) (taken e)
        at (some w) h = t.window_Refines e w h
        at none h = rw (t.no_window e h (omega (arith, acc.1))) (new-Refines words some_words small)

    -- The slots that it leaves stand for the offsets with those that it took, if they agree outside
    -- the datagram's epoch.
    pub after-Tracks :
        (w : ReplayWindow) (taken' : Taken)
        → Refines words w (taken' e)
        → ((e' : ℕ) → e' ≢ e → taken' e' ≡ taken e')
        → Tracks l' (after words l' e ws lt acc t.distinct w) taken'
    after-Tracks w taken' r same = record {
      distinct = after-IsDistinct words l' e ws lt acc t.distinct w;
      window_Refines = λ e' w' h. elim (ℕ_discrete e' e) [
        | yes eq ↦
            let k : w ≡ w' =
              some_inj _ _ (sym (held-after_same words l' e ws lt acc t.distinct w) ∙ rw eq at h) in
            rw (eq, ← k) r
        | no ne ↦ rw (same e' ne) (
            t.window_Refines e' w' (
              sym (
                held-after_other words l' e ws lt acc t.distinct e' w
                  (held-after_reach words l' e ws lt acc t.distinct e' w w' h) ne)
              ∙ h))
      ];
      no_later = λ e' later. same e' (λ eq. ground (arith, acc.0)) ∙ t.no_later e' (omega arith);
      no_window = λ e' h le. elim (ℕ_discrete e' e) [
        | yes eq ↦
            absurd (
              some-ne-none _ (sym (held-after_same words l' e ws lt acc t.distinct w) ∙ rw eq at h))
        | no ne ↦ rw (same e' ne) (elim (dec_lt l' e') [
          | yes later ↦ t.no_later e' (omega arith)
          | no reach ↦
              t.no_window e'
                (sym (held-after_other words l' e ws lt acc t.distinct e' w (omega arith, le) ne)
                  ∙ h)
                (omega arith)
        ])
      ];
    }
