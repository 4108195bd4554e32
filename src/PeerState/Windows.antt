-- ===== src/PeerState/Windows.antt =====
-- The two slots as a map from epochs to windows: what pruning and `window_for` keep.
use catp.Base.{
  ℕ, ◌+◌, ◌^◌, ◌≤◌, ◌<◌, ◌≡◌, refl, ◌≢◌, ◌∙◌, arith, Bool, true, not, ◌&&◌, leb, ◌==◌, Option, none,
  some,
}
use catp.Replay
use catp.Replay.{ReplayWindow}
use catp.PeerState.{EpochWindow, Slots, prune_slot, prune, holding, put, window_for}

-- The live window of an epoch.
unfoldable pub held : ℕ → Slots → Option ReplayWindow
unfolding holding
held epoch ws = elim (holding epoch ws.slot0) [ some w ↦ some w | none ↦ holding epoch ws.slot1 ]

-- The two slots never hold the same epoch.
unfoldable pub apart : Option EpochWindow → Option EpochWindow → Bool
apart (some a) (some b) = not (a.epoch == b.epoch)
apart none b = true
apart (some a) none = true

abbrev pub IsDistinct : Slots → Type 0
IsDistinct ws = apart ws.slot0 ws.slot1 ≡ true

-- The epochs that a receiver accepts.
abbrev pub Accepts : ℕ → ℕ → Type 0
Accepts local_epoch e = (e ≤ local_epoch) × (local_epoch ≤ e + 1)

holding-prune_slot :
    (l e : ℕ) (slot : Option EpochWindow)
    → l < 2 ^ 32
    → Accepts l e
    → holding e (prune_slot l slot) ≡ holding e slot
unfolding holding prune_slot
holding-prune_slot l e none lt acc = refl
holding-prune_slot l e (some ew) lt acc = ground arith

-- Pruning keeps the windows of the epochs that the receiver accepts.
pub held-prune : (l e : ℕ) (ws : Slots) → l < 2 ^ 32 → Accepts l e → held e (prune l ws) ≡ held e ws
unfolding held prune
held-prune l e ws lt acc =
    ground (arith, holding-prune_slot l e ws.slot0 lt acc, holding-prune_slot l e ws.slot1 lt acc)

-- A slot that is left by pruning has an epoch that the receiver accepts.
unfoldable in_reach : ℕ → Option EpochWindow → Bool
in_reach l none = true
in_reach l (some ew) = leb ew.epoch l && leb l (ew.epoch + 1)

prune_slot-in_reach : (l : ℕ) (slot : Option EpochWindow) → in_reach l (prune_slot l slot) ≡ true
unfolding prune_slot in_reach
prune_slot-in_reach l none = refl
prune_slot-in_reach l (some ew) = ground arith

prune_slot-apart :
    (l : ℕ) (a b : Option EpochWindow)
    → apart a b ≡ true
    → apart (prune_slot l a) (prune_slot l b) ≡ true
unfolding prune_slot apart
prune_slot-apart l none b h = refl
prune_slot-apart l (some a) none h = ground arith
prune_slot-apart l (some a) (some b) h = ground arith

pub prune-IsDistinct : (l : ℕ) (ws : Slots) → IsDistinct ws → IsDistinct (prune l ws)
unfolding prune
prune-IsDistinct l ws h = prune_slot-apart l ws.slot0 ws.slot1 h

module _ (words : ℕ) where
  -- The slots after `window_for`, and after the caller has written the window `w` back.
  abbrev pub put_back : Slots → ℕ → ReplayWindow → Slots
  put_back ws e w =
      let (i, window, ws') = window_for words ws e in put i (record { epoch = e; window = w }) ws'

  slots-window :
      (a b : Option EpochWindow) (e : ℕ)
      → (window_for words (record { slot0 = a; slot1 = b }) e).1
        ≡ elim (held e (record { slot0 = a; slot1 = b })) [ some w ↦ w | none ↦ Replay.new words ]
  unfolding window_for held holding
  slots-window none none e = ground arith
  slots-window none (some b) e = ground arith
  slots-window (some a) none e = ground arith
  slots-window (some a) (some b) e = ground arith

  slots-same :
      (a b : Option EpochWindow) (e : ℕ) (w : ReplayWindow)
      → held e (put_back (record { slot0 = a; slot1 = b }) e w) ≡ some w
  unfolding window_for held holding put
  slots-same none none e w = ground arith
  slots-same none (some b) e w = ground arith
  slots-same (some a) none e w = ground arith
  slots-same (some a) (some b) e w = ground arith

  slots-other :
      (a b : Option EpochWindow) (l e e' : ℕ) (w : ReplayWindow)
      → Accepts l e
      → in_reach l a ≡ true
      → in_reach l b ≡ true
      → apart a b ≡ true
      → e' ≢ e
      → held e' (put_back (record { slot0 = a; slot1 = b }) e w)
        ≡ held e' (record { slot0 = a; slot1 = b })
  unfolding window_for held holding put in_reach apart
  slots-other none none l e e' w acc ra rb d ne = ground arith
  slots-other none (some b) l e e' w acc ra rb d ne = ground arith
  slots-other (some a) none l e e' w acc ra rb d ne = ground arith
  slots-other (some a) (some b) l e e' w acc ra rb d ne = ground arith

  put_back-apart :
      (a b : Option EpochWindow) (e : ℕ) (w : ReplayWindow)
      → apart a b ≡ true
      → IsDistinct (put_back (record { slot0 = a; slot1 = b }) e w)
  unfolding window_for holding put apart
  put_back-apart none none e w d = ground arith
  put_back-apart none (some b) e w d = ground arith
  put_back-apart (some a) none e w d = ground arith
  put_back-apart (some a) (some b) e w d = ground arith

  slots-reach :
      (a b : Option EpochWindow) (l e e' : ℕ) (w w' : ReplayWindow)
      → Accepts l e
      → in_reach l a ≡ true
      → in_reach l b ≡ true
      → held e' (put_back (record { slot0 = a; slot1 = b }) e w) ≡ some w'
      → Accepts l e'
  unfolding window_for held holding put in_reach
  slots-reach none none l e e' w w' acc ra rb h = (ground arith, ground arith)
  slots-reach none (some b) l e e' w w' acc ra rb h = (ground arith, ground arith)
  slots-reach (some a) none l e e' w w' acc ra rb h = (ground arith, ground arith)
  slots-reach (some a) (some b) l e e' w w' acc ra rb h = (ground arith, ground arith)

  module _ (l e : ℕ) (ws : Slots) (lt : l < 2 ^ 32) (acc : Accepts l e)
      (distinct : IsDistinct ws) where
    -- The slots after a datagram of epoch `e` came at epoch `l` and left the window `w`.
    abbrev pub after : ReplayWindow → Slots
    after w = put_back (prune l ws) e w

    -- `decode` is handed the live window of the datagram's epoch, or a new one.
    pub window_for-window :
        (window_for words (prune l ws) e).1
        ≡ elim (held e ws) [ some w ↦ w | none ↦ Replay.new words ]
    window_for-window =
        slots-window (prune l ws).slot0 (prune l ws).slot1 e ∙ rw (held-prune l e ws lt acc)

    pub after-IsDistinct : (w : ReplayWindow) → IsDistinct (after w)
    after-IsDistinct w =
        put_back-apart (prune l ws).slot0 (prune l ws).slot1 e w (prune-IsDistinct l ws distinct)

    pub held-after_same : (w : ReplayWindow) → held e (after w) ≡ some w
    held-after_same w = slots-same (prune l ws).slot0 (prune l ws).slot1 e w

    -- The fallback that evicts a slot never fires: for slots of distinct epochs and a u32 local
    -- epoch, a datagram of an accepted epoch leaves the window of the other accepted epoch as it
    -- was.
    pub held-after_other :
        (e' : ℕ) (w : ReplayWindow) → Accepts l e' → e' ≢ e → held e' (after w) ≡ held e' ws
    unfolding prune
    held-after_other e' w acc' ne =
        slots-other (prune l ws).slot0 (prune l ws).slot1 l e e' w acc
          (prune_slot-in_reach l ws.slot0) (prune_slot-in_reach l ws.slot1)
          (prune-IsDistinct l ws distinct) ne
        ∙ held-prune l e' ws lt acc'

    -- After it, every live window is of an accepted epoch.
    pub held-after_reach :
        (e' : ℕ) (w w' : ReplayWindow) → held e' (after w) ≡ some w' → Accepts l e'
    unfolding prune
    held-after_reach e' w w' h =
        slots-reach (prune l ws).slot0 (prune l ws).slot1 l e e' w w' acc
          (prune_slot-in_reach l ws.slot0) (prune_slot-in_reach l ws.slot1) h
