-- ===== src/PeerState.antt =====
-- src/peer.rs, `PeerState`: what a receiver keeps for one sender. A method that takes `&mut self`
-- returns the new state beside its result.
pub mod Windows
pub mod History
pub mod Offsets
pub mod Step
pub mod Run
pub mod Calls
pub mod Counted
pub mod Tallies
pub mod Announce
use catp.Base.{
  ℕ, ◌+◌, ◌-◌, ◌^◌, min, bit_and, Bool, true, false, not, ◌&&◌, ltb, leb, ◌==◌, Option, none, some,
  List, get_or, length, if◌then◌else◌,
}
use catp.Base.Words.{Bytes}
use catp.Errors.{
  Error, too_short, epoch_out_of_window, epoch_rollback, rate_limited, cipher_requires_rate_limit,
  Result, ok, err,
}
use catp.Registry.{Direction, header_len}
use catp.Registry.CipherId
use catp.Registry.CipherId.{requires_inbound_rate_limit}
use catp.Epoch.{reconstruct_epoch}
use catp.Limiter
use catp.Limiter.{InboundLimiter, try_acquire}
use catp.Replay
use catp.Replay.{ReplayWindow}
use catp.Crypto.{Primitives}
use catp.Stats.{Stats, zeros, record_result}
use catp.Wire.Decode.{PeerConfig, Accepted, decode}

pub record EpochWindow : Type 0 where
  pub epoch : ℕ
  pub window : ReplayWindow

-- `[Option<EpochWindow>; 2]`, and an index into it.
pub record Slots : Type 0 where
  pub slot0 : Option EpochWindow
  pub slot1 : Option EpochWindow

pub data Index : Type 0 where
  first second : Index

pub record PeerState : Type 0 where
  pub config : PeerConfig
  pub windows : Slots
  pub highest_epoch_announced : Option ℕ
  pub limiter : Option InboundLimiter
  pub stats : Stats

-- `config.inbound_rate_limit.map(InboundLimiter::new)`
unfoldable pub limiter_of : PeerConfig → Option InboundLimiter
limiter_of config = elim config.inbound_rate_limit [
  | none ↦ none
  | some limit ↦ some (Limiter.new limit)
]

abbrev pub is_none {ℓ} : {A : Type ℓ} → Option A → Bool
is_none none = true
is_none (some a) = false

unfoldable pub new : PeerConfig → Result PeerState
unfolding limiter_of
new config =
    if requires_inbound_rate_limit config.cipher && is_none config.inbound_rate_limit
    then err (cipher_requires_rate_limit (CipherId.to_u8 config.cipher))
    else ok (record {
      config = config;
      windows = record { slot0 = none; slot1 = none };
      highest_epoch_announced = none;
      limiter = limiter_of config;
      stats = zeros;
    })

-- `ew.epoch.saturating_add(1)` on u32.
abbrev pub next_epoch : ℕ → ℕ
next_epoch epoch = min (epoch + 1) (2 ^ 32 - 1)

unfoldable pub prune_slot : ℕ → Option EpochWindow → Option EpochWindow
prune_slot local_epoch none = none
prune_slot local_epoch (some ew) =
    if not (leb local_epoch (next_epoch ew.epoch) && leb ew.epoch local_epoch)
    then none
    else some ew

unfoldable pub prune : ℕ → Slots → Slots
unfolding prune_slot
prune local_epoch ws = record {
  slot0 = prune_slot local_epoch ws.slot0;
  slot1 = prune_slot local_epoch ws.slot1;
}

-- The window of a slot for `epoch`.
unfoldable pub holding : ℕ → Option EpochWindow → Option ReplayWindow
holding epoch none = none
holding epoch (some ew) = if ew.epoch == epoch then some ew.window else none

unfoldable pub put : Index → EpochWindow → Slots → Slots
put first ew ws = record ws { slot0 = some ew }
put second ew ws = record ws { slot1 = some ew }

module _ (words : ℕ) where
  abbrev pub fresh_window : ℕ → EpochWindow
  fresh_window epoch = record { epoch = epoch; window = Replay.new words }

  -- The index that `window_for` settles on, with the window there and the slots; the caller writes
  -- the window back with `put`.
  unfoldable pub window_for : Slots → ℕ → Index × ReplayWindow × Slots
  window_for ws epoch = elim (holding epoch ws.slot0) [
    | some w ↦ (first, w, ws)
    | none ↦ elim (holding epoch ws.slot1) [
      | some w ↦ (second, w, ws)
      | none ↦
          if is_none ws.slot0
          then (first, Replay.new words, put first (fresh_window epoch) ws)
          else if is_none ws.slot1
          then (second, Replay.new words, put second (fresh_window epoch) ws)
          else (first, Replay.new words, put first (fresh_window epoch) ws)
    ]
  ]

  -- The rate limit behind `decode`.
  unfoldable pub spend : Accepted → PeerState → ℕ → Result Accepted × PeerState
  spend acc s now_ms = elim s.limiter [
    | none ↦ (ok acc, s)
    | some l ↦
        let (granted, l') = try_acquire l now_ms in
        ((if not granted then err rate_limited else ok acc), record s { limiter = some l' })
  ]

  module _ (prim : Primitives) where
    -- `accept_inner` from the reconstructed epoch on.
    unfoldable pub accept_in :
        ℕ → PeerState → Bytes → ℕ → Direction → ℕ → Result Accepted × PeerState
    unfolding spend
    accept_in epoch s buf local_epoch dir now_ms =
        let (i, window, ws) = window_for (prune local_epoch s.windows) epoch in
        let (r, window') = decode prim words buf s.config local_epoch dir window in
        let s' = record s { windows = put i (record { epoch = epoch; window = window' }) ws } in
        elim r [ err e ↦ (err e, s') | ok acc ↦ spend acc s' now_ms ]

    unfoldable pub accept_inner :
        PeerState → Bytes → ℕ → Direction → ℕ → Result Accepted × PeerState
    unfolding accept_in
    accept_inner s buf local_epoch dir now_ms =
        if ltb (length buf) header_len
        then (err too_short, s)
        else elim (reconstruct_epoch local_epoch (bit_and (get_or buf 1 0) 0x0f)) [
          | none ↦ (err epoch_out_of_window, s)
          | some epoch ↦ accept_in epoch s buf local_epoch dir now_ms
        ]

    unfoldable pub accept : PeerState → Bytes → ℕ → Direction → ℕ → Result Accepted × PeerState
    unfolding accept_inner
    accept s buf local_epoch dir now_ms =
        let (result, s') = accept_inner s buf local_epoch dir now_ms in
        (result, record s' { stats = record_result s'.stats result })

unfoldable pub accept_epoch_announce : PeerState → ℕ → Result (Unit {0}) × PeerState
accept_epoch_announce s target_epoch = elim s.highest_epoch_announced [
  | some hi ↦
      if leb target_epoch hi
      then (err (epoch_rollback target_epoch hi), s)
      else (ok tt, record s { highest_epoch_announced = some target_epoch })
  | none ↦ (ok tt, record s { highest_epoch_announced = some target_epoch })
]

-- `windows.iter().filter(|s| s.is_some()).count()`
unfoldable pub live_windows : PeerState → ℕ
live_windows s =
    (if is_none s.windows.slot0 then 0 else 1) + (if is_none s.windows.slot1 then 0 else 1)
