-- ===== src/Collector.antt =====
-- src/peer.rs, `Collector`: the receivers of many senders. The hash map is an association list;
-- nothing of the source depends on its order.
pub mod Routing
pub mod Runs
use catp.Base.{
  ℕ, ◌+◌, bit_and, Bool, ltb, ◌==◌, Option, none, some, List, [], ◌∷◌, length, get_or,
  if◌then◌else◌,
}
use catp.Base.Words.{Bytes, add_u64, u32_from_be}
use catp.Errors.{Error, too_short, unknown_sender, Result, ok, err}
use catp.Registry.{Direction, header_len}
use catp.Crypto.{Primitives}
use catp.Replay.{default_window_words}
use catp.Stats.{Stats, zeros, merge}
use catp.Wire.Decode.{PeerConfig, Accepted}
use catp.PeerState
use catp.PeerState.{PeerState}

pub record Collector : Type 0 where
  pub peers : List (ℕ × PeerState)
  pub own_stats : Stats

abbrev pub new : Collector
new = record { peers = []; own_stats = zeros }

-- `HashMap::get_mut`
unfoldable pub lookup : ℕ → List (ℕ × PeerState) → Option PeerState
lookup id [] = none
lookup id ((k, p) ∷ peers) = if k == id then some p else lookup id peers

-- `HashMap::insert`
unfoldable pub insert : ℕ → PeerState → List (ℕ × PeerState) → List (ℕ × PeerState)
insert id p [] = (id, p) ∷ []
insert id p ((k, q) ∷ peers) = if k == id then (id, p) ∷ peers else (k, q) ∷ insert id p peers

unfoldable pub provision : Collector → PeerConfig → Result (Unit {0}) × Collector
provision c config = elim (PeerState.new config) [
  | err e ↦ (err e, c)
  | ok p ↦ (ok tt, record c { peers = insert config.sender_id p c.peers })
]

unfoldable pub peer_mut : Collector → ℕ → Option PeerState
peer_mut c sender_id = lookup sender_id c.peers

abbrev pub sender_of : Bytes → ℕ
sender_of buf = u32_from_be (get_or buf 5 0) (get_or buf 6 0) (get_or buf 7 0) (get_or buf 8 0)

unfoldable pub accept :
    Primitives → Collector → Bytes → ℕ → Direction → ℕ → Result Accepted × Collector
accept prim c buf local_epoch dir now_ms =
    if ltb (length buf) header_len
    then (
      err too_short,
      record c { own_stats = record c.own_stats { too_short = add_u64 c.own_stats.too_short 1 } },
    )
    else elim (lookup (sender_of buf) c.peers) [
      | none ↦ (
        err (unknown_sender (sender_of buf)),
        record c {
          own_stats = record c.own_stats { unknown_sender = add_u64 c.own_stats.unknown_sender 1 };
        },
      )
      | some p ↦
          let (r, p') = PeerState.accept default_window_words prim p buf local_epoch dir now_ms in
          (r, record c { peers = insert (sender_of buf) p' c.peers })
    ]

-- The loop of `stats`.
unfoldable pub merge_all : Stats → List (ℕ × PeerState) → Stats
merge_all total [] = total
merge_all total ((k, p) ∷ peers) = merge_all (merge total p.stats) peers

unfoldable pub stats : Collector → Stats
unfolding merge_all
stats c = merge_all c.own_stats c.peers
