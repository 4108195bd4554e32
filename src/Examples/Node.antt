-- ===== src/Examples/Node.antt =====
-- The theorems on payloads, control messages, the node's clock and the collector, each at one input.
use catp.Base.{
  ◌*◌, ◌^◌, min, ◌≡◌, refl, arith, false, ◌∷◌, [], replicate, some, none, ◌↔◌, ◌≤◌, List,
}
use catp.Base.Int.{pos, negsuc}
use catp.Base.Words.{Bytes}
use catp.Errors.{ok, ◌>>=◌}
use catp.Registry.{node_to_collector}
use catp.Wire.Time.{time_announce, decode_time_announce}
use catp.Wire.Time.RoundTrip.{decode_time_announce-time_announce}
use catp.NodeClock.{clockless, accept_time_announce}
use catp.NodeClock.Announce.{IsPast, accept_time_announce_iff, accept_time_announce_cut}
use catp.NodeClock.Backoff.{request_all, request_all-backoff}
use catp.PeerState.Announce.{RisesFrom, accepted_targets, accepted_targets-RisesFrom}
use catp.Replay.{default_window_words}
use catp.Collector.{Collector, lookup}
use catp.Collector.Runs
use catp.Collector.Runs.{addressed, answers_to, accept_all-receiver}
use catp.PeerState.Calls
use catp.PeerState.Calls.{results}
use catp.PeerState.Run.{Arrival}
use catp.Examples.{toy, wire, receiver}
use catp.Stats.{zeros}

abbrev key : Bytes
key = replicate 32 1

decode_time_announce-time_announce_example :
    (time_announce toy 7 (pos 5000) key >>= λ buf. decode_time_announce toy buf 7 key)
    ≡ ok (pos 5000)
decode_time_announce-time_announce_example =
    decode_time_announce-time_announce toy 7 (pos 5000) key (omega arith) (omega arith)

accept_time_announce_cut_example :
    ((accept_time_announce (clockless 3) (pos (2 ^ 39)) (pos 0)).0 ≡ ok tt)
    × ((accept_time_announce (clockless 3) (pos (2 ^ 39)) (pos 0)).1.last_epoch ≡ 0)
accept_time_announce_cut_example = accept_time_announce_cut 3 (pos 0) (omega arith)

request_all-backoff_example :
    (request_all (clockless 3) (pos 0 ∷ pos 2 ∷ [])).request_backoff ≡ pos (min (2 * 2 ^ 2) 3600)
request_all-backoff_example = request_all-backoff 3 (pos 0 ∷ pos 2 ∷ [])

abbrev collector : Collector
collector = record { peers = (7, receiver) ∷ []; own_stats = zeros }

accepted_targets-RisesFrom_example : RisesFrom none (accepted_targets receiver (5 ∷ 5 ∷ 3 ∷ 9 ∷ []))
accepted_targets-RisesFrom_example = accepted_targets-RisesFrom receiver (5 ∷ 5 ∷ 3 ∷ 9 ∷ [])

accept_time_announce_iff_example :
    (((accept_time_announce (clockless 3) (pos 5000) (negsuc 9)).0 ≡ ok tt)
      ↔ (((clockless 3).valid ≡ false) × IsPast 3 (pos 5000)))
    × (3 ≤ (accept_time_announce (clockless 3) (pos 5000) (negsuc 9)).1.last_epoch)
accept_time_announce_iff_example =
    accept_time_announce_iff (clockless 3) (pos 5000) (negsuc 9) (omega arith)

abbrev arrival : Arrival
arrival = record { buf = wire; local_epoch = 22; dir = node_to_collector; now_ms = 0 }

-- Too short, and of a sender without a receiver.
abbrev noise : Arrival
noise = record { buf = 33 ∷ []; local_epoch = 22; dir = node_to_collector; now_ms = 0 }

abbrev stray : Arrival
stray = record { buf = replicate 20 1; local_epoch = 22; dir = node_to_collector; now_ms = 0 }

abbrev arrivals : List Arrival
arrivals = arrival ∷ noise ∷ stray ∷ arrival ∷ []

known : lookup 7 collector.peers ≡ some receiver
unfolding lookup
known = refl

accept_all-receiver_example :
    (lookup 7 (Runs.accept_all toy collector arrivals).peers
      ≡ some (Calls.accept_all toy default_window_words receiver (addressed 7 arrivals)))
    × (answers_to toy 7 collector arrivals
        ≡ results toy default_window_words receiver (addressed 7 arrivals))
accept_all-receiver_example = accept_all-receiver toy 7 collector arrivals receiver known
