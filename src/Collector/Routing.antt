-- ===== src/Collector/Routing.antt =====
-- What a call of `accept` does to the map of receivers.
use catp.Base.{
  ℕ, ◌≡◌, refl, ◌≢◌, sym, ap, ◌∙◌, arith, ltb, none, some, List, [], ◌∷◌, length, ◌⊎◌, inl, inr,
  Bool-cases, Option-cases,
}
use catp.Base.Words.{Bytes}
use catp.Errors.{Result}
use catp.Registry.{Direction}
use catp.Crypto.{Primitives}
use catp.Replay.{default_window_words}
use catp.Wire.Decode.{Accepted}
use catp.PeerState
use catp.PeerState.{PeerState}
use catp.Collector.{Collector, lookup, insert, sender_of, accept}

pub lookup-insert_self :
    (id : ℕ) (p : PeerState) (peers : List (ℕ × PeerState)) → lookup id (insert id p peers) ≡ some p
unfolding lookup insert
lookup-insert_self id p [] = ground arith
lookup-insert_self id p ((k, q) ∷ peers) = ground (arith, lookup-insert_self id p peers)

pub lookup-insert_ne :
    (id id' : ℕ) (p : PeerState) (peers : List (ℕ × PeerState))
    → id' ≢ id
    → lookup id' (insert id p peers) ≡ lookup id' peers
unfolding lookup insert
lookup-insert_ne id id' p [] ne = ground arith
lookup-insert_ne id id' p ((k, q) ∷ peers) ne = ground (arith, lookup-insert_ne id id' p peers ne)

module _ (prim : Primitives) (c : Collector) (buf : Bytes) (local_epoch : ℕ) (dir : Direction)
    (now_ms : ℕ) where
  abbrev result : Result Accepted × Collector
  result = accept prim c buf local_epoch dir now_ms

  accept-peers :
      (result.1.peers ≡ c.peers)
      ⊎ ((p : PeerState) × (p' : PeerState) × (lookup (sender_of buf) c.peers ≡ some p)
          × (result.1.peers ≡ insert (sender_of buf) p' c.peers))
  unfolding accept
  accept-peers = elim (Bool-cases (ltb (length buf) 9)) [
    | inl short ↦ inl (rw short refl)
    | inr long ↦ elim (Option-cases (lookup (sender_of buf) c.peers)) [
      | inl unknown ↦ inl (rw (long, unknown) refl)
      | inr (p, known) ↦ inr (
        p,
        (PeerState.accept default_window_words prim p buf local_epoch dir now_ms).1,
        known,
        rw (long, known) refl,
      )
    ]
  ]

  -- Whatever a datagram holds, the receiver of a sender that it does not name is left as it was,
  -- and a sender without a receiver has none after it.
  pub accept-other :
      (id : ℕ)
      → (id ≢ sender_of buf) ⊎ (lookup id c.peers ≡ none)
      → lookup id result.1.peers ≡ lookup id c.peers
  unfolding accept
  accept-other id other = elim accept-peers [
    | inl same ↦ ap (lookup id) same
    | inr (p, p', known, changed) ↦
        ap (lookup id) changed
        ∙ lookup-insert_ne (sender_of buf) id p' c.peers (elim other [
          | inl ne ↦ ne
          | inr unknown ↦ λ e. ground (arith, sym known ∙ rw e at unknown)
        ])
  ]
