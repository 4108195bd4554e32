-- ===== src/Collector/Runs.antt =====
-- A run of datagrams at a collector, as each receiver sees it.
use catp.Base.{
  ℕ, ◌≡◌, refl, sym, ◌∙◌, arith, Bool, true, false, not, ◌&&◌, ◌==◌, ltb, some, List, [], ◌∷◌,
  length, if◌then◌else◌, inl, inr, Bool-cases,
}
use catp.Collector.{Collector, lookup, sender_of, accept}
use catp.Collector.Routing.{lookup-insert_self, accept-other}
use catp.Crypto.{Primitives}
use catp.Errors.{Result}
use catp.PeerState
use catp.PeerState.{PeerState}
use catp.PeerState.Calls
use catp.PeerState.Calls.{results}
use catp.PeerState.Run.{Arrival}
use catp.Replay.{default_window_words}
use catp.Wire.Decode.{Accepted}

-- A datagram with a whole header that names the sender.
unfoldable pub is_from : ℕ → Arrival → Bool
is_from id a = not (ltb (length a.buf) 9) && sender_of a.buf == id

-- Those of a run.
unfoldable pub addressed : ℕ → List Arrival → List Arrival
addressed id [] = []
addressed id (a ∷ arrivals) =
    let rest = addressed id arrivals in if is_from id a then a ∷ rest else rest

module _ (prim : Primitives) where
  abbrev pub call : Collector → Arrival → Result Accepted × Collector
  call c a = accept prim c a.buf a.local_epoch a.dir a.now_ms

  unfoldable pub accept_all : Collector → List Arrival → Collector
  accept_all c [] = c
  accept_all c (a ∷ arrivals) = accept_all (call c a).1 arrivals

  -- What the collector answers to the datagrams that name the sender.
  unfoldable pub answers_to : ℕ → Collector → List Arrival → List (Result Accepted)
  answers_to id c [] = []
  answers_to id c (a ∷ arrivals) =
      let rest = answers_to id (call c a).1 arrivals in
      if is_from id a then (call c a).0 ∷ rest else rest

  abbrev called : PeerState → Arrival → Result Accepted × PeerState
  called p a = PeerState.accept default_window_words prim p a.buf a.local_epoch a.dir a.now_ms

  call-from :
      (id : ℕ) (c : Collector) (a : Arrival) (p : PeerState)
      → is_from id a ≡ true
      → lookup id c.peers ≡ some p
      → ((call c a).0 ≡ (called p a).0) × (lookup id (call c a).1.peers ≡ some (called p a).1)
  unfolding is_from accept
  call-from id c a p from known =
      let here : sender_of a.buf ≡ id = ground arith in
      let long : ltb (length a.buf) 9 ≡ false = ground arith in
      let found : lookup (sender_of a.buf) c.peers ≡ some p = rw here known in
      rw (long, found)
        (refl, rw (sym here) (lookup-insert_self (sender_of a.buf) (called p a).1 c.peers))

  call-other :
      (id : ℕ) (c : Collector) (a : Arrival)
      → is_from id a ≡ false
      → lookup id (call c a).1.peers ≡ lookup id c.peers
  unfolding is_from
  call-other id c a other = elim (Bool-cases (ltb (length a.buf) 9)) [
    | inl short ↦ unfold accept in rw short refl
    | inr long ↦ accept-other prim c a.buf a.local_epoch a.dir a.now_ms id (inl (λ e. ground arith))
  ]

  -- Whatever datagrams of other senders, unknown senders or no whole header come between: the
  -- receiver of a provisioned sender ends in the state, and the datagrams that name the sender get
  -- the answers, that the receiver alone would come to on these datagrams in their order.
  pub accept_all-receiver :
      (id : ℕ) (c : Collector) (arrivals : List Arrival) (p : PeerState)
      → lookup id c.peers ≡ some p
      → (lookup id (accept_all c arrivals).peers
          ≡ some (Calls.accept_all prim default_window_words p (addressed id arrivals)))
        × (answers_to id c arrivals ≡ results prim default_window_words p (addressed id arrivals))
  unfolding accept_all answers_to addressed Calls.accept_all results
  accept_all-receiver id c [] p known = (known, refl)
  accept_all-receiver id c (a ∷ arrivals) p known = elim (Bool-cases (is_from id a)) [
    | inl from ↦
        let (same, next) = call-from id c a p from known in
        let (state, rest) = accept_all-receiver id (call c a).1 arrivals (called p a).1 next in
        rw from (state, rw (same, rest) refl)
    | inr other ↦
        let next = call-other id c a other ∙ known in
        rw other (accept_all-receiver id (call c a).1 arrivals p next)
  ]
