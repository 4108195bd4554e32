-- ===== src/PeerState/Calls.antt =====
-- Calls of `PeerState::accept`, one after another: the state behind them, and their results.
use catp.Base.{ℕ, List, [], ◌∷◌}
use catp.Crypto.{Primitives}
use catp.Errors.{Result}
use catp.PeerState.{PeerState, accept}
use catp.PeerState.Run.{Arrival}
use catp.Wire.Decode.{Accepted}

module _ (prim : Primitives) (words : ℕ) where
  unfoldable pub accept_all : PeerState → List Arrival → PeerState
  accept_all s [] = s
  accept_all s (a ∷ arrivals) =
      accept_all (accept words prim s a.buf a.local_epoch a.dir a.now_ms).1 arrivals

  unfoldable pub results : PeerState → List Arrival → List (Result Accepted)
  results s [] = []
  results s (a ∷ arrivals) =
      let (r, s') = accept words prim s a.buf a.local_epoch a.dir a.now_ms in
      r ∷ results s' arrivals
