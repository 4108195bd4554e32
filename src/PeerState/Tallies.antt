-- ===== src/PeerState/Tallies.antt =====
-- The statistics of a receiver after a run of calls.
use catp.Base.{
  ℕ, ◌+◌, ◌%◌, ◌^◌, ◌<◌, ◌≤◌, ◌≡◌, ap, ◌∙◌, arith, List, [], ◌∷◌, length, if◌then◌else◌,
}
use catp.Crypto.{Primitives}
use catp.Errors.{Result, ok}
use catp.PeerState.{PeerState, new, accept, accept_inner}
use catp.PeerState.Calls.{accept_all, results}
use catp.PeerState.Counted.{is_oversize, accept_inner-within, calls-accept}
use catp.PeerState.Run.{Arrival}
use catp.Stats.{Stats, record_error, record_result, zeros}
use catp.Stats.Count.{calls}
use catp.Stats.Named.{
  Counter, value, is_for, tally, set_apart, set_apart_all, value-calls, value-record_result,
}
use catp.Wire.Decode.{PeerConfig, Accepted}

-- The calls that failed with `Oversize`.
unfoldable pub oversized : List (Result Accepted) → ℕ
oversized [] = 0
oversized (r ∷ rs) = (if is_oversize r then 1 else 0) + oversized rs

skipped-record_result :
    (t : Stats) (r : Result Accepted)
    → t.skipped_records < 2 ^ 64
    → (record_result t r).skipped_records ≡ (t.skipped_records + set_apart r) % 2 ^ 64
unfolding record_result record_error
skipped-record_result t r h = ground arith

new-stats : (config : PeerConfig) (s : PeerState) → new config ≡ ok s → s.stats ≡ zeros
unfolding new
new-stats config s h = ground arith

module _ (prim : Primitives) (words : ℕ) where
  -- One call, on the counters.
  accept_stats :
      (s : PeerState) (a : Arrival)
      → (accept words prim s a.buf a.local_epoch a.dir a.now_ms).1.stats
        ≡ record_result s.stats (accept words prim s a.buf a.local_epoch a.dir a.now_ms).0
  unfolding accept
  accept_stats s a =
      ap (λ t. record_result t (accept_inner words prim s a.buf a.local_epoch a.dir a.now_ms).0)
        (accept_inner-within prim words s a.buf a.local_epoch a.dir a.now_ms).1

  accept_all-value :
      (k : Counter) (arrivals : List Arrival) (s : PeerState)
      → value k s.stats + length arrivals < 2 ^ 64
      → value k (accept_all prim words s arrivals).stats
        ≡ value k s.stats + tally k (results prim words s arrivals)
  unfolding accept_all results tally
  accept_all-value k [] s h = omega arith
  accept_all-value k (a ∷ arrivals) s h =
      let r = (accept words prim s a.buf a.local_epoch a.dir a.now_ms).0 in
      let s' = (accept words prim s a.buf a.local_epoch a.dir a.now_ms).1 in
      let one : value k s'.stats ≡ value k s.stats + (if is_for k r then 1 else 0) =
        ap (value k) (accept_stats s a) ∙ value-record_result k s.stats r (omega arith) in
      let small : (if is_for k r then 1 else 0) ≤ 1 = ground arith in
      let more = accept_all-value k arrivals s' (omega arith) in omega arith

  accept_all-calls :
      (arrivals : List Arrival) (s : PeerState)
      → calls s.stats + length arrivals < 2 ^ 64
      → calls (accept_all prim words s arrivals).stats + oversized (results prim words s arrivals)
        ≡ calls s.stats + length arrivals
  unfolding accept_all results oversized
  accept_all-calls [] s h = omega arith
  accept_all-calls (a ∷ arrivals) s h =
      let r = (accept words prim s a.buf a.local_epoch a.dir a.now_ms).0 in
      let s' = (accept words prim s a.buf a.local_epoch a.dir a.now_ms).1 in
      let one : calls s'.stats ≡ calls s.stats + (if is_oversize r then 0 else 1) =
        calls-accept prim words s a.buf a.local_epoch a.dir a.now_ms (omega arith) in
      let both : (if is_oversize r then 0 else 1) + (if is_oversize r then 1 else 0) ≡ 1 =
        ground arith in
      let more = accept_all-calls arrivals s' (omega arith) in omega arith

  accept_all-skipped :
      (arrivals : List Arrival) (s : PeerState)
      → s.stats.skipped_records < 2 ^ 64
      → (accept_all prim words s arrivals).stats.skipped_records
        ≡ (s.stats.skipped_records + set_apart_all (results prim words s arrivals)) % 2 ^ 64
  unfolding accept_all results set_apart_all
  accept_all-skipped [] s h = omega arith
  accept_all-skipped (a ∷ arrivals) s h =
      let r = (accept words prim s a.buf a.local_epoch a.dir a.now_ms).0 in
      let s' = (accept words prim s a.buf a.local_epoch a.dir a.now_ms).1 in
      let one : s'.stats.skipped_records ≡ (s.stats.skipped_records + set_apart r) % 2 ^ 64 =
        ap (λ t. t.skipped_records) (accept_stats s a) ∙ skipped-record_result s.stats r h in
      let more = accept_all-skipped arrivals s' (omega arith) in omega arith

  -- For a run of fewer than 2^64 calls of `accept` at a new receiver: each counter holds how many of
  -- the calls had a result that it is for, success, one kind of error, or the four errors of step 9;
  -- the counters together miss only the calls that failed with `Oversize`; and the skipped records
  -- are those set apart in all accepted datagrams, modulo 2^64.
  pub accept_all-tallies :
      (config : PeerConfig) (s : PeerState) (arrivals : List Arrival) (k : Counter)
      → new config ≡ ok s
      → length arrivals < 2 ^ 64
      → (value k (accept_all prim words s arrivals).stats ≡ tally k (results prim words s arrivals))
        × (calls (accept_all prim words s arrivals).stats
              + oversized (results prim words s arrivals)
            ≡ length arrivals)
        × ((accept_all prim words s arrivals).stats.skipped_records
            ≡ set_apart_all (results prim words s arrivals) % 2 ^ 64)
  accept_all-tallies config s arrivals k made few =
      let none_yet = new-stats config s made in
      let start : calls s.stats ≡ 0 = ap calls none_yet in
      let zero_skipped : s.stats.skipped_records ≡ 0 = ap (λ t. t.skipped_records) none_yet in
      let below = value-calls k s.stats in
      let tallied = accept_all-value k arrivals s (omega arith) in
      let total = accept_all-calls arrivals s (omega arith) in
      let skipped = accept_all-skipped arrivals s (omega arith) in
      (omega arith, omega arith, omega arith)
