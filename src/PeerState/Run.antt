-- ===== src/PeerState/Run.antt =====
-- A run of arrivals at one receiver.
use catp.Base.{
  ℕ, ◌*◌, ◌^◌, ◌≤◌, ◌<◌, ◌≡◌, refl, ◌≢◌, ap, arith, false, none, List, [], ◌∷◌, All, inl, inr,
}
use catp.Base.Words.{Bytes, IsByte}
use catp.Errors.{Result, ok, err}
use catp.Registry.{Direction}
use catp.Crypto.{Primitives}
use catp.Replay.History.{contains}
use catp.Wire.Decode.{PeerConfig, Accepted, parse_header}
use catp.PeerState.{PeerState, new, holding, accept}
use catp.PeerState.Windows.{held, apart}
use catp.PeerState.History.{Taken, take_offset, Tracks}
use catp.PeerState.Step.{accept-Outcome}

-- The arguments of one call of `accept`.
pub record Arrival : Type 0 where
  pub buf : Bytes
  pub local_epoch : ℕ
  pub dir : Direction
  pub now_ms : ℕ

abbrev pub pair_of : Accepted → ℕ × ℕ
pair_of acc = (acc.epoch_id, acc.datagram_offset)

-- The epoch and the offset of a result, put before those of the calls behind it.
unfoldable pub add_pair : Result Accepted → List (ℕ × ℕ) → List (ℕ × ℕ)
add_pair (ok acc) pairs = pair_of acc ∷ pairs
add_pair (err e) pairs = pairs

-- The epoch and offset of each accepted datagram, in the order of arrival.
unfoldable pub accepted_pairs : Primitives → ℕ → PeerState → List Arrival → List (ℕ × ℕ)
accepted_pairs prim words s [] = []
accepted_pairs prim words s (a ∷ arrivals) =
    let (r, s') = accept words prim s a.buf a.local_epoch a.dir a.now_ms in
    add_pair r (accepted_pairs prim words s' arrivals)

-- The receiver's clock, from epoch `l` on, is never set back; epochs are u32 and buffers hold bytes.
pub data Forward : ℕ → List Arrival → Type 0 where
  stop : {l : ℕ} → Forward l []
  go :
      {l : ℕ} {a : Arrival} {arrivals : List Arrival}
      → l ≤ a.local_epoch
      → a.local_epoch < 2 ^ 32
      → All IsByte a.buf
      → Forward a.local_epoch arrivals
      → Forward l (a ∷ arrivals)

abbrev pub IsNew : Taken → ℕ × ℕ → Type 0
IsNew taken (e, o) = contains o (taken e) ≡ false

abbrev pub NoRepeats : List (ℕ × ℕ) → Type 0
NoRepeats [] = Unit {0}
NoRepeats (p ∷ ps) = All (λ q. q ≢ p) ps × NoRepeats ps

-- What is new once an offset is taken was new before, and is not that offset.
IsNew-apart :
    (e o : ℕ) (taken : Taken) (q : ℕ × ℕ)
    → IsNew (take_offset e o taken) q
    → IsNew taken q × (q ≢ (e, o))
unfolding contains take_offset
IsNew-apart e o taken (e', o') h =
    (ground arith, λ eq. ground (arith, ap (λ x. x.0) eq, ap (λ x. x.1) eq))

All-IsNew_apart :
    (e o : ℕ) (taken : Taken) (ps : List (ℕ × ℕ))
    → All (IsNew (take_offset e o taken)) ps
    → All (IsNew taken) ps × All (λ q. q ≢ (e, o)) ps
All-IsNew_apart e o taken [] h = (tt, tt)
All-IsNew_apart e o taken (q ∷ qs) (h, hs) =
    let (a, b) = IsNew-apart e o taken q h in
    let (as', bs) = All-IsNew_apart e o taken qs hs in ((a, as'), (b, bs))

-- The pair of a result put before pairs that are new once it is taken.
add_pair-IsNew :
    (e o : ℕ) (taken : Taken) (r : Result Accepted) (ps : List (ℕ × ℕ))
    → contains o (taken e) ≡ false
    → ((acc : Accepted) → r ≡ ok acc → (acc.epoch_id ≡ e) × (acc.datagram_offset ≡ o))
    → All (IsNew (take_offset e o taken)) ps
    → NoRepeats ps
    → All (IsNew taken) (add_pair r ps) × NoRepeats (add_pair r ps)
unfolding add_pair
add_pair-IsNew e o taken (err x) ps fresh named news distinct =
    ((All-IsNew_apart e o taken ps news).0, distinct)
add_pair-IsNew e o taken (ok acc) ps fresh named news distinct =
    let (same_e, same_o) = named acc refl in
    let (old, others) = All-IsNew_apart e o taken ps news in
    rw (same_e, same_o) ((fresh, old), (others, distinct))

module _ (prim : Primitives) (words : ℕ) (some_words : 0 < words)
    (small : words * 64 < 2 ^ 32) where
  new-windows :
      (config : PeerConfig) (s : PeerState)
      → new config ≡ ok s
      → s.windows ≡ record { slot0 = none; slot1 = none }
  unfolding new
  new-windows config s h = ground arith

  new-Tracks :
      (config : PeerConfig) (s : PeerState)
      → new config ≡ ok s
      → Tracks words some_words small 0 s.windows (λ e. [])
  unfolding held holding apart
  new-Tracks config s h = rw (new-windows config s h) record {
    distinct = refl;
    window_Refines = λ e w k. cc;
    no_later = λ e later. refl;
    no_window = λ e k le. refl;
  }

  accepted_pairs-Tracks :
      (l : ℕ) (arrivals : List Arrival) (s : PeerState) (taken : Taken)
      → Tracks words some_words small l s.windows taken
      → Forward l arrivals
      → All (IsNew taken) (accepted_pairs prim words s arrivals)
        × NoRepeats (accepted_pairs prim words s arrivals)
  unfolding accepted_pairs add_pair
  accepted_pairs-Tracks l [] s taken t stop = (tt, tt)
  accepted_pairs-Tracks l (a ∷ arrivals) s taken t (go forward lt bytes f) =
      elim (accept-Outcome prim words some_words small s l a.local_epoch taken t forward lt a.buf
        bytes a.dir a.now_ms) [
          | inl (e, failed, t') ↦ rw failed (
              accepted_pairs-Tracks a.local_epoch arrivals
                (accept words prim s a.buf a.local_epoch a.dir a.now_ms).1 taken t' f)
          | inr (e, fresh, t', named) ↦
              let o = (parse_header a.buf).datagram_offset in
              let s' = (accept words prim s a.buf a.local_epoch a.dir a.now_ms).1 in
              let (news, distinct) =
                accepted_pairs-Tracks a.local_epoch arrivals s' (take_offset e o taken) t' f in
              add_pair-IsNew e o taken (accept words prim s a.buf a.local_epoch a.dir a.now_ms).0
                (accepted_pairs prim words s' arrivals) fresh named news distinct
        ]

  -- For a window of at least one word and less than 2^32 ticks: on any run of arrivals, of any
  -- bytes, at a new receiver whose u32 epoch is never set back, no two accepted datagrams have the
  -- same epoch and offset.
  pub accepted_pairs-NoRepeats :
      (config : PeerConfig) (s : PeerState) (arrivals : List Arrival)
      → new config ≡ ok s
      → Forward 0 arrivals
      → NoRepeats (accepted_pairs prim words s arrivals)
  accepted_pairs-NoRepeats config s arrivals made forward =
      (accepted_pairs-Tracks 0 arrivals s (λ e. []) (new-Tracks config s made) forward).1
