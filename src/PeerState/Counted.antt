-- ===== src/PeerState/Counted.antt =====
-- Which errors `accept` can return, and what a call adds to the sum of the counters.
use catp.Base.{
  ℕ, ◌+◌, ◌-◌, ◌*◌, drop, take, ◌++◌, ◌^◌, ◌<◌, ◌≡◌, refl, ap, ◌∙◌, arith, zero, suc, Bool, true,
  false, List, [], ◌∷◌, Option, none, some, bit_and, get_or, ltb, length, if◌then◌else◌, inl, inr,
  Bool-cases, Option-cases,
}
use catp.Base.Words.{Bytes}
use catp.Errors.{Error, oversize, epoch_out_of_window, Result, ok, err, ◌>>=◌, ok_or}
use catp.Errors.Laws.{Result-cases}
use catp.Registry.{Direction}
use catp.Registry.CipherId.{CipherId, tag_len}
use catp.Registry.Laws.{CipherId_round}
use catp.Registry.MsgType.{
  MsgType, message, event, alarm, number, series, epoch_announce, time_announce, time_request,
  heartbeat, capability_advertise,
}
use catp.Epoch.{reconstruct_epoch}
use catp.Payload.{validate_number, validate_series, read_entries, as_chunks}
use catp.Replay.{ReplayWindow, check_and_set}
use catp.Replay.Calls.{check_and_set-err}
use catp.Crypto.{Primitives, mac, epoch_key}
use catp.Crypto.Laws.{mac_cases}
use catp.Stats.Count.{calls, has_counter, counted, calls-record_result}
use catp.Wire.Record
use catp.Wire.Record.{Record}
use catp.Wire.Datagram.{Datagram, auth_header}
use catp.Wire.Decode.{
  PeerConfig, Verified, Accepted, check_header, authenticate, verify, read_records, frame_records,
  frame, skip_unknown, admit, decode,
}
use catp.Wire.Decode.RoundTrip.{decode-verify}
use catp.Wire.Decode.Window.{decode-verify-err}
use catp.PeerState.{PeerState, window_for, prune, spend, accept_in, accept_inner, accept}

-- The errors that a datagram can meet.
unfoldable pub can_meet : Error → Bool
unfolding has_counter
can_meet (oversize n) = true
can_meet e = has_counter e

unfoldable pub within {ℓ} : {A : Type ℓ} → Result A → Bool
within (ok a) = true
within (err e) = can_meet e

within->>= {ℓ κ} :
    {A : Type ℓ} {B : Type κ} (m : Result A) (f : A → Result B)
    → within m ≡ true
    → ((a : A) → within (f a) ≡ true)
    → within (m >>= f) ≡ true
unfolding within
within->>= (ok a) f h k = k a
within->>= (err e) f h k = h

err-within {ℓ κ} :
    {A : Type ℓ} (B : Type κ) (m : Result A) (e : Error)
    → m ≡ err e
    → within m ≡ true
    → within {A = B} (err e) ≡ true
unfolding within
err-within B (ok a) e h w = cc
err-within B (err x) e h w = let same : x ≡ e = cc in rw (← same) w

check_header-within : (buf : Bytes) (peer : PeerConfig) → within (check_header buf peer) ≡ true
unfolding check_header within can_meet has_counter
check_header-within buf peer = ground (arith, CipherId_round peer.cipher)

mac-within :
    (prim : Primitives) (c : CipherId) (key msg : Bytes) (offset : ℕ)
    → within (mac prim c key msg offset) ≡ true
unfolding within can_meet
mac-within prim c key msg offset = rw (mac_cases prim c key msg offset) (ground arith)

authenticate-within :
    (prim : Primitives) (buf : Bytes) (peer : PeerConfig) (l : ℕ) (dir : Direction)
    (x : Datagram × MsgType × CipherId)
    → within (authenticate prim buf peer l dir x) ≡ true
unfolding authenticate within can_meet has_counter
authenticate-within prim buf peer l dir (out, mt, c) =
    within->>= (ok_or (reconstruct_epoch l out.epoch_low) epoch_out_of_window) _
      (at (reconstruct_epoch l out.epoch_low))
      (λ e.
        within->>=
          (mac prim c (epoch_key prim peer.secret out.sender_id e dir)
            (auth_header out e ++ take (length buf - tag_len c - 9) (drop 9 buf))
            out.datagram_offset)
          _ (mac-within prim c _ _ out.datagram_offset) (λ expected. ground arith))
  where
    at : (m : Option ℕ) → within (ok_or m epoch_out_of_window) ≡ true
    at none = refl
    at (some e) = refl

record_decode-within : (buf : Bytes) → within (Record.decode buf) ≡ true
unfolding Record.decode within can_meet has_counter
record_decode-within buf = ground arith

read_records-within : (n : ℕ) (buf : Bytes) → within (read_records n buf) ≡ true
unfolding read_records within can_meet has_counter
read_records-within zero [] = refl
read_records-within (suc n) [] = refl
read_records-within (suc n) (b ∷ bs) = read_records-within n bs
read_records-within zero (b ∷ bs) =
    within->>= (Record.decode (b ∷ bs)) _ (record_decode-within (b ∷ bs)) (λ x.
      within->>= (read_records (x.1 - 1) bs) _ (read_records-within (x.1 - 1) bs) (λ rest. refl))

frame_records-within :
    (kind : MsgType) (o : Datagram) (payload : Bytes) → within (frame_records kind o payload) ≡ true
unfolding frame_records within can_meet has_counter
frame_records-within kind o payload = ground (arith, read_records-within 0 payload)

validate_number-within : (p : Bytes) → within (validate_number p) ≡ true
unfolding validate_number within can_meet has_counter
validate_number-within p = ground arith

read_entries-within : (cum : ℕ) (es : List (ℕ × ℕ × ℕ × ℕ)) → within (read_entries cum es) ≡ true
unfolding read_entries within can_meet has_counter
read_entries-within cum [] = refl
read_entries-within cum ((a, b, c, d) ∷ es) =
    ground (arith, read_entries-within (cum + (a * 256 + b)) es)

validate_series-within : (p : Bytes) (anchor : ℕ) → within (validate_series p anchor) ≡ true
unfolding validate_series within can_meet has_counter
validate_series-within p anchor =
    ground (arith, read_entries-within anchor (as_chunks (drop 3 p)).0)

frame-within :
    (kind : MsgType) (o : Datagram) (payload : Bytes) → within (frame kind o payload) ≡ true
unfolding frame within can_meet has_counter
frame-within message o payload = frame_records-within message o payload
frame-within event o payload = frame_records-within event o payload
frame-within alarm o payload = frame_records-within alarm o payload
frame-within number o payload = ground (arith, validate_number-within payload)
frame-within series o payload = ground (arith, validate_series-within payload o.datagram_offset)
frame-within epoch_announce o payload = refl
frame-within time_announce o payload = refl
frame-within time_request o payload = refl
frame-within heartbeat o payload = refl
frame-within capability_advertise o payload = refl

unfoldable pub is_oversize : Result Accepted → Bool
is_oversize (err (oversize n)) = true
is_oversize _ = false

within-counted :
    (r : Result Accepted) → within r ≡ true → counted r ≡ (if is_oversize r then 0 else 1)
unfolding within can_meet has_counter is_oversize
within-counted (ok acc) h = refl
within-counted (err e) h = counted_error e h
  where
    counted_error :
        (e : Error) → can_meet e ≡ true → counted (err e) ≡ (if is_oversize (err e) then 0 else 1)
    counted_error (oversize n) h = refl
    counted_error _ h = ground arith

module _ (prim : Primitives) (words : ℕ) where
  verify-within :
      (buf : Bytes) (peer : PeerConfig) (l : ℕ) (dir : Direction)
      → within (verify prim buf peer l dir) ≡ true
  unfolding verify
  verify-within buf peer l dir =
      within->>= (check_header buf peer) _ (check_header-within buf peer)
        (λ x. authenticate-within prim buf peer l dir x)

  admit-within :
      (v : Verified) (peer : PeerConfig) (window : ReplayWindow)
      → within (admit prim words v peer window).0 ≡ true
  unfolding admit
  admit-within v peer window =
      within->>= (check_and_set words window v.out.datagram_offset).0 _ checked (λ u.
        within->>= (frame v.kind v.out v.payload) _ (frame-within v.kind v.out v.payload)
          (λ out. accepted out))
    where
      checked : within (check_and_set words window v.out.datagram_offset).0 ≡ true
      checked = elim (Result-cases (check_and_set words window v.out.datagram_offset).0) [
        | inl (u, good) ↦ rw good (unfold within in refl)
        | inr (e, bad) ↦ rw bad (
            rw (check_and_set-err words window v.out.datagram_offset e bad).0
              (unfold within can_meet has_counter in refl))
      ]

      accepted : (out : Datagram) → within (ok (skip_unknown peer.layouts v.epoch_id out)) ≡ true
      accepted out = unfold within in refl

  decode-within :
      (buf : Bytes) (peer : PeerConfig) (l : ℕ) (dir : Direction) (window : ReplayWindow)
      → within (decode prim words buf peer l dir window).0 ≡ true
  decode-within buf peer l dir window = elim (Result-cases (verify prim buf peer l dir)) [
    | inl (v, good) ↦
        rw (decode-verify prim words buf peer l dir window v good) (admit-within v peer window)
    | inr (e, bad) ↦
        rw (decode-verify-err prim words buf peer l dir window e bad)
          (err-within Accepted (verify prim buf peer l dir) e bad (verify-within buf peer l dir))
  ]

  accept_in-within :
      (e : ℕ) (s : PeerState) (buf : Bytes) (l : ℕ) (dir : Direction) (now_ms : ℕ)
      → within (accept_in words prim e s buf l dir now_ms).0 ≡ true
  unfolding accept_in spend within can_meet has_counter
  accept_in-within e s buf l dir now_ms =
      ground (arith, decode-within buf s.config l dir (window_for words (prune l s.windows) e).1)

  accept_in-stats :
      (e : ℕ) (s : PeerState) (buf : Bytes) (l : ℕ) (dir : Direction) (now_ms : ℕ)
      → (accept_in words prim e s buf l dir now_ms).1.stats ≡ s.stats
  unfolding accept_in spend
  accept_in-stats e s buf l dir now_ms = ground arith

  pub accept_inner-within :
      (s : PeerState) (buf : Bytes) (l : ℕ) (dir : Direction) (now_ms : ℕ)
      → (within (accept_inner words prim s buf l dir now_ms).0 ≡ true)
        × ((accept_inner words prim s buf l dir now_ms).1.stats ≡ s.stats)
  unfolding accept_inner within can_meet has_counter
  accept_inner-within s buf l dir now_ms = elim (Bool-cases (ltb (length buf) 9)) [
    | inl short ↦ rw short (refl, refl)
    | inr long ↦ elim (Option-cases (reconstruct_epoch l (bit_and (get_or buf 1 0) 0x0f))) [
      | inl far ↦ rw (long, far) (refl, refl)
      | inr (e, near) ↦
          rw (long, near)
            (accept_in-within e s buf l dir now_ms, accept_in-stats e s buf l dir now_ms)
    ]
  ]

  -- Every call of `accept` adds one to the sum of the counters, as long as it has not reached 2^64;
  -- except that a call that fails with `Oversize` adds nothing.
  pub calls-accept :
      (s : PeerState) (buf : Bytes) (l : ℕ) (dir : Direction) (now_ms : ℕ)
      → calls s.stats + 1 < 2 ^ 64
      → calls (accept words prim s buf l dir now_ms).1.stats
        ≡ calls s.stats + (if is_oversize (accept words prim s buf l dir now_ms).0 then 0 else 1)
  unfolding accept
  calls-accept s buf l dir now_ms h =
      let r = (accept_inner words prim s buf l dir now_ms).0 in
      let (met, same) = accept_inner-within s buf l dir now_ms in
      rw same (calls-record_result s.stats r h) ∙ ap (λ n. calls s.stats + n) (within-counted r met)
