-- ===== src/Wire/Decode/Window.antt =====
-- What `decode` does to the replay window, and what an accepted datagram has passed.
use catp.Base.{ℕ, ◌≡◌, ◌≢◌, refl, sym, ap, ◌∙◌, inl, inr, ◌⊎◌}
use catp.Base.Words.{Bytes}
use catp.Errors.{Error, ok, err, ◌>>=◌}
use catp.Errors.Laws.{>>=-eq-ok, Result-cases}
use catp.Registry.{Direction}
use catp.Crypto.{Primitives}
use catp.Replay.{ReplayWindow, check_and_set}
use catp.Replay.Calls.{check_and_set-err}
use catp.Wire.Datagram.{Datagram}
use catp.Wire.Decode.{PeerConfig, Verified, Accepted, frame, skip_unknown, verify, admit, decode}
use catp.Wire.Decode.Steps.{Passes, verify-Passes}
use catp.Wire.Decode.RoundTrip.{decode-verify}

-- The offset `off` was fresh, and the window has it now.
abbrev pub Takes : ℕ → ReplayWindow → ℕ → ReplayWindow → Type 0
Takes words window off window' =
    ((check_and_set words window off).0 ≡ ok tt) × ((check_and_set words window off).1 ≡ window')

module _ (prim : Primitives) (words : ℕ) where
  pub decode-verify-err :
      (buf : Bytes) (peer : PeerConfig) (local_epoch : ℕ) (dir : Direction) (window : ReplayWindow)
      (e : Error)
      → verify prim buf peer local_epoch dir ≡ err e
      → decode prim words buf peer local_epoch dir window ≡ (err e, window)
  unfolding decode
  decode-verify-err buf peer local_epoch dir window e h = rw (decode, h)

  module _ (buf : Bytes) (peer : PeerConfig) (local_epoch : ℕ) (dir : Direction)
      (window : ReplayWindow) where
    -- A call either fails and leaves the window, or takes the offset of an authentic datagram.
    pub decode-cases :
        ((e : Error) × ((decode prim words buf peer local_epoch dir window).0 ≡ err e)
          × ((decode prim words buf peer local_epoch dir window).1 ≡ window))
        ⊎ ((v : Verified) × Passes prim buf peer local_epoch dir v
            × Takes words window v.out.datagram_offset
                (decode prim words buf peer local_epoch dir window).1)
    unfolding admit
    decode-cases = elim (Result-cases (verify prim buf peer local_epoch dir)) [
      | inr (e, h) ↦
          let k = decode-verify-err buf peer local_epoch dir window e h in
          inl (e, ap (λ x. x.0) k, ap (λ x. x.1) k)
      | inl (v, h) ↦
          let step = decode-verify prim words buf peer local_epoch dir window v h in
          elim (Result-cases (check_and_set words window v.out.datagram_offset).0) [
            | inr (e, bad) ↦ inl (
              e,
              ap (λ x. x.0) step ∙ rw bad refl,
              ap (λ x. x.1) step ∙ (check_and_set-err words window v.out.datagram_offset e bad).1,
            )
            | inl (u, good) ↦ inr (
              v,
              verify-Passes prim buf peer local_epoch dir v h,
              (good, ap (λ x. x.1) (sym step)),
            )
          ]
    ]

    -- Where `decode` changes the window, the datagram passes the checks up to its tag, which is the
    -- MAC of its header, the epoch and its payload, and the change is that of `check_and_set` on its
    -- offset, which was fresh.
    pub decode_window :
        (decode prim words buf peer local_epoch dir window).1 ≢ window
        → (v : Verified) × Passes prim buf peer local_epoch dir v
          × Takes words window v.out.datagram_offset
              (decode prim words buf peer local_epoch dir window).1
    decode_window changed = elim decode-cases [
      | inl (e, failed, same) ↦ absurd (changed same)
      | inr taken ↦ taken
    ]

    -- An accepted datagram has passed every check: it has version 1, a known type that is not for
    -- time recovery, and the peer's identifier and suite; its epoch is of the acceptance window; its tag is
    -- the MAC over its header, the epoch and the payload under that epoch's key; its offset was
    -- fresh and now is in the window; its payload framed; and what is returned is the framed
    -- datagram with that epoch, records of unknown layouts set apart.
    pub decode-ok :
        (acc : Accepted)
        → (decode prim words buf peer local_epoch dir window).0 ≡ ok acc
        → (v : Verified) × (out : Datagram) × Passes prim buf peer local_epoch dir v
          × Takes words window v.out.datagram_offset
              (decode prim words buf peer local_epoch dir window).1
          × (frame v.kind v.out v.payload ≡ ok out)
          × (acc ≡ skip_unknown peer.layouts v.epoch_id out)
    unfolding admit
    decode-ok acc h = elim (Result-cases (verify prim buf peer local_epoch dir)) [
      | inr (e, bad) ↦
          let k = ap (λ x. x.0) (decode-verify-err buf peer local_epoch dir window e bad) in
          let no : err e ≡ ok acc = sym k ∙ h in cc
      | inl (v, good) ↦
          let step = decode-verify prim words buf peer local_epoch dir window v good in
          let (u, fresh, h1) =
            >>=-eq-ok (check_and_set words window v.out.datagram_offset).0
              (λ u. frame v.kind v.out v.payload >>= λ out.
                ok (skip_unknown peer.layouts v.epoch_id out))
              (sym (ap (λ x. x.0) step) ∙ h) in
          let (out, framed, h2) = >>=-eq-ok (frame v.kind v.out v.payload) _ h1 in
          (
            v,
            out,
            verify-Passes prim buf peer local_epoch dir v good,
            (fresh, ap (λ x. x.1) (sym step)),
            framed,
            cc,
          )
    ]
