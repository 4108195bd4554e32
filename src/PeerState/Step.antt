-- ===== src/PeerState/Step.antt =====
-- One call of `accept`, over the offsets taken before it.
use catp.Base.{
  ℕ, ◌*◌, ◌^◌, ◌≤◌, ◌<◌, ◌≡◌, refl, sym, ap, ◌∙◌, arith, Bool, true, false, bit_and, Option, none,
  some, List, ◌∷◌, All, get_or, length, ltb, inl, inr, ◌⊎◌, Bool-cases,
}
use catp.Base.Words.{Bytes, IsByte}
use catp.Errors.{Error, too_short, epoch_out_of_window, Result, ok, err}
use catp.Registry.{Direction}
use catp.Epoch.{reconstruct_epoch}
use catp.Epoch.Reconstruct.{reconstruct_epoch_iff}
use catp.Crypto.{Primitives}
use catp.Replay.{ReplayWindow, entries}
use catp.Replay.History.{contains, is_fresh, contains-ne-fresh}
use catp.Replay.Refines.{Refines, check_and_set-Refines}
use catp.Wire.Datagram.{Datagram}
use catp.Wire.Decode.{PeerConfig, Verified, Accepted, parse_header, decode}
use catp.Wire.Decode.Steps.{Passes}
use catp.Wire.Decode.Window.{Takes, decode-cases, decode-ok}
use catp.PeerState.{PeerState, window_for, prune, spend, accept_in, accept_inner, accept}
use catp.PeerState.Windows.{Accepts, put_back}
use catp.PeerState.History.{
  Taken, take_offset, take_offset-same, take_offset-other, Tracks, Tracks-later, handed-Refines,
  after-Tracks,
}
use catp.PeerState.Offsets.{accepted_parts, parse_header-lt, frame-offset}

module _ (prim : Primitives) (words : ℕ) where
  -- The window that `accept_in` hands to `decode`, and what `decode` does.
  abbrev pub decoded : ℕ → PeerState → Bytes → ℕ → Direction → Result Accepted × ReplayWindow
  decoded e s buf local_epoch dir =
      decode prim words buf s.config local_epoch dir
        (window_for words (prune local_epoch s.windows) e).1

  accept_in-windows :
      (e : ℕ) (s : PeerState) (buf : Bytes) (l : ℕ) (dir : Direction) (now_ms : ℕ)
      → (accept_in words prim e s buf l dir now_ms).1.windows
        ≡ put_back words (prune l s.windows) e (decoded e s buf l dir).1
  unfolding accept_in spend
  accept_in-windows e s buf l dir now_ms = ground arith

  accept_in-err :
      (e : ℕ) (s : PeerState) (buf : Bytes) (l : ℕ) (dir : Direction) (now_ms : ℕ) (x : Error)
      → (decoded e s buf l dir).0 ≡ err x
      → (accept_in words prim e s buf l dir now_ms).0 ≡ err x
  unfolding accept_in spend
  accept_in-err e s buf l dir now_ms x h = ground arith

  accept_in-ok :
      (e : ℕ) (s : PeerState) (buf : Bytes) (l : ℕ) (dir : Direction) (now_ms : ℕ) (acc : Accepted)
      → (accept_in words prim e s buf l dir now_ms).0 ≡ ok acc
      → (decoded e s buf l dir).0 ≡ ok acc
  unfolding accept_in spend
  accept_in-ok e s buf l dir now_ms acc h = ground arith

  pub accept_inner-cases :
      (s : PeerState) (buf : Bytes) (l : ℕ) (dir : Direction) (now_ms : ℕ)
      → ((x : Error) × (accept_inner words prim s buf l dir now_ms ≡ (err x, s)))
        ⊎ ((e : ℕ) × (reconstruct_epoch l (bit_and (get_or buf 1 0) 0x0f) ≡ some e)
            × (accept_inner words prim s buf l dir now_ms
                ≡ accept_in words prim e s buf l dir now_ms))
  unfolding accept_inner
  accept_inner-cases s buf l dir now_ms =
      let r = at (ltb (length buf) 9) (reconstruct_epoch l (bit_and (get_or buf 1 0) 0x0f)) refl in
      ground (arith, r)
    where
      chosen : Bool → Option ℕ → Result Accepted × PeerState
      chosen true m = (err too_short, s)
      chosen false none = (err epoch_out_of_window, s)
      chosen false (some epoch) = accept_in words prim epoch s buf l dir now_ms

      at :
          (short : Bool) (m : Option ℕ)
          → reconstruct_epoch l (bit_and (get_or buf 1 0) 0x0f) ≡ m
          → ((x : Error) × (chosen short m ≡ (err x, s)))
            ⊎ ((e : ℕ) × (reconstruct_epoch l (bit_and (get_or buf 1 0) 0x0f) ≡ some e)
                × (chosen short m ≡ accept_in words prim e s buf l dir now_ms))
      at true m h = inl (too_short, refl)
      at false none h = inl (epoch_out_of_window, refl)
      at false (some e) h = inr (e, h, refl)

some_inj_ℕ : (a b : ℕ) → some a ≡ some b → a ≡ b
some_inj_ℕ a b h = cc

-- What holds of two datagrams' checks of one buffer.
same_header :
    {prim : Primitives} {buf : Bytes} {peer : PeerConfig} {l : ℕ} {dir : Direction} {v : Verified}
    → Passes prim buf peer l dir v
    → (e : ℕ) → reconstruct_epoch l (bit_and (get_or buf 1 0) 0x0f) ≡ some e
    → (v.epoch_id ≡ e) × (v.out.datagram_offset ≡ (parse_header buf).datagram_offset)
unfolding parse_header
same_header p e h =
    (some_inj_ℕ _ _ (sym p.in_window ∙ rw p.header h), ap Datagram.datagram_offset p.header)

module _ (prim : Primitives) (words : ℕ) (some_words : 0 < words) (small : words * 64 < 2 ^ 32)
    (s : PeerState) (l l' : ℕ) (taken : Taken) (t : Tracks words some_words small l s.windows taken)
    (forward : l ≤ l') (lt : l' < 2 ^ 32) (buf : Bytes) (bytes : All IsByte buf) (dir : Direction)
    (now_ms : ℕ) where
  abbrev off : ℕ
  off = (parse_header buf).datagram_offset

  -- A window that took an offset stands for one more, which is new.
  Takes-Refines :
      (w w' : ReplayWindow) (hist : List ℕ)
      → Refines words w hist
      → Takes words w off w'
      → (contains off hist ≡ false) × Refines words w' (off ∷ hist)
  Takes-Refines w w' hist r (good, left) =
      let (same, r') =
        check_and_set-Refines words some_words small w hist off r
          (omega (arith, parse_header-lt buf bytes)) in
      let fresh : is_fresh (entries words) hist off ≡ true = sym same ∙ rw good refl in
      (
        elim (Bool-cases (contains off hist)) [
          | inr absent ↦ absent
          | inl there ↦
              let no : true ≡ false =
                sym fresh ∙ contains-ne-fresh (entries words) hist off there in
              cc
        ],
        rw (← left) (rw fresh at r'),
      )

  -- What one call does to the offsets taken.
  abbrev pub Outcome : Result Accepted × PeerState → Type 0
  Outcome out =
      ((e : Error) × (out.0 ≡ err e) × Tracks words some_words small l' out.1.windows taken)
      ⊎ ((e : ℕ) × (contains off (taken e) ≡ false)
          × Tracks words some_words small l' out.1.windows (take_offset e off taken)
          × ((acc : Accepted) → out.0 ≡ ok acc → (acc.epoch_id ≡ e) × (acc.datagram_offset ≡ off)))

  accept_in-Outcome :
      (e : ℕ)
      → reconstruct_epoch l' (bit_and (get_or buf 1 0) 0x0f) ≡ some e
      → Outcome (accept_in words prim e s buf l' dir now_ms)
  accept_in-Outcome e h = elim (decode-cases prim words buf s.config l' dir handed) [
    | inl (x, failed, kept) ↦ inl (
      x,
      accept_in-err prim words e s buf l' dir now_ms x failed,
      rw windows (
          rw kept (
            after-Tracks words some_words small l l' e s.windows taken t forward lt acc_e handed
              taken handed-ok (λ e' ne. refl))),
    )
    | inr (v, p, (good, left)) ↦
        let (same_e, same_off) = same_header p e h in
        let (fresh, r) =
          Takes-Refines handed (decoded prim words e s buf l' dir).1 (taken e) handed-ok
            (rw same_off at good, rw same_off at left) in
        inr (
          e,
          fresh,
          rw windows (
              after-Tracks words some_words small l l' e s.windows taken t forward lt acc_e _
                (take_offset e off taken) (rw (take_offset-same e off taken) r)
                (λ e' ne. take_offset-other e off taken e' ne)),
          λ acc k. reported acc (accept_in-ok prim words e s buf l' dir now_ms acc k),
        )
  ]
    where
      acc_e : Accepts l' e
      acc_e = (
        ground (arith, (reconstruct_epoch_iff l' (bit_and (get_or buf 1 0) 0x0f) e).0 h),
        ground (arith, (reconstruct_epoch_iff l' (bit_and (get_or buf 1 0) 0x0f) e).0 h),
      )

      handed : ReplayWindow
      handed = (window_for words (prune l' s.windows) e).1

      handed-ok : Refines words handed (taken e)
      handed-ok = handed-Refines words some_words small l l' e s.windows taken t forward lt acc_e

      windows :
          (accept_in words prim e s buf l' dir now_ms).1.windows
          ≡ put_back words (prune l' s.windows) e (decoded prim words e s buf l' dir).1
      windows = accept_in-windows prim words e s buf l' dir now_ms

      reported :
          (acc : Accepted)
          → (decoded prim words e s buf l' dir).0 ≡ ok acc
          → (acc.epoch_id ≡ e) × (acc.datagram_offset ≡ off)
      reported acc k =
          let (v, out, p, takes, framed, eq) =
            decode-ok prim words buf s.config l' dir handed acc k in
          let (same_e, same_off) = same_header p e h in
          let (a, b) = accepted_parts s.config.layouts v.epoch_id out acc eq in
          (a ∙ same_e, b ∙ frame-offset v.kind v.out v.payload out framed ∙ same_off)

  fails-Outcome : (x : Error) → Outcome (err x, s)
  fails-Outcome x =
      inl (x, refl, Tracks-later words some_words small l l' s.windows taken t forward)

  accept_inner-Outcome : Outcome (accept_inner words prim s buf l' dir now_ms)
  accept_inner-Outcome = elim (accept_inner-cases prim words s buf l' dir now_ms) [
    | inl (x, h) ↦ rw h (fails-Outcome x)
    | inr (e, near, h) ↦ rw h (accept_in-Outcome e near)
  ]

  -- One call: it fails and takes nothing, or it takes the offset of its datagram, which was not taken
  -- in the epoch that it names.
  pub accept-Outcome : Outcome (accept words prim s buf l' dir now_ms)
  unfolding accept
  accept-Outcome = accept_inner-Outcome
