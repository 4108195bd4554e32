-- ===== src/Wire/Decode/Steps.antt =====
-- What steps 1 to 7 of `decode` establish, and what they accept.
use catp.Base.{
  subst, ℕ, ◌+◌, ◌-◌, ◌≤◌, ◌≡◌, refl, sym, ap, ◌∙◌, arith, false, not, some, ◌++◌, length, take,
  drop, Bool-cases, inl, inr,
}
use catp.Base.Words.{Bytes}
use catp.Errors.{epoch_out_of_window, auth_failed, ok}
use catp.Errors.Laws.{>>=-eq-ok, guard-eq-ok, ok_or->>=-eq-ok}
use catp.Registry.{Direction}
use catp.Registry.Laws.{CipherId_round}
use catp.Registry.CipherId
use catp.Registry.CipherId.{CipherId, tag_len}
use catp.Registry.MsgType
use catp.Registry.MsgType.{MsgType, is_time}
use catp.Epoch.{reconstruct_epoch}
use catp.Crypto.{Primitives, epoch_key, mac, ct_eq}
use catp.Crypto.Laws.{too_long, tag, mac_cases, ct_eq_iff}
use catp.Wire.Datagram.{Datagram, auth_header}
use catp.Wire.Decode.{PeerConfig, Verified, parse_header, check_header, authenticate, verify}

record Headed (buf : Bytes) (peer : PeerConfig) (out : Datagram) (mt : MsgType) (c : CipherId)
    : Type 0 where
  header : out ≡ parse_header buf
  version_eq : out.version ≡ 1
  kind_eq : MsgType.from_u8 out.msg_type ≡ some mt
  not_time : is_time mt ≡ false
  sender : out.sender_id ≡ peer.sender_id
  suite_byte : out.cipher_id ≡ CipherId.to_u8 peer.cipher
  suite : c ≡ peer.cipher
  long_enough : 9 + tag_len c ≤ length buf

check_header-Headed :
    (buf : Bytes) (peer : PeerConfig) (out : Datagram) (mt : MsgType) (c : CipherId)
    → check_header buf peer ≡ ok (out, mt, c)
    → Headed buf peer out mt c
unfolding check_header
check_header-Headed buf peer out mt c h = record {
  header = ground arith;
  version_eq = ground arith;
  kind_eq = ground arith;
  not_time = ground arith;
  sender = ground arith;
  suite_byte = ground arith;
  suite = ground (arith, CipherId_round peer.cipher);
  long_enough = ground arith;
}

abbrev pub payload_of : PeerConfig → Bytes → Bytes
payload_of peer buf = take (length buf - tag_len peer.cipher - 9) (drop 9 buf)

abbrev pub tag_of_buf : PeerConfig → Bytes → Bytes
tag_of_buf peer buf = drop (length buf - tag_len peer.cipher) buf

module _ (prim : Primitives) where
  -- What holds of a datagram that passes steps 1 to 7.
  pub record Passes (buf : Bytes) (peer : PeerConfig) (local_epoch : ℕ) (dir : Direction)
      (v : Verified) : Type 0 where
    pub header : v.out ≡ parse_header buf
    pub version_eq : v.out.version ≡ 1
    pub kind_eq : MsgType.from_u8 v.out.msg_type ≡ some v.kind
    pub not_time : is_time v.kind ≡ false
    pub sender : v.out.sender_id ≡ peer.sender_id
    pub suite : v.out.cipher_id ≡ CipherId.to_u8 peer.cipher
    pub long_enough : 9 + tag_len peer.cipher ≤ length buf
    pub in_window : reconstruct_epoch local_epoch v.out.epoch_low ≡ some v.epoch_id
    pub payload_eq : v.payload ≡ payload_of peer buf
    pub staged : too_long peer.cipher (length (auth_header v.out v.epoch_id ++ v.payload)) ≡ false
    pub authentic :
        tag_of_buf peer buf
        ≡ tag prim peer.cipher
            (epoch_key prim peer.secret v.out.sender_id v.epoch_id dir)
            (auth_header v.out v.epoch_id ++ v.payload)
            v.out.datagram_offset

  -- What `mac` returns is the tag, and within the scratch buffer.
  mac-tag :
      (c : CipherId) (key msg : Bytes) (offset : ℕ) (t : Bytes)
      → mac prim c key msg offset ≡ ok t
      → (too_long c (length msg) ≡ false) × (t ≡ tag prim c key msg offset)
  mac-tag c key msg offset t h =
      let k = mac_cases prim c key msg offset in
      elim (Bool-cases (too_long c (length msg))) [
        | inl long ↦ let k' = rw long at k in cc
        | inr fits ↦ let k' = rw fits at k in (fits, cc)
      ]

  record Authentic (buf : Bytes) (peer : PeerConfig) (local_epoch : ℕ) (dir : Direction)
      (out : Datagram) (mt : MsgType) (c : CipherId) (v : Verified) : Type 0 where
    out_eq : v.out ≡ out
    kind_eq : v.kind ≡ mt
    in_window : reconstruct_epoch local_epoch out.epoch_low ≡ some v.epoch_id
    payload_eq : v.payload ≡ take (length buf - tag_len c - 9) (drop 9 buf)
    fits : too_long c (length (auth_header out v.epoch_id ++ v.payload)) ≡ false
    authentic :
        drop (length buf - tag_len c) buf
        ≡ tag prim c
            (epoch_key prim peer.secret out.sender_id v.epoch_id dir)
            (auth_header out v.epoch_id ++ v.payload)
            out.datagram_offset

  authenticate-Authentic :
      (buf : Bytes) (peer : PeerConfig) (local_epoch : ℕ) (dir : Direction) (out : Datagram)
      (mt : MsgType) (c : CipherId) (v : Verified)
      → authenticate prim buf peer local_epoch dir (out, mt, c) ≡ ok v
      → Authentic buf peer local_epoch dir out mt c v
  unfolding authenticate
  authenticate-Authentic buf peer local_epoch dir out mt c v h =
      let (e, window, h1) =
        ok_or->>=-eq-ok (reconstruct_epoch local_epoch out.epoch_low) epoch_out_of_window _ h in
      let payload = take (length buf - tag_len c - 9) (drop 9 buf) in
      let key = epoch_key prim peer.secret out.sender_id e dir in
      let (expected, mac_ok, h2) =
        >>=-eq-ok (mac prim c key (auth_header out e ++ payload) out.datagram_offset) _ h1 in
      let (fits, eq) =
        mac-tag c key (auth_header out e ++ payload) out.datagram_offset expected mac_ok in
      let (same, h3) =
        guard-eq-ok (not (ct_eq prim expected (drop (length buf - tag_len c) buf))) auth_failed _
          h2 in
      let accepted : record { out = out; kind = mt; epoch_id = e; payload = payload } ≡ v = cc in
      let eq_tag = (ct_eq_iff prim expected (drop (length buf - tag_len c) buf)).0 (ground arith) in
      subst (Authentic buf peer local_epoch dir out mt c) accepted record {
        out_eq = refl;
        kind_eq = refl;
        in_window = window;
        payload_eq = refl;
        fits = fits;
        authentic = sym eq_tag ∙ eq;
      }

  -- A datagram that passes steps 1 to 7 has the version, a known type, the peer's identifier and
  -- suite, an epoch of the acceptance window, and a tag that is the MAC of its header, the epoch
  -- and its payload.
  pub verify-Passes :
      (buf : Bytes) (peer : PeerConfig) (local_epoch : ℕ) (dir : Direction) (v : Verified)
      → verify prim buf peer local_epoch dir ≡ ok v
      → Passes buf peer local_epoch dir v
  unfolding verify
  verify-Passes buf peer local_epoch dir v h =
      let ((out, mt, c), checked, h) =
        >>=-eq-ok (check_header buf peer) (authenticate prim buf peer local_epoch dir) h in
      let head = check_header-Headed buf peer out mt c checked in
      let auth = authenticate-Authentic buf peer local_epoch dir out mt c v h in
      record {
        header = auth.out_eq ∙ head.header;
        version_eq = ap Datagram.version auth.out_eq ∙ head.version_eq;
        kind_eq = rw (auth.out_eq, auth.kind_eq) head.kind_eq;
        not_time = rw auth.kind_eq head.not_time;
        sender = rw auth.out_eq head.sender;
        suite = rw auth.out_eq head.suite_byte;
        long_enough = rw (sym head.suite) head.long_enough;
        in_window = rw auth.out_eq auth.in_window;
        payload_eq = rw (sym head.suite) auth.payload_eq;
        staged = rw (sym head.suite, auth.out_eq) auth.fits;
        authentic = rw (sym head.suite, auth.out_eq) auth.authentic;
      }
