-- ===== src/Wire/Decode/Accepts.antt =====
-- Steps 1 to 7 accept the wire form of a datagram that is meant for the receiver.
use catp.Base.{
  ℕ, ◌+◌, ◌-◌, ◌%◌, ◌≤◌, ◌≡◌, refl, sym, ap, ◌∙◌, arith, false, ◌!=◌, some, ◌++◌, length, drop,
  length-append, take-append, drop-append, ge→ltb, ◌⊎◌,
}
use catp.Base.Words.{Bytes}
use catp.Errors.{ok}
use catp.Registry.{Direction}
use catp.Registry.Laws.{CipherId_round, MsgType_round}
use catp.Registry.CipherId
use catp.Registry.CipherId.{CipherId, tag_len}
use catp.Registry.MsgType
use catp.Registry.MsgType.{MsgType, is_time}
use mathlib.Core.List.{append_assoc}
use catp.Epoch.{reconstruct_epoch}
use catp.Epoch.Reconstruct.{reconstruct_epoch-low}
use catp.Crypto.{Primitives, epoch_key}
use catp.Crypto.Laws.{too_long, tag, length-tag, mac_cases, ct_eq_iff}
use catp.Wire.Datagram.{Datagram, header_bytes, auth_header, payload_len}
use catp.Wire.Datagram.Header.{IsHeader, length-header_bytes, length-auth_header}
use catp.Wire.Datagram.Payload.{payload_bytes, length-payload_bytes}
use catp.Wire.Datagram.Encode.{wire_bytes}
use catp.Wire.Decode.{PeerConfig, check_header, authenticate, verify}
use catp.Wire.Decode.Header.{bare, parse_header-header_bytes}

-- A datagram that a sender with the peer's configuration seals in epoch `epoch_id`, the receiver's
-- epoch or the one before.
pub record IsFrom (peer : PeerConfig) (local_epoch epoch_id : ℕ) (kind : MsgType) (d : Datagram)
    : Type 0 where
  pub header : IsHeader d
  pub version_eq : d.version ≡ 1
  pub kind_eq : d.msg_type ≡ MsgType.to_u8 kind
  pub not_time : is_time kind ≡ false
  pub sender : d.sender_id ≡ peer.sender_id
  pub suite : d.cipher_id ≡ CipherId.to_u8 peer.cipher
  pub low : d.epoch_low ≡ epoch_id % 16
  pub near : (epoch_id ≡ local_epoch) ⊎ (epoch_id + 1 ≡ local_epoch)

differs : (a b : ℕ) → a ≡ b → (a != b) ≡ false
differs a b h = ground arith

-- Steps 6 and 7 on a header, a payload and the tag over them.
authenticate-ok :
    (prim : Primitives) (peer : PeerConfig) (local_epoch e : ℕ) (dir : Direction) (out : Datagram)
    (mt : MsgType) (c : CipherId) (head payload : Bytes)
    → length head ≡ 9
    → reconstruct_epoch local_epoch out.epoch_low ≡ some e
    → too_long c (length (auth_header out e ++ payload)) ≡ false
    → authenticate prim
        (head
          ++ (payload
              ++ tag prim c
                  (epoch_key prim peer.secret out.sender_id e dir)
                  (auth_header out e ++ payload)
                  out.datagram_offset))
        peer
        local_epoch
        dir
        (out, mt, c)
      ≡ ok (record { out = out; kind = mt; epoch_id = e; payload = payload })
unfolding authenticate
authenticate-ok prim peer local_epoch e dir out mt c head payload nine near fits = rw near (
    rw (behind, body_len, take-append payload t (length payload) refl)
      (rw (mac_cases prim c key (auth_header out e ++ payload) out.datagram_offset, fits)
        (rw (at_tag, (ct_eq_iff prim t t).1 refl))))
  where
    key : Bytes
    key = epoch_key prim peer.secret out.sender_id e dir

    t : Bytes
    t = tag prim c key (auth_header out e ++ payload) out.datagram_offset

    tag_length : length t ≡ tag_len c
    tag_length = length-tag prim c key (auth_header out e ++ payload) out.datagram_offset

    total : length (head ++ (payload ++ t)) ≡ 9 + length payload + tag_len c
    total = length-append head (payload ++ t) ∙ omega (arith, length-append payload t, tag_length)

    behind : drop 9 (head ++ (payload ++ t)) ≡ payload ++ t
    behind = drop-append head (payload ++ t) 9 nine

    body_len : length (head ++ (payload ++ t)) - tag_len c - 9 ≡ length payload
    body_len = omega (arith, total)

    at_tag : drop (length (head ++ (payload ++ t)) - tag_len c) (head ++ (payload ++ t)) ≡ t
    at_tag =
        ap (drop (length (head ++ (payload ++ t)) - tag_len c)) (sym (append_assoc head payload t))
        ∙ drop-append (head ++ payload) t _ (length-append head payload ∙ omega (arith, total))

module _ (peer : PeerConfig) (local_epoch epoch_id : ℕ) (kind : MsgType) (d : Datagram)
    (from : IsFrom peer local_epoch epoch_id kind d) where
  check_header-ok :
      (rest : Bytes)
      → tag_len peer.cipher ≤ length rest
      → check_header (header_bytes d ++ rest) peer ≡ ok (bare d, kind, peer.cipher)
  unfolding check_header
  check_header-ok rest room =
      let len : length (header_bytes d ++ rest) ≡ 9 + length rest =
        length-append (header_bytes d) rest ∙ omega (arith, length-header_bytes d) in
      rw (parse_header-header_bytes d rest from.header) (
        rw (
          len,
          ge→ltb (9 + length rest) 9 (omega arith),
          from.version_eq,
          from.kind_eq,
          MsgType_round kind,
          from.not_time,
          from.sender,
          differs peer.sender_id peer.sender_id refl,
          from.suite,
          differs (CipherId.to_u8 peer.cipher) (CipherId.to_u8 peer.cipher) refl,
          CipherId_round peer.cipher,
          ge→ltb (9 + length rest) (9 + tag_len peer.cipher) (omega arith),
        ))

  module _ (prim : Primitives) (dir : Direction) where
    -- The wire form passes steps 1 to 7, unless its message does not fit the suite's scratch buffer.
    pub verify-wire_bytes :
        too_long peer.cipher (13 + payload_len d) ≡ false
        → verify prim (wire_bytes prim peer.cipher d peer.secret epoch_id dir) peer local_epoch dir
          ≡ ok
              (record { out = bare d; kind = kind; epoch_id = epoch_id; payload = payload_bytes d })
    unfolding verify authenticate wire_bytes auth_header header_bytes
    verify-wire_bytes fits =
        rw
          (check_header-ok (payload_bytes d ++ t) (
            omega (
              arith,
              length-append (payload_bytes d) t,
              length-tag prim peer.cipher key msg d.datagram_offset,
            )))
          (authenticate-ok prim peer local_epoch epoch_id dir (bare d) kind peer.cipher
            (header_bytes d) (payload_bytes d) (length-header_bytes d)
            (rw from.low (reconstruct_epoch-low local_epoch epoch_id from.near))
            (rw
              (
                length-append (auth_header d epoch_id) (payload_bytes d),
                length-auth_header d epoch_id,
                length-payload_bytes d,
              )
              fits))
      where
        key : Bytes
        key = epoch_key prim peer.secret d.sender_id epoch_id dir

        msg : Bytes
        msg = auth_header d epoch_id ++ payload_bytes d

        t : Bytes
        t = tag prim peer.cipher key msg d.datagram_offset
