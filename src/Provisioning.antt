-- ===== src/Provisioning.antt =====
-- src/provisioning.rs: the bundle that puts one device's identity, secret and suite on both ends,
-- as text and as the configuration of a peer. The files it is kept in are not modelled, so a
-- `ProvisionError` is its `Format`; the configuration fails with an `Error`, the text with this one.
pub mod Parse
pub mod Hex
pub mod Print
pub mod RoundTrip
pub mod Fields
pub mod Values
pub mod Config
use catp.Base.{
  ℕ, ◌*◌, bit_or, Bool, true, false, not, ◌&&◌, ◌==◌, ◌!=◌, ◌%◌, leb, ◌+◌, ◌-◌, Option, none, some,
  List, [], ◌∷◌, ◌++◌, length, if◌then◌else◌,
}
use catp.Base.Text.{Text, text_of, as_bytes, hex2, hex_text}
use catp.Base.Words.{Bytes, u32_to_be}
use catp.Errors.{
  Error, cipher_unimplemented, cipher_requires_rate_limit, Result, ok, err, ◌>>=◌, ◌>>◌, reject_if,
  ok_or,
}
use catp.Limiter.{RateLimit}
use catp.PeerState.{is_none}
use catp.Registry.CipherId
use catp.Registry.CipherId.{requires_inbound_rate_limit}
use catp.Wire.Decode.{PeerConfig}

pub data ProvisionError : Type 0 where
  format : Text → ProvisionError

pub record Bundle : Type 0 where
  pub sender_id : ℕ
  pub device_secret : Bytes
  pub cipher_id : ℕ
  pub layouts : List (ℕ × ℕ)

abbrev pub header_comment : Text
header_comment = text_of "# CATP provisioning bundle v1"

-- The loop over the layouts.
unfoldable pub layout_lines : List (ℕ × ℕ) → Text
layout_lines [] = []
layout_lines ((fmt, schema_version) ∷ layouts) =
    text_of "layout        "
    ++ (hex2 fmt ++ (b' ' ∷ (hex2 schema_version ++ (b'\n' ∷ layout_lines layouts))))

-- `{:08x}` of a u32 is the digits of its bytes.
unfoldable pub to_text : Bundle → Text
to_text b =
    header_comment
    ++ (b'\n'
        ∷ (text_of "sender_id     "
            ++ (hex_text (u32_to_be b.sender_id)
                ++ (b'\n'
                    ∷ (text_of "device_secret "
                        ++ (hex_text b.device_secret
                            ++ (b'\n'
                                ∷ (text_of "cipher_id     "
                                    ++ (hex2 b.cipher_id
                                        ++ (b'\n' ∷ layout_lines b.layouts))))))))))

unfoldable pub into_peer_config : Bundle → Option RateLimit → Result PeerConfig
into_peer_config b inbound_rate_limit = do
  cipher ← ok_or (CipherId.from_u8 b.cipher_id) (cipher_unimplemented b.cipher_id)
  reject_if (requires_inbound_rate_limit cipher && is_none inbound_rate_limit)
      (cipher_requires_rate_limit b.cipher_id)
  ok (record {
    sender_id = b.sender_id;
    secret = b.device_secret;
    cipher = cipher;
    layouts = b.layouts;
    inbound_rate_limit = inbound_rate_limit;
  })

-- An entry of the table `HEX_VALUE`.
unfoldable pub hex_value : ℕ → Option ℕ
hex_value c =
    if leb b'0' c && leb c b'9'
    then some (c - b'0')
    else if leb b'a' c && leb c b'f'
    then some (c - b'a' + 10)
    else if leb b'A' c && leb c b'F'
    then some (c - b'A' + 10)
    else none

abbrev pub nibbles : Option ℕ → Option ℕ → Option ℕ
nibbles none lo = none
nibbles (some hi) none = none
nibbles (some hi) (some lo) = some (bit_or (hi * 16) lo)

abbrev pub cons_some : Option ℕ → Option Bytes → Option Bytes
cons_some none rest = none
cons_some (some b) none = none
cons_some (some b) (some rest) = some (b ∷ rest)

-- The map over the indices in steps of two, and its `collect`.
unfoldable pub hex_pairs : Bytes → Option Bytes
hex_pairs (hi ∷ lo ∷ rest) = cons_some (nibbles (hex_value hi) (hex_value lo)) (hex_pairs rest)
hex_pairs _ = some []

unfoldable pub parse_hex_bytes : Text → Option Bytes
parse_hex_bytes s =
    let bytes = as_bytes s in if length bytes % 2 != 0 then none else hex_pairs bytes
