-- ===== src/Tools/Verdict/AcceptFields.antt =====
-- tools/src/bin/vectors.rs, the fields of an accepted vector, and what `check_accept` finds of them.
use catp.Base.{
  ℕ, ◌<◌, ◌^◌, ◌≡◌, refl, Bool, true, false, ◌!=◌, some, List, [], ◌∷◌, ◌++◌, length, All,
}
use catp.Base.Text.{Text, text_of, hex_text, hex2}
use catp.Base.Text.Decimal.{to_decimal}
use catp.Base.Words.{Bytes, IsByte, u32_to_be}
use catp.Registry.{Direction, direction_byte}
use catp.Registry.CipherId
use catp.Registry.CipherId.{CipherId}
use catp.Tools.Json.{Map, lookup}
use catp.Tools.Vectors.{accept_fields, hex}
use catp.Tools.Vectors.Line.{Value, quoted, bare, AreValues, encoded_fields, insert_fields}
use catp.Tools.Verdict.Fields.{to_decimal-IsValue}
use catp.Wire.Datagram.{Datagram, auth_header}

unfoldable pub epoch_values : Bool → ℕ → List (Text × Value)
epoch_values true enc_epoch = (text_of "encode_epoch", bare (to_decimal enc_epoch)) ∷ []
epoch_values false enc_epoch = []

unfoldable pub accept_values :
    Bool → Text → Bytes → ℕ → ℕ → Direction → Datagram → Bytes → Bytes → List (Text × Value)
accept_values other name secret enc_epoch rx_epoch dir dg key wire =
    (text_of "name", quoted name)
    ∷ (text_of "kind", quoted (text_of "accept"))
    ∷ (text_of "device_secret", quoted (hex secret))
    ∷ (text_of "sender_id", quoted (hex_text (u32_to_be dg.sender_id)))
    ∷ (text_of "epoch_id", bare (to_decimal rx_epoch))
    ∷ (epoch_values other enc_epoch
        ++ ((text_of "direction", quoted (hex2 (direction_byte dir)))
            ∷ (text_of "cipher_id", quoted (hex2 dg.cipher_id))
            ∷ (text_of "msg_type", quoted (hex2 dg.msg_type))
            ∷ (text_of "offset", bare (to_decimal dg.datagram_offset))
            ∷ (text_of "epoch_key", quoted (hex key))
            ∷ (text_of "auth_header", quoted (hex (auth_header dg enc_epoch)))
            ∷ (text_of "wire", quoted (hex wire))
            ∷ (text_of "wire_len", bare (to_decimal (length wire)))
            ∷ []))

pub accept_fields-encoded :
    (other : Bool) (name : Text) (secret : Bytes) (enc_epoch rx_epoch : ℕ) (dir : Direction)
    (dg : Datagram) (key wire : Bytes)
    → (enc_epoch != rx_epoch) ≡ other
    → accept_fields name secret enc_epoch rx_epoch dir dg key wire
      ≡ encoded_fields (accept_values other name secret enc_epoch rx_epoch dir dg key wire)
unfolding accept_fields accept_values epoch_values
accept_fields-encoded true name secret enc_epoch rx_epoch dir dg key wire e = rw e refl
accept_fields-encoded false name secret enc_epoch rx_epoch dir dg key wire e = rw e refl

pub accept_values-AreValues :
    (other : Bool) (name : Text) (secret : Bytes) (enc_epoch rx_epoch : ℕ) (dir : Direction)
    (dg : Datagram) (key wire : Bytes)
    → AreValues (accept_values other name secret enc_epoch rx_epoch dir dg key wire)
unfolding accept_values epoch_values
accept_values-AreValues true name secret enc_epoch rx_epoch dir dg key wire = (
  tt,
  (
    tt,
    (
      tt,
      (
        tt,
        (
          to_decimal-IsValue rx_epoch,
          (
            to_decimal-IsValue enc_epoch,
            (
              tt,
              (
                tt,
                (
                  tt,
                  (
                    to_decimal-IsValue dg.datagram_offset,
                    (tt, (tt, (tt, (to_decimal-IsValue (length wire), tt)))),
                  ),
                ),
              ),
            ),
          ),
        ),
      ),
    ),
  ),
)
accept_values-AreValues false name secret enc_epoch rx_epoch dir dg key wire = (
  tt,
  (
    tt,
    (
      tt,
      (
        tt,
        (
          to_decimal-IsValue rx_epoch,
          (
            tt,
            (
              tt,
              (
                tt,
                (
                  to_decimal-IsValue dg.datagram_offset,
                  (tt, (tt, (tt, (to_decimal-IsValue (length wire), tt)))),
                ),
              ),
            ),
          ),
        ),
      ),
    ),
  ),
)

-- The entries that `check_accept` reads.
pub record Written (m : Map) (secret : Bytes) (dg : Datagram) (rx_epoch : ℕ) (dir : Direction)
    (wire : Bytes) : Type 0 where
  pub device_secret : lookup (text_of "device_secret") m ≡ some (hex secret)
  pub sender_id : lookup (text_of "sender_id") m ≡ some (hex_text (u32_to_be dg.sender_id))
  pub epoch_id : lookup (text_of "epoch_id") m ≡ some (to_decimal rx_epoch)
  pub direction : lookup (text_of "direction") m ≡ some (hex2 (direction_byte dir))
  pub cipher_id : lookup (text_of "cipher_id") m ≡ some (hex2 dg.cipher_id)
  pub wire_hex : lookup (text_of "wire") m ≡ some (hex wire)

-- What the values are, and that they fit their fields.
pub record Printable (secret : Bytes) (dg : Datagram) (rx_epoch : ℕ) (c : CipherId) (wire : Bytes)
    : Type 0 where
  pub secret_bytes : All IsByte secret
  pub secret_length : length secret ≡ 32
  pub sender_lt : dg.sender_id < 2 ^ 32
  pub epoch_lt : rx_epoch < 2 ^ 32
  pub cipher_lt : dg.cipher_id < 256
  pub suite : CipherId.from_u8 dg.cipher_id ≡ some c
  pub wire_bytes : All IsByte wire

pub accept_values-Written :
    (other : Bool) (name : Text) (secret : Bytes) (enc_epoch rx_epoch : ℕ) (dir : Direction)
    (dg : Datagram) (key wire : Bytes)
    → Written
        (insert_fields [] (accept_values other name secret enc_epoch rx_epoch dir dg key wire))
        secret
        dg
        rx_epoch
        dir
        wire
unfolding accept_values epoch_values lookup
accept_values-Written true name secret enc_epoch rx_epoch dir dg key wire = record {
  device_secret = refl;
  sender_id = refl;
  epoch_id = refl;
  direction = refl;
  cipher_id = refl;
  wire_hex = refl;
}
accept_values-Written false name secret enc_epoch rx_epoch dir dg key wire = record {
  device_secret = refl;
  sender_id = refl;
  epoch_id = refl;
  direction = refl;
  cipher_id = refl;
  wire_hex = refl;
}
