-- ===== src/Tools/Verdict.antt =====
-- tools/src/bin/conformance_iut.rs: the verdict of the implementation under test on one line. A
-- check passes, fails with its reason, or panics where the source indexes a missing key or unwraps.
pub mod Run
pub mod Fields
pub mod Payloads
pub mod Permissive
pub mod AcceptFields
pub mod Accept
use catp.Base.{
  ℕ, zero, suc, ◌+◌, ◌==◌, ◌!=◌, Bool, true, false, not, Option, none, some, List, [], ◌∷◌, ◌++◌,
  if◌then◌else◌,
}
use catp.Base.Int.{ℤ, pos, ◌-ℤ◌}
use catp.Base.Text.{Text, text_of, same_text, hex2, u32_from_hex, u8_from_hex, join}
use catp.Base.Text.Decimal.{parse_u32, to_decimal}
use catp.Base.Words.{Bytes, wrap_i64}
use catp.Crypto.{Primitives}
use catp.Errors.{Error, Result, ok, err}
use catp.NodeClock.{NodeClock, clockless, synced, accept_time_announce}
use catp.Payload.{validate_number, validate_series}
use catp.Provisioning.Parse.{exactly_32}
use catp.Registry.{Direction, node_to_collector, collector_to_node}
use catp.Registry.CipherId
use catp.Registry.CipherId.{CipherId}
use catp.Replay.{ReplayWindow, default_window_words, one_second, check_and_set}
use catp.Tools.Json.{Map, lookup, Scan, object, panicked, out_of_fuel, parse_object}
use catp.Wire.Datagram.{Datagram, encode}
use catp.Wire.Decode.{PeerConfig, Accepted, decode}
use catp.Wire.Time.{decode_time_request, decode_time_announce, time_request, time_announce}

pub data Checked {ℓ} (A : Type ℓ) : Type ℓ where
  good : A → Checked A
  fails : Text → Checked A
  aborts : Checked A

infixl 5 ◌>>=◌
abbrev pub ◌>>=◌ {ℓ κ} :
    {Got : Type ℓ} {Then : Type κ} → Checked Got → (Got → Checked Then) → Checked Then
good got >>= go_on = go_on got
fails reason >>= go_on = fails reason
aborts >>= go_on = aborts

-- `m["key"]` and `unwrap`; `ok_or` and `map_err` with a text; `map_err` of an `Error`.
abbrev pub or_abort {ℓ} : {A : Type ℓ} → Option A → Checked A
or_abort none = aborts
or_abort (some a) = good a

abbrev pub or_fail {ℓ} : {A : Type ℓ} → Option A → Text → Checked A
or_fail none reason = fails reason
or_fail (some a) reason = good a

abbrev pub or_fail_with {ℓ} : {A : Type ℓ} → (Error → Text) → Result A → Checked A
or_fail_with reason (ok a) = good a
or_fail_with reason (err e) = fails (reason e)

abbrev pub fail_if : Bool → Text → Checked (Unit {0})
fail_if true reason = fails reason
fail_if false reason = good tt

-- `is_ok`
abbrev pub is_ok {ℓ} : {A : Type ℓ} → Result A → Bool
is_ok (ok a) = true
is_ok (err e) = false

abbrev pub same_bytes : Bytes → Bytes → Bool
same_bytes = same_text

-- `m[key]`
unfoldable pub index : Map → Text → Checked Text
index m key = or_abort (lookup key m)

-- `unhex`: an odd length and a character that is no hex digit both panic, on a slice or at `unwrap`.
abbrev pub cons_byte : Option ℕ → Option Bytes → Option Bytes
cons_byte none bytes = none
cons_byte (some b) none = none
cons_byte (some b) (some bytes) = some (b ∷ bytes)

unfoldable pub unhex : Text → Option Bytes
unhex (c ∷ d ∷ s) = cons_byte (u8_from_hex (c ∷ d ∷ [])) (unhex s)
unhex (c ∷ []) = none
unhex [] = some []

unfoldable pub index_hex : Map → Text → Checked Bytes
index_hex m key = do text ← index m key; or_abort (unhex text)

abbrev pub first : Bytes → Option ℕ
first [] = none
first (b ∷ bytes) = some b

-- `(first..=last)` as its first value and how many there are.
abbrev pub range : ℕ → ℕ → List ℕ
range from zero = []
range from (suc count) = from ∷ range (suc from) count

unfoldable pub with_versions : ℕ → List ℕ → List (ℕ × ℕ) → List (ℕ × ℕ)
with_versions f [] rest = rest
with_versions f (s ∷ versions) rest = (f, s) ∷ with_versions f versions rest

unfoldable pub flat_map_versions : List ℕ → List (ℕ × ℕ)
flat_map_versions [] = []
flat_map_versions (f ∷ formats) = with_versions f (range 0 256) (flat_map_versions formats)

unfoldable pub permissive_layouts : List (ℕ × ℕ)
permissive_layouts = flat_map_versions (range 1 6)

-- The fields that the checks share.
unfoldable pub read_secret : Map → Checked Bytes
read_secret m = do
  bytes ← index_hex m (text_of "device_secret")
  or_fail (exactly_32 bytes) (text_of "device_secret not 32 bytes")

abbrev pub direction_of : Option ℕ → Checked Direction
direction_of none = fails (text_of "missing direction")
direction_of (some b) = good (if b == 0x00 then node_to_collector else collector_to_node)

unfoldable pub read_direction : Map → Checked Direction
read_direction m = do bytes ← index_hex m (text_of "direction"); direction_of (first bytes)

unfoldable pub read_u32 : Map → Text → Text → Checked ℕ
read_u32 m key reason = do text ← index m key; or_fail (parse_u32 text) reason

unfoldable pub check_number_payload : Map → Checked (Unit {0})
check_number_payload m = do
  payload ← index_hex m (text_of "payload")
  outcome ← index m (text_of "outcome")
  let want_accept = same_text outcome (text_of "accept")
  let got_accept = is_ok (validate_number payload)
  fail_if (if want_accept then not got_accept else got_accept)
      (text_of "wrong outcome: expected " ++ outcome)

unfoldable pub check_series_payload : Map → Checked (Unit {0})
check_series_payload m = do
  payload ← index_hex m (text_of "payload")
  anchor ← read_u32 m (text_of "anchor_offset") (text_of "bad anchor_offset")
  outcome ← index m (text_of "outcome")
  let want_accept = same_text outcome (text_of "accept")
  let got_accept = is_ok (validate_series payload anchor)
  fail_if (if want_accept then not got_accept else got_accept)
      (text_of "wrong outcome: expected " ++ outcome)

-- The texts that derived and library code makes of an error, a text and a refused number.
pub record Messages : Type 0 where
  pub debug : Error → Text
  pub debug_str : Text → Text
  pub parse_int : Text → Text

module _ (messages : Messages) where
  abbrev pub decode_rejected : Error → Text
  decode_rejected e = text_of "decode rejected: " ++ messages.debug e

  abbrev pub reencode_failed : Error → Text
  reencode_failed e = text_of "reencode failed: " ++ messages.debug e

  unfoldable pub read_sender : Map → Checked ℕ
  read_sender m = do
    text ← index m (text_of "sender_id")
    or_fail (u32_from_hex text) (messages.parse_int text)

  -- `encode_epoch`, or the receiver's epoch.
  abbrev pub encode_epoch_of : Option Text → ℕ → Checked ℕ
  encode_epoch_of none epoch = good epoch
  encode_epoch_of (some text) epoch = or_fail (parse_u32 text) (text_of "bad encode_epoch")

  module _ (prim : Primitives) where
    -- `check_accept` from the parsed fields on.
    unfoldable pub check_decoded :
        Map → Bytes → ℕ → ℕ → Direction → CipherId → Bytes → Checked (Unit {0})
    check_decoded m secret sender_id epoch dir cipher wire = do
      let peer : PeerConfig = record {
        sender_id = sender_id;
        secret = secret;
        cipher = cipher;
        layouts = permissive_layouts;
        inbound_rate_limit = none;
      }
      acc ←
          or_fail_with decode_rejected
            (decode prim default_window_words wire peer epoch dir one_second).0
      enc_epoch ← encode_epoch_of (lookup (text_of "encode_epoch") m) epoch
      checked ← fail_if (acc.epoch_id != enc_epoch) (
          text_of "reencode mismatch: reconstructed epoch "
          ++ (to_decimal acc.epoch_id ++ (text_of " != encode_epoch " ++ to_decimal enc_epoch)))
      again ← or_fail_with reencode_failed (encode prim acc.datagram secret acc.epoch_id dir 65535)
      fail_if (not (same_bytes again wire)) (text_of "reencode mismatch")

    unfoldable pub check_accept : Map → Checked (Unit {0})
    check_accept m = do
      secret ← read_secret m
      sender_id ← read_sender m
      epoch ← read_u32 m (text_of "epoch_id") (text_of "bad epoch_id")
      dir ← read_direction m
      cipher_bytes ← index_hex m (text_of "cipher_id")
      cipher_byte ← or_fail (first cipher_bytes) (text_of "missing cipher_id")
      cipher ←
          or_fail (CipherId.from_u8 cipher_byte)
            (text_of "unknown cipher_id 0x" ++ hex2 cipher_byte)
      wire ← index_hex m (text_of "wire")
      check_decoded m secret sender_id epoch dir cipher wire
