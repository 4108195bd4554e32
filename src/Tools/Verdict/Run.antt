-- ===== src/Tools/Verdict/Run.antt =====
-- tools/src/bin/conformance_iut.rs: the checks of rejected vectors and of the time messages, and the
-- verdict over all kinds.
use catp.Base.{ℕ, ◌+◌, ◌==◌, Bool, not, Option, none, some, List, [], ◌∷◌, ◌++◌, if◌then◌else◌}
use catp.Base.Int.{ℤ, pos, ◌-ℤ◌, pos_part, neg_part}
use catp.Base.Text.{Text, text_of, same_text, join, u32_from_hex}
use catp.Base.Text.Decimal.{parse_u32, parse_i64, to_decimal}
use catp.Base.Words.{wrap_i64}
use catp.Crypto.{Primitives}
use catp.Errors.{Error, Result, ok, err}
use catp.NodeClock.{NodeClock, clockless, synced, accept_time_announce}
use catp.Registry.CipherId
use catp.Replay.{ReplayWindow, default_window_words, one_second, check_and_set}
use catp.Tools.Json.{Map, lookup, Scan, object, panicked, out_of_fuel, parse_object}
use catp.Tools.Verdict.{
  Checked, good, fails, aborts, ◌>>=◌, or_fail, or_fail_with, fail_if, is_ok, same_bytes, index,
  index_hex, first, permissive_layouts, read_secret, read_direction, read_u32, check_number_payload,
  check_series_payload, Messages, decode_rejected, reencode_failed, read_sender, check_accept,
}
use catp.Wire.Decode.{PeerConfig, decode}
use catp.Wire.Time.{decode_time_request, decode_time_announce, time_request, time_announce}

-- `split(',')`
unfoldable pub split_commas : Text → List Text
split_commas [] = [] ∷ []
split_commas (c ∷ cs) = let rest = split_commas cs in if c == b',' then [] ∷ rest else join c rest

abbrev pub same_ℤ : ℤ → ℤ → Bool
same_ℤ a b = pos_part a + neg_part b == pos_part b + neg_part a

unfoldable pub read_i64 : Map → Text → Text → Checked ℤ
read_i64 m key reason = do text ← index m key; or_fail (parse_i64 text) reason

-- A panic of the check is one of the verdict.
abbrev pub line_of : Checked (Unit {0}) → Option Text
line_of (good u) = some (text_of "PASS")
line_of (fails reason) = some (text_of "FAIL " ++ reason)
line_of aborts = none

module _ (messages : Messages) where
  -- The loop that seeds the window.
  abbrev pub seeding_failed : ℕ → Error → Text
  seeding_failed o e =
      text_of "seeding seen offset " ++ (to_decimal o ++ (text_of " failed: " ++ messages.debug e))

  abbrev pub seeded : ℕ → Result (Unit {0}) × ReplayWindow → Checked ReplayWindow
  seeded o (ok u, window) = good window
  seeded o (err e, window) = fails (seeding_failed o e)

  unfoldable pub seed : ReplayWindow → List Text → Checked ReplayWindow
  seed window [] = good window
  seed window (o ∷ offsets) = do
    offset ← or_fail (parse_u32 o) (text_of "bad seen_offsets")
    next ← seeded offset (check_and_set default_window_words window offset)
    seed next offsets

  abbrev pub seed_from : Option Text → Checked ReplayWindow
  seed_from none = good one_second
  seed_from (some seen) = seed one_second (split_commas seen)

  abbrev pub fault_of : Option Text → Text
  fault_of none = text_of "?"
  fault_of (some fault) = fault

  module _ (prim : Primitives) where
    unfoldable pub check_reject_datagram : Map → Checked (Unit {0})
    check_reject_datagram m = do
      secret ← read_secret m
      sender_text ← index m (text_of "receiver_sender")
      receiver_sender ← or_fail (u32_from_hex sender_text) (text_of "bad receiver_sender")
      receiver_epoch ← read_u32 m (text_of "receiver_epoch") (text_of "bad receiver_epoch")
      configured ← index_hex m (text_of "configured_cipher")
      cipher_byte ← or_fail (first configured) (text_of "missing configured_cipher")
      cipher ← or_fail (CipherId.from_u8 cipher_byte) (text_of "configured_cipher unimplemented")
      dir ← read_direction m
      wire ← index_hex m (text_of "wire")
      let peer : PeerConfig = record {
        sender_id = receiver_sender;
        secret = secret;
        cipher = cipher;
        layouts = permissive_layouts;
        inbound_rate_limit = none;
      }
      window ← seed_from (lookup (text_of "seen_offsets") m)
      fail_if (is_ok (decode prim default_window_words wire peer receiver_epoch dir window).0) (
          text_of "wrong outcome: decode accepted a "
          ++ (fault_of (lookup (text_of "fault") m) ++ text_of " vector"))

    unfoldable pub check_accept_time_request : Map → Checked (Unit {0})
    check_accept_time_request m = do
      secret ← read_secret m
      sender_id ← read_sender messages m
      wire ← index_hex m (text_of "wire")
      u ← or_fail_with (decode_rejected messages) (decode_time_request prim wire sender_id secret)
      again ← or_fail_with (reencode_failed messages) (time_request prim sender_id secret)
      fail_if (not (same_bytes again wire)) (text_of "reencode mismatch")

    unfoldable pub check_accept_time_announce : Map → Checked (Unit {0})
    check_accept_time_announce m = do
      secret ← read_secret m
      sender_id ← read_sender messages m
      wire ← index_hex m (text_of "wire")
      asserted_time ← read_i64 m (text_of "asserted_time") (text_of "bad asserted_time")
      got ←
          or_fail_with (decode_rejected messages) (decode_time_announce prim wire sender_id secret)
      u ← fail_if (not (same_ℤ got asserted_time)) (text_of "wrong outcome: asserted_time mismatch")
      again ← or_fail_with (reencode_failed messages) (time_announce prim sender_id got secret)
      fail_if (not (same_bytes again wire)) (text_of "reencode mismatch")

    abbrev pub clock_of : Text → ℕ → Checked NodeClock
    clock_of state last_epoch =
        if same_text state (text_of "cold")
        then good (clockless last_epoch)
        else if same_text state (text_of "valid")
        then good (synced last_epoch)
        else fails (text_of "unknown clock_state " ++ messages.debug_str state)

    unfoldable pub check_reject_time_announce : Map → Checked (Unit {0})
    check_reject_time_announce m = do
      secret ← read_secret m
      sender_id ← read_sender messages m
      wire ← index_hex m (text_of "wire")
      asserted_time ← read_i64 m (text_of "asserted_time") (text_of "bad asserted_time")
      last_epoch ← read_u32 m (text_of "last_epoch") (text_of "bad last_epoch")
      got ←
          or_fail_with (λ e. text_of "wire should have verified: " ++ messages.debug e)
            (decode_time_announce prim wire sender_id secret)
      state ← index m (text_of "clock_state")
      clock ← clock_of state last_epoch
      fail_if
          (is_ok (accept_time_announce clock asserted_time (wrap_i64 (asserted_time -ℤ pos 5))).0)
          (text_of "wrong outcome: announce was accepted")

    -- The `match` on `kind`.
    unfoldable pub check_kind : Map → Text → Checked (Unit {0})
    check_kind m kind =
        if same_text kind (text_of "accept")
        then check_accept messages prim m
        else if same_text kind (text_of "accept_time_request")
        then check_accept_time_request m
        else if same_text kind (text_of "accept_time_announce")
        then check_accept_time_announce m
        else if same_text kind (text_of "number_payload")
        then check_number_payload m
        else if same_text kind (text_of "reject_datagram")
        then check_reject_datagram m
        else if same_text kind (text_of "series_payload")
        then check_series_payload m
        else if same_text kind (text_of "reject_time_announce")
        then check_reject_time_announce m
        else fails (text_of "unrecognized kind " ++ messages.debug_str kind)

    abbrev pub check_some : Map → Option Text → Checked (Unit {0})
    check_some m none = fails (text_of "missing kind")
    check_some m (some kind) = check_kind m kind

    unfoldable pub verdict_of : Map → Option Text
    verdict_of m = line_of (check_some m (lookup (text_of "kind") m))

    abbrev pub verdict_on : Scan → Option Text
    verdict_on (object m rest) = verdict_of m
    verdict_on panicked = none
    verdict_on out_of_fuel = none

    unfoldable pub verdict : Text → Option Text
    verdict line = verdict_on (parse_object line)
