-- ===== src/Tools/Verdict/Payloads.antt =====
-- tools/src/bin: the generator's payload vectors and the verdict on them.
use catp.Base.{
  ℕ, ◌-◌, ◌<◌, ◌^◌, ◌≡◌, refl, ap, ◌∙◌, Bool, true, false, not, some, List, [], ◌∷◌, ◌++◌, All,
  arith, if◌then◌else◌,
}
use catp.Base.Text.{Text, text_of, same_text}
use catp.Base.Text.Decimal.{to_decimal, parse_unsigned-to_decimal}
use catp.Base.Words.{Bytes, IsByte}
use catp.Crypto.{Primitives}
use catp.Payload.{validate_number, validate_series}
use catp.Tools.Json.{lookup}
use catp.Tools.Vectors.{number_fields, series_fields, object_text, hex}
use catp.Tools.Vectors.Line.{Value, quoted, bare, insert_fields, parse_object-object_text}
use catp.Tools.Verdict.{
  is_ok, fail_if, index, index_hex, read_u32, Messages, check_number_payload, check_series_payload,
}
use catp.Tools.Verdict.Fields.{unhex-hex_text, to_decimal-IsValue}
use catp.Tools.Verdict.Run.{verdict, verdict_of, verdict_on, line_of, check_kind}

-- The verdict on a payload vector: a pass where the outcome is `accept` and the payload is valid, or
-- another outcome and it is not.
abbrev pub verdict_text : Bool → Text → Text
verdict_text valid outcome =
    if (if same_text outcome (text_of "accept") then not valid else valid)
    then text_of "FAIL wrong outcome: expected " ++ outcome
    else text_of "PASS"

number_values : Bytes → Text → List (Text × Value)
number_values payload outcome =
    (text_of "kind", quoted (text_of "number_payload"))
    ∷ (text_of "payload", quoted (hex payload))
    ∷ (text_of "outcome", quoted outcome)
    ∷ []

verdict_choice :
    (b : Bool) (reason : Text)
    → line_of (fail_if b reason) ≡ some (if b then text_of "FAIL " ++ reason else text_of "PASS")
verdict_choice true reason = refl
verdict_choice false reason = refl

number_check :
    (payload : Bytes) (outcome : Text)
    → All IsByte payload
    → check_number_payload (insert_fields [] (number_values payload outcome))
      ≡ fail_if
          (if same_text outcome (text_of "accept")
            then not (is_ok (validate_number payload))
            else is_ok (validate_number payload))
          (text_of "wrong outcome: expected " ++ outcome)
unfolding check_number_payload number_values index index_hex lookup
number_check payload outcome h = rw (unhex-hex_text payload h) refl

module _ (messages : Messages) (prim : Primitives) where
  number_verdict :
      (payload : Bytes) (outcome : Text)
      → All IsByte payload
      → verdict messages prim (object_text (number_fields payload outcome))
        ≡ some (verdict_text (is_ok (validate_number payload)) outcome)
  unfolding number_fields number_values verdict verdict_of check_kind lookup
  number_verdict payload outcome h =
      ap (verdict_on messages prim)
        (parse_object-object_text (number_values payload outcome) (tt, (tt, (tt, tt))))
      ∙ ap line_of (number_check payload outcome h)
      ∙ verdict_choice _ _

series_values : Bytes → ℕ → Text → List (Text × Value)
series_values payload anchor outcome =
    (text_of "kind", quoted (text_of "series_payload"))
    ∷ (text_of "payload", quoted (hex payload))
    ∷ (text_of "anchor_offset", bare (to_decimal anchor))
    ∷ (text_of "outcome", quoted outcome)
    ∷ []

series_check :
    (payload : Bytes) (anchor : ℕ) (outcome : Text)
    → All IsByte payload
    → anchor < 2 ^ 32
    → check_series_payload (insert_fields [] (series_values payload anchor outcome))
      ≡ fail_if
          (if same_text outcome (text_of "accept")
            then not (is_ok (validate_series payload anchor))
            else is_ok (validate_series payload anchor))
          (text_of "wrong outcome: expected " ++ outcome)
unfolding check_series_payload series_values index index_hex read_u32 lookup
series_check payload anchor outcome h small =
    rw
      (
        unhex-hex_text payload h,
        parse_unsigned-to_decimal (2 ^ 32 - 1) anchor (omega arith) (omega arith),
      )
      refl

module _ (messages : Messages) (prim : Primitives) where
  series_verdict :
      (payload : Bytes) (anchor : ℕ) (outcome : Text)
      → All IsByte payload
      → anchor < 2 ^ 32
      → verdict messages prim (object_text (series_fields payload anchor outcome))
        ≡ some (verdict_text (is_ok (validate_series payload anchor)) outcome)
  unfolding series_fields series_values verdict verdict_of check_kind lookup
  series_verdict payload anchor outcome h small =
      ap (verdict_on messages prim) (
        parse_object-object_text (series_values payload anchor outcome)
          (tt, (tt, (to_decimal-IsValue anchor, (tt, tt)))))
      ∙ ap line_of (series_check payload anchor outcome h small)
      ∙ verdict_choice _ _

  -- The line that the generator writes for a payload of bytes is judged by the validator on that
  -- payload, for NUMBER and, with an anchor of 32 bits, for SERIES: it passes when the outcome is
  -- `accept` and the validator accepts or the outcome is another and the validator refuses, and fails
  -- with the expected outcome otherwise; reading the line never panics.
  pub verdict-payload_vectors :
      (payload : Bytes) (anchor : ℕ) (outcome : Text)
      → All IsByte payload
      → anchor < 2 ^ 32
      → (verdict messages prim (object_text (number_fields payload outcome))
          ≡ some (verdict_text (is_ok (validate_number payload)) outcome))
        × (verdict messages prim (object_text (series_fields payload anchor outcome))
            ≡ some (verdict_text (is_ok (validate_series payload anchor)) outcome))
  verdict-payload_vectors payload anchor outcome h small = (
    number_verdict messages prim payload outcome h,
    series_verdict payload anchor outcome h small,
  )
