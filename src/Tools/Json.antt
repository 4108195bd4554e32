-- ===== src/Tools/Json.antt =====
-- tools/src/bin/conformance_iut.rs, `mod tinyjson`: the reader of one flat JSON object. The iterator
-- `chars` is the text still to come; a failed assertion or a `panic!` is no value.
pub mod Total
use catp.Base.{
  ℕ, zero, suc, Bool, true, false, ◌&&◌, ◌||◌, ◌==◌, leb, Option, none, some, List, [], ◌∷◌, length,
  if◌then◌else◌,
}
use catp.Base.Text.{Text, trim, trim_start, same_text}
use catp.Base.Text.Decimal.{is_digit}

-- `HashMap<String, String>`: the entry that was inserted last comes first.
abbrev pub Map : Type 0
Map = List (Text × Text)

unfoldable pub lookup : Text → Map → Option Text
lookup key [] = none
lookup key ((k, v) ∷ map) = let rest = lookup key map in if same_text key k then some v else rest

abbrev pub push_front : ℕ → Option (Text × Text) → Option (Text × Text)
push_front c none = none
push_front c (some (out, chars)) = some (c ∷ out, chars)

-- The loop of `parse_string`, behind a backslash or not.
unfoldable pub string_body : Bool → Text → Option (Text × Text)
string_body escaped [] = none
string_body false (c ∷ chars) =
    let rest = string_body (c == b'\\') chars in
    if c == b'"' then some ([], chars) else if c == b'\\' then rest else push_front c rest
string_body true (c ∷ chars) =
    let rest = string_body false chars in
    if c == b'"' || c == b'\\' then push_front c rest else none

unfoldable pub parse_string : Text → Option (Text × Text)
parse_string [] = none
parse_string (c ∷ chars) = if c == b'"' then string_body false chars else none

abbrev pub is_number_char : ℕ → Bool
is_number_char c = is_digit c || c == b'-'

unfoldable pub parse_number : Text → Text × Text
parse_number [] = ([], [])
parse_number (c ∷ chars) =
    let (out, rest) = parse_number chars in
    if is_number_char c then (c ∷ out, rest) else ([], c ∷ chars)

-- The value behind the colon.
unfoldable pub parse_value : Text → Option (Text × Text)
parse_value [] = some ([], [])
parse_value (c ∷ chars) =
    if c == b'"' then parse_string (c ∷ chars) else some (parse_number (c ∷ chars))

abbrev pub expect : ℕ → Text → Option Text
expect mark [] = none
expect mark (c ∷ chars) = if c == mark then some chars else none

abbrev pub with_key : Text → Option (Text × Text) → Option ((Text × Text) × Text)
with_key key none = none
with_key key (some (value, chars)) = some ((key, value), chars)

-- The arm of the loop that reads an entry: behind the key, and behind the colon.
abbrev pub behind_colon : Text → Option Text → Option ((Text × Text) × Text)
behind_colon key none = none
behind_colon key (some chars) = with_key key (parse_value (trim_start chars))

abbrev pub behind_key : Option (Text × Text) → Option ((Text × Text) × Text)
behind_key none = none
behind_key (some (key, chars)) = behind_colon key (expect b':' (trim_start chars))

unfoldable pub parse_entry : Text → Option ((Text × Text) × Text)
parse_entry s = behind_key (parse_string s)

-- What one round of the loop does, on the text behind the whitespace.
pub data Round : Type 0 where
  closed : Text → Round
  separator : Text → Round
  entry : Text × Text → Text → Round
  panics : Round

abbrev pub entry_round : Option ((Text × Text) × Text) → Round
entry_round none = panics
entry_round (some (kv, chars)) = entry kv chars

unfoldable pub round : Text → Round
round [] = panics
round (c ∷ chars) =
    if c == b'}'
    then closed chars
    else if c == b','
    then separator chars
    else if c == b'"'
    then entry_round (parse_entry (c ∷ chars))
    else panics

pub data Scan : Type 0 where
  object : Map → Text → Scan
  panicked : Scan
  out_of_fuel : Scan

-- The loop of `parse_object_from`, and its first assertion.
abbrev pub proceed : (Map → Text → Scan) → Map → Round → Scan
proceed loop map (closed rest) = object map rest
proceed loop map (separator rest) = loop map rest
proceed loop map (entry kv rest) = loop (kv ∷ map) rest
proceed loop map panics = panicked

unfoldable pub parse_members : ℕ → Map → Text → Scan
parse_members zero map chars = out_of_fuel
parse_members (suc fuel) map chars = proceed (parse_members fuel) map (round (trim_start chars))

abbrev pub behind_brace : Option Text → Scan
behind_brace none = panicked
behind_brace (some chars) = parse_members (suc (length chars)) [] chars

unfoldable pub parse_object_from : Text → Scan
parse_object_from chars = behind_brace (expect b'{' chars)

unfoldable pub parse_object : Text → Scan
parse_object s = parse_object_from (trim s)
