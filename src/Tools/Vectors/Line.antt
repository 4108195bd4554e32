-- ===== src/Tools/Vectors/Line.antt =====
-- The lines of tools/src/bin/vectors.rs, read by `mod tinyjson` of tools/src/bin/conformance_iut.rs.
use mathlib.Core.List.{append_assoc}
use catp.Base.{
  ℕ, zero, suc, ◌<◌, ◌≡◌, ◌≢◌, refl, ap, ◌∙◌, inl, inr, true, false, ◌==◌, some, List, [], ◌∷◌,
  ◌++◌, length, arith, Bool-cases,
}
use catp.Base.Text.{Text, trim, trim_start, is_whitespace}
use catp.Base.Text.Laws.{all, trim_end_snoc, trim_start_space, trim_start_visible}
use catp.Tools.Json.{
  Map, object, string_body, push_front, parse_string, parse_number, parse_value, parse_entry,
  with_key, round, entry_round, parse_members, parse_object, parse_object_from, is_number_char,
}
use catp.Tools.Json.Total.{parse_members-total}
use catp.Tools.Vectors.{escape, json_str, field_text, join_fields, object_text}

-- A value as it is written: a string, or a number of one digit or more.
pub data Value : Type 0 where
  quoted : Text → Value
  bare : Text → Value

abbrev pub content : Value → Text
content (quoted s) = s
content (bare s) = s

abbrev pub encoded : Value → Text
encoded (quoted s) = json_str s
encoded (bare s) = s

abbrev pub IsValue : Value → Type 0
IsValue (quoted s) = Unit {0}
IsValue (bare s) = (s ≢ []) × (all is_number_char s ≡ true)

string_body-escape :
    (s rest : Text) → string_body false (escape s ++ (b'"' ∷ rest)) ≡ some (s, rest)
unfolding string_body escape
string_body-escape [] rest = refl
string_body-escape (c ∷ s) rest = elim (Bool-cases (c == b'"')) [
  | inl quote ↦ rw (quote, string_body-escape s rest) (same b'"' (ground arith))
  | inr plain ↦ elim (Bool-cases (c == b'\\')) [
    | inl slash ↦ rw (plain, slash, string_body-escape s rest) (same b'\\' (ground arith))
    | inr other ↦ ground (arith, string_body-escape s rest)
  ]
]
  where
    same : (d : ℕ) → d ≡ c → push_front d (some (s, rest)) ≡ some (c ∷ s, rest)
    same d e = ap (λ x. some (x ∷ s, rest)) e

pub parse_string-json_str : (s rest : Text) → parse_string (json_str s ++ rest) ≡ some (s, rest)
unfolding parse_string json_str
parse_string-json_str s rest =
    rw (append_assoc (escape s) (b'"' ∷ []) rest) (string_body-escape s rest)

-- A number ends before a character that is none of its own.
parse_number_stop :
    (s : Text) (stop : ℕ) (rest : Text)
    → all is_number_char s ≡ true
    → is_number_char stop ≡ false
    → parse_number (s ++ (stop ∷ rest)) ≡ (s, stop ∷ rest)
unfolding parse_number
parse_number_stop [] stop rest h k = rw k refl
parse_number_stop (c ∷ s) stop rest h k =
    let first : is_number_char c ≡ true = ground arith in
    rw (parse_number_stop s stop rest (ground arith) k, first) refl

parse_value-encoded :
    (v : Value) (stop : ℕ) (rest : Text)
    → IsValue v
    → is_number_char stop ≡ false
    → parse_value (trim_start (b' ' ∷ (encoded v ++ (stop ∷ rest)))) ≡ some (content v, stop ∷ rest)
parse_value-encoded (quoted s) stop rest h k = rw (trim_start_space (json_str s ++ (stop ∷ rest))) (
    unfold json_str trim_start is_whitespace parse_value in
    unfold json_str in parse_string-json_str s (stop ∷ rest))
parse_value-encoded (bare []) stop rest (some_text, h) k = absurd (some_text refl)
parse_value-encoded (bare (c ∷ cs)) stop rest (some_text, h) k =
    let number = parse_number_stop (c ∷ cs) stop rest h k in
    let visible : is_whitespace c ≡ false = unfold is_whitespace in ground arith in
    let plain : (c == b'"') ≡ false = ground arith in
    rw
      (
        trim_start_space (c ∷ (cs ++ (stop ∷ rest))),
        trim_start_visible c (cs ++ (stop ∷ rest)) visible,
      )
      (unfold parse_value in rw plain (ap some number))

-- A written entry is read whole.
parse_entry-field_text :
    (key : Text) (v : Value) (stop : ℕ) (rest : Text)
    → IsValue v
    → is_number_char stop ≡ false
    → parse_entry (field_text (key, encoded v) ++ (stop ∷ rest))
      ≡ some ((key, content v), stop ∷ rest)
unfolding parse_entry field_text trim_start is_whitespace
parse_entry-field_text key v stop rest h k =
    rw
      (
        append_assoc (json_str key) (b':' ∷ b' ' ∷ encoded v) (stop ∷ rest),
        parse_string-json_str key _,
      )
      (ap (with_key key) (parse_value-encoded v stop rest h k))

-- The rounds that the members take, with more to spare.
abbrev rounds : List (Text × Value) → ℕ → ℕ
rounds [] extra = suc extra
rounds (f ∷ []) extra = suc (suc extra)
rounds (f ∷ g ∷ fields) extra = suc (suc (rounds (g ∷ fields) extra))

extra-lt : (fields : List (Text × Value)) (extra : ℕ) → extra < rounds fields extra
extra-lt [] extra = omega arith
extra-lt (f ∷ []) extra = omega arith
extra-lt (f ∷ g ∷ fields) extra = omega (arith, extra-lt (g ∷ fields) extra)

abbrev pub encoded_fields : List (Text × Value) → List (Text × Text)
encoded_fields [] = []
encoded_fields ((key, v) ∷ fields) = (key, encoded v) ∷ encoded_fields fields

-- `insert` for one field after the other.
abbrev pub insert_fields : Map → List (Text × Value) → Map
insert_fields map [] = map
insert_fields map ((key, v) ∷ fields) = insert_fields ((key, content v) ∷ map) fields

abbrev pub AreValues : List (Text × Value) → Type 0
AreValues [] = Unit {0}
AreValues ((key, v) ∷ fields) = IsValue v × AreValues fields

round-field_text :
    (key : Text) (v : Value) (more : Text)
    → round (trim_start (field_text (key, encoded v) ++ more))
      ≡ entry_round (parse_entry (field_text (key, encoded v) ++ more))
unfolding round field_text json_str trim_start is_whitespace
round-field_text key v more = refl

-- One field and what is behind it, in one round; a comma, and the closing brace.
parse_members_field :
    (fuel : ℕ) (map : Map) (key : Text) (v : Value) (stop : ℕ) (rest : Text)
    → IsValue v
    → is_number_char stop ≡ false
    → parse_members (suc fuel) map (field_text (key, encoded v) ++ (stop ∷ rest))
      ≡ parse_members fuel ((key, content v) ∷ map) (stop ∷ rest)
unfolding parse_members
parse_members_field fuel map key v stop rest h k =
    rw (round-field_text key v (stop ∷ rest), parse_entry-field_text key v stop rest h k) refl

parse_members_space :
    (fuel : ℕ) (map : Map) (s : Text) → parse_members fuel map (b' ' ∷ s) ≡ parse_members fuel map s
unfolding parse_members
parse_members_space zero map s = refl
parse_members_space (suc fuel) map s = rw (trim_start_space s) refl

comma_round :
    (fuel : ℕ) (map : Map) (s : Text)
    → parse_members (suc fuel) map (b',' ∷ s) ≡ parse_members fuel map s
unfolding parse_members round trim_start is_whitespace
comma_round fuel map s = refl

parse_members_comma :
    (fuel : ℕ) (map : Map) (s : Text)
    → parse_members (suc fuel) map (b',' ∷ b' ' ∷ s) ≡ parse_members fuel map s
parse_members_comma fuel map s = comma_round fuel map (b' ' ∷ s) ∙ parse_members_space fuel map s

parse_members_close :
    (fuel : ℕ) (map : Map) → parse_members (suc fuel) map (b' ' ∷ b'}' ∷ []) ≡ object map []
unfolding parse_members round trim_start is_whitespace
parse_members_close fuel map = refl

parse_members-join_fields :
    (fields : List (Text × Value)) (extra : ℕ) (map : Map)
    → AreValues fields
    → parse_members
        (rounds fields extra)
        map
        (join_fields (encoded_fields fields) ++ (b' ' ∷ b'}' ∷ []))
      ≡ object (insert_fields map fields) []
unfolding join_fields
parse_members-join_fields [] extra map v = parse_members_close extra map
parse_members-join_fields ((key, value) ∷ []) extra map (v, _) =
    parse_members_field (suc extra) map key value b' ' (b'}' ∷ []) v refl
    ∙ parse_members_close extra ((key, value_text) ∷ map)
  where
    value_text : Text
    value_text = content value
parse_members-join_fields ((key, value) ∷ g ∷ fields) extra map (v, vs) =
    let rest = join_fields (encoded_fields (g ∷ fields)) in
    rw (append_assoc (field_text (key, encoded value)) (b',' ∷ b' ' ∷ rest) (b' ' ∷ b'}' ∷ [])) (
      parse_members_field (suc (rounds (g ∷ fields) extra)) map key value b','
        (b' ' ∷ (rest ++ (b' ' ∷ b'}' ∷ []))) v refl
      ∙ parse_members_comma (rounds (g ∷ fields) extra) _ (rest ++ (b' ' ∷ b'}' ∷ []))
      ∙ parse_members-join_fields (g ∷ fields) extra ((key, content value) ∷ map) vs)

trim-object_text :
    (fields : List (Text × Text))
    → trim (object_text fields) ≡ b'{' ∷ b' ' ∷ (join_fields fields ++ (b' ' ∷ b'}' ∷ []))
unfolding trim object_text trim_start is_whitespace
trim-object_text fields =
    let front : Text = b'{' ∷ b' ' ∷ (join_fields fields ++ (b' ' ∷ [])) in
    let whole : front ++ (b'}' ∷ []) ≡ b'{' ∷ b' ' ∷ (join_fields fields ++ (b' ' ∷ b'}' ∷ [])) =
      ap (λ t. b'{' ∷ b' ' ∷ t) (append_assoc (join_fields fields) (b' ' ∷ []) (b'}' ∷ [])) in
    rw (← whole) (trim_end_snoc front b'}' refl)

-- A line that the generator writes for any fields, strings or numbers of one character or more, is
-- read by the implementation under test as the map of those fields: a quote or backslash in a key or
-- a string is restored, and a key's last value is kept in front.
pub parse_object-object_text :
    (fields : List (Text × Value))
    → AreValues fields
    → parse_object (object_text (encoded_fields fields)) ≡ object (insert_fields [] fields) []
unfolding parse_object parse_object_from
parse_object-object_text fields v =
    let body : Text = join_fields (encoded_fields fields) ++ (b' ' ∷ b'}' ∷ []) in
    let long = suc (suc (length body)) in
    rw (trim-object_text (encoded_fields fields)) (
      parse_members_space long [] body
      ∙ (parse_members-total long (rounds fields long) [] body (omega arith)
          (omega (arith, extra-lt fields long))).0
      ∙ parse_members-join_fields fields long [] v)
