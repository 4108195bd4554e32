-- ===== src/Tools/Json/Total.antt =====
-- tools/src/bin/conformance_iut.rs, `mod tinyjson`: the loop comes to an end.
use catp.Base.{
  ℕ, zero, suc, ◌<◌, ◌≤◌, ◌≡◌, ◌≢◌, refl, inl, inr, Bool, true, false, ◌==◌, ◌||◌, Option, none,
  some, [], ◌∷◌, length, arith, Bool-cases,
}
use catp.Base.Text.{Text, trim_start}
use catp.Tools.Json.{
  Map, Round, closed, separator, entry, panics, Scan, object, panicked, out_of_fuel, string_body,
  push_front, parse_string, parse_number, parse_value, expect, parse_entry, with_key, behind_colon,
  behind_key, entry_round, round, proceed, parse_members,
}

-- Every reader leaves a shorter text, or one no longer.
abbrev Shorter {ℓ} : {A : Type ℓ} → Text → Option (A × Text) → Type 0
Shorter s none = Unit {0}
Shorter s (some (out, rest)) = length rest < length s

push_front-Shorter :
    (c d : ℕ) (s : Text) (r : Option (Text × Text)) → Shorter s r → Shorter (d ∷ s) (push_front c r)
push_front-Shorter c d s none h = tt
push_front-Shorter c d s (some (out, rest)) h = omega arith

later-Shorter : (d : ℕ) (s : Text) (r : Option (Text × Text)) → Shorter s r → Shorter (d ∷ s) r
later-Shorter d s none h = tt
later-Shorter d s (some (out, rest)) h = omega arith

string_body-Shorter : (escaped : Bool) (s : Text) → Shorter s (string_body escaped s)
unfolding string_body
string_body-Shorter false [] = tt
string_body-Shorter true [] = tt
string_body-Shorter false (c ∷ s) = elim (Bool-cases (c == b'"')) [
  | inl quote ↦ rw quote (omega arith)
  | inr plain ↦ elim (Bool-cases (c == b'\\')) [
    | inl slash ↦ rw (plain, slash) (later-Shorter c s _ (string_body-Shorter true s))
    | inr other ↦ rw (plain, other) (push_front-Shorter c c s _ (string_body-Shorter false s))
  ]
]
string_body-Shorter true (c ∷ s) = elim (Bool-cases (c == b'"' || c == b'\\')) [
  | inl known ↦ rw known (push_front-Shorter c c s _ (string_body-Shorter false s))
  | inr bad ↦ rw bad tt
]

parse_string-Shorter : (s : Text) → Shorter s (parse_string s)
unfolding parse_string
parse_string-Shorter [] = tt
parse_string-Shorter (c ∷ s) = elim (Bool-cases (c == b'"')) [
  | inl quote ↦ rw quote (later-Shorter c s _ (string_body-Shorter false s))
  | inr bad ↦ rw bad tt
]

trim_start-le : (s : Text) → length (trim_start s) ≤ length s
unfolding trim_start
trim_start-le [] = omega arith
trim_start-le (c ∷ s) = ground (arith, trim_start-le s)

parse_number-le : (s : Text) → length (parse_number s).1 ≤ length s
unfolding parse_number
parse_number-le [] = omega arith
parse_number-le (c ∷ s) = ground (arith, parse_number-le s)

abbrev NotLonger : Text → Option (Text × Text) → Type 0
NotLonger s none = Unit {0}
NotLonger s (some (out, rest)) = length rest ≤ length s

parse_value-NotLonger : (s : Text) → NotLonger s (parse_value s)
unfolding parse_value
parse_value-NotLonger [] = omega arith
parse_value-NotLonger (c ∷ s) = elim (Bool-cases (c == b'"')) [
  | inl quote ↦ rw quote (go (parse_string (c ∷ s)) (parse_string-Shorter (c ∷ s)))
  | inr plain ↦ rw plain (parse_number-le (c ∷ s))
]
  where
    go : (r : Option (Text × Text)) → Shorter (c ∷ s) r → NotLonger (c ∷ s) r
    go none h = tt
    go (some (out, rest)) h = omega arith

abbrev Left : Text → Option Text → Type 0
Left s none = Unit {0}
Left s (some rest) = length rest < length s

expect-Left : (mark : ℕ) (s : Text) → Left s (expect mark s)
expect-Left mark [] = tt
expect-Left mark (c ∷ s) = elim (Bool-cases (c == mark)) [
  | inl e ↦ rw e (omega arith)
  | inr e ↦ rw e tt
]

parse_entry-Shorter : (s : Text) → Shorter s (parse_entry s)
unfolding parse_entry
parse_entry-Shorter s = key_part (parse_string s) (parse_string-Shorter s)
  where
    value :
        (key t : Text)
        → length t < length s
        → (r : Option (Text × Text)) → NotLonger t r
        → Shorter s (with_key key r)
    value key t short none h = tt
    value key t short (some (out, rest)) h = omega arith

    colon :
        (key chars : Text)
        → length chars < length s
        → (r : Option Text) → Left chars r
        → Shorter s (behind_colon key r)
    colon key chars short none h = tt
    colon key chars short (some behind) h =
        value key (trim_start behind) (omega (arith, trim_start-le behind))
          (parse_value (trim_start behind)) (parse_value-NotLonger (trim_start behind))

    key_part : (r : Option (Text × Text)) → Shorter s r → Shorter s (behind_key r)
    key_part none h = tt
    key_part (some (key, chars)) h =
        colon key (trim_start chars) (omega (arith, trim_start-le chars)) _
          (expect-Left b':' (trim_start chars))

abbrev Advances : Text → Round → Type 0
Advances s (closed rest) = Unit {0}
Advances s (separator rest) = length rest < length s
Advances s (entry kv rest) = length rest < length s
Advances s panics = Unit {0}

entry_round-Advances :
    (s : Text) (r : Option ((Text × Text) × Text)) → Shorter s r → Advances s (entry_round r)
entry_round-Advances s none h = tt
entry_round-Advances s (some (kv, rest)) h = h

round-Advances : (s : Text) → Advances s (round s)
unfolding round
round-Advances [] = tt
round-Advances (c ∷ s) = elim (Bool-cases (c == b'}')) [
  | inl close ↦ rw close tt
  | inr open_ ↦ elim (Bool-cases (c == b',')) [
    | inl comma ↦ rw (open_, comma) (omega arith)
    | inr other ↦ elim (Bool-cases (c == b'"')) [
      | inl quote ↦
          rw (open_, other, quote) (entry_round-Advances (c ∷ s) _ (parse_entry-Shorter (c ∷ s)))
      | inr bad ↦ rw (open_, other, bad) tt
    ]
  ]
]

Advances-le : (s t : Text) (r : Round) → length s ≤ length t → Advances s r → Advances t r
Advances-le s t (closed rest) h k = tt
Advances-le s t (separator rest) h k = omega arith
Advances-le s t (entry kv rest) h k = omega arith
Advances-le s t panics h k = tt

-- The rounds of the two runs go on alike.
abbrev Agree : ℕ → ℕ → Map → Text → Type 0
Agree fuel more map s =
    (parse_members fuel map s ≡ parse_members more map s) × (parse_members fuel map s ≢ out_of_fuel)

abbrev is_over : Scan → Bool
is_over out_of_fuel = false
is_over _ = true

over-ne : (r : Scan) → is_over r ≡ true → r ≢ out_of_fuel
over-ne r h e = let k = rw e at h in cc

go_on :
    (fuel more : ℕ) (map : Map) (s : Text) (r : Round)
    → Advances s r
    → ((m : Map) (rest : Text) → length rest < length s → Agree fuel more m rest)
    → (proceed (parse_members fuel) map r ≡ proceed (parse_members more) map r)
      × (proceed (parse_members fuel) map r ≢ out_of_fuel)
go_on fuel more map s (closed rest) h later = (refl, over-ne (object map rest) refl)
go_on fuel more map s (separator rest) h later = later map rest h
go_on fuel more map s (entry kv rest) h later = later (kv ∷ map) rest h
go_on fuel more map s panics h later = (refl, over-ne panicked refl)

-- The loop over the members of an object ends, on every text: with more rounds allowed than the text
-- is long it has not run out of them, and any two such allowances give the same result.
pub parse_members-total :
    (fuel more : ℕ) (map : Map) (s : Text)
    → length s < fuel
    → length s < more
    → (parse_members fuel map s ≡ parse_members more map s)
      × (parse_members fuel map s ≢ out_of_fuel)
unfolding parse_members
parse_members-total zero more map s h k = absurd (omega arith)
parse_members-total (suc fuel) zero map s h k = absurd (omega arith)
parse_members-total (suc fuel) (suc more) map s h k =
    go_on fuel more map s (round (trim_start s))
      (Advances-le (trim_start s) s _ (trim_start-le s) (round-Advances (trim_start s)))
      (λ m rest short. parse_members-total fuel more m rest (omega arith) (omega arith))
