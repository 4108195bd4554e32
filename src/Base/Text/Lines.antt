-- ===== src/Base/Text/Lines.antt =====
-- `str::lines` on printed lines.
use Prim.Native.Nat.{ℕ}
use mathlib.Core.Bool.{true}
use mathlib.Core.List.{List, [], ◌∷◌, ◌++◌}
use mathlib.Core.Option.{none, some}
use mathlib.Core.Path.{◌≡◌, refl, ap}
use native.Mathlib.Omega.{arith}
use catp.Base.Tests.{◌==◌, Bool-cases}
use mathlib.Core.Logic.{inl, inr}
use catp.Base.Text.{Text, split_inclusive, strip_suffix, chomp, each, lines}
use catp.Base.Text.Laws.{all, in_line}

split_inclusive_line :
    (line rest : Text)
    → all in_line line ≡ true
    → split_inclusive (line ++ (b'\n' ∷ rest)) ≡ (line ++ (b'\n' ∷ [])) ∷ split_inclusive rest
unfolding split_inclusive
split_inclusive_line [] rest h = refl
split_inclusive_line (c ∷ cs) rest h = ground (arith, split_inclusive_line cs rest)

strip_suffix_end : (mark : ℕ) (line : Text) → strip_suffix mark (line ++ (mark ∷ [])) ≡ some line
strip_suffix_end mark [] = ground arith
strip_suffix_end mark (c ∷ []) = ground (arith, strip_suffix_end mark [])
strip_suffix_end mark (c ∷ d ∷ cs) = rw (strip_suffix_end mark (d ∷ cs)) refl

strip_suffix_none : (line : Text) → all in_line line ≡ true → strip_suffix b'\r' line ≡ none
strip_suffix_none [] h = refl
strip_suffix_none (c ∷ []) h = ground arith
strip_suffix_none (c ∷ d ∷ cs) h =
    let later = strip_suffix_none (d ∷ cs) (ground arith) in rw later refl

chomp_line : (line : Text) → all in_line line ≡ true → chomp (line ++ (b'\n' ∷ [])) ≡ line
chomp_line line h = ground (arith, strip_suffix_end b'\n' line, strip_suffix_none line h)

pub lines-cons :
    (line rest : Text)
    → all in_line line ≡ true
    → lines (line ++ (b'\n' ∷ rest)) ≡ line ∷ lines rest
unfolding lines
lines-cons line rest h =
    rw (split_inclusive_line line rest h)
      (ap (λ l. l ∷ each chomp (split_inclusive rest)) (chomp_line line h))

-- The pieces of a text that ends a line: there is a first one.
ended_pieces :
    (s : Text)
    → (piece : Text) × (more : List Text) × (split_inclusive (s ++ (b'\n' ∷ [])) ≡ piece ∷ more)
unfolding split_inclusive
ended_pieces [] = (b'\n' ∷ [], [], refl)
ended_pieces (c ∷ cs) = elim (Bool-cases (c == b'\n')) [
  | inl e ↦ (c ∷ [], split_inclusive (cs ++ (b'\n' ∷ [])), rw e refl)
  | inr e ↦ let (piece, more, k) = ended_pieces cs in (c ∷ piece, more, rw (e, k) refl)
]

split_inclusive-append :
    (s t : Text)
    → split_inclusive (s ++ (b'\n' ∷ t)) ≡ split_inclusive (s ++ (b'\n' ∷ [])) ++ split_inclusive t
unfolding split_inclusive
split_inclusive-append [] t = refl
split_inclusive-append (c ∷ cs) t = elim (Bool-cases (c == b'\n')) [
  | inl e ↦ rw e (ap (λ l. (c ∷ []) ∷ l) (split_inclusive-append cs t))
  | inr e ↦ let (piece, more, k) = ended_pieces cs in rw (e, split_inclusive-append cs t, k) refl
]

each-append {ℓ κ} :
    {A : Type ℓ} {B : Type κ} (f : A → B) (xs ys : List A)
    → each f (xs ++ ys) ≡ each f xs ++ each f ys
each-append f [] ys = refl
each-append f (x ∷ xs) ys = ap (λ l. f x ∷ l) (each-append f xs ys)

pub lines-append : (s t : Text) → lines (s ++ (b'\n' ∷ t)) ≡ lines (s ++ (b'\n' ∷ [])) ++ lines t
unfolding lines
lines-append s t =
    rw (split_inclusive-append s t)
      (each-append chomp (split_inclusive (s ++ (b'\n' ∷ []))) (split_inclusive t))
