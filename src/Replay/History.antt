-- ===== src/Replay/History.antt =====
-- What a replay window promises, over the list of the offsets that it accepted: an offset passes if
-- it lies above all of them, or less than `span` ticks below the highest and is not one of them.
use catp.Base.{
  ℕ, ◌-◌, ◌≤◌, max, ◌≡◌, refl, Bool, true, false, ◌||◌, Option, none, some, List, [], ◌∷◌, ltb,
  ◌==◌, if◌then◌else◌, arith, inl, inr, sym, ◌∙◌, Bool-cases,
}

unfoldable pub contains : ℕ → List ℕ → Bool
contains o [] = false
contains o (x ∷ xs) = o == x || contains o xs

unfoldable pub highest : List ℕ → Option ℕ
highest [] = none
highest (x ∷ xs) = elim (highest xs) [ none ↦ some x | some h ↦ some (max x h) ]

-- The decision of a window of `span` ticks whose highest accepted offset is given.
unfoldable pub fresh_at : ℕ → Option ℕ → List ℕ → ℕ → Bool
fresh_at span none hist off = true
fresh_at span (some hi) hist off =
    if ltb hi off
    then true
    else if ltb (hi - off) span
    then (if contains off hist then false else true)
    else false

unfoldable pub is_fresh : ℕ → List ℕ → ℕ → Bool
unfolding fresh_at
is_fresh span hist off = fresh_at span (highest hist) hist off

-- Offsets in the order of their arrival; each answer tells whether the offset is accepted.
unfoldable pub answers : ℕ → List ℕ → List ℕ → List Bool
answers span hist [] = []
answers span hist (o ∷ os) =
    is_fresh span hist o ∷ answers span (if is_fresh span hist o then o ∷ hist else hist) os

pub highest-nil : (hist : List ℕ) → highest hist ≡ none → hist ≡ []
unfolding highest
highest-nil [] h = refl
highest-nil (x ∷ xs) h = ground arith

pub highest-cons :
    (x : ℕ) (xs : List ℕ) (hi : ℕ) → highest xs ≡ some hi → highest (x ∷ xs) ≡ some (max x hi)
unfolding highest
highest-cons x xs hi e = rw e

pub contains-highest :
    (o : ℕ) (hist : List ℕ)
    → contains o hist ≡ true
    → (hi : ℕ) × (highest hist ≡ some hi) × (o ≤ hi)
unfolding contains
contains-highest o [] c = cc
contains-highest o (x ∷ xs) c = elim (Bool-cases (contains o xs)) [
  | inl in_rest ↦ widen (contains-highest o xs in_rest)
  | inr absent ↦ top (highest xs) refl absent
]
  where
    widen :
        (hi : ℕ) × (highest xs ≡ some hi) × (o ≤ hi)
        → (hi : ℕ) × (highest (x ∷ xs) ≡ some hi) × (o ≤ hi)
    widen (hi, e, le) = (max x hi, highest-cons x xs hi e, omega arith)

    top :
        (m : Option ℕ)
        → highest xs ≡ m
        → contains o xs ≡ false
        → (hi : ℕ) × (highest (x ∷ xs) ≡ some hi) × (o ≤ hi)
    top none e absent = (x, unfold highest in rw e, ground arith)
    top (some hi) e absent = (max x hi, highest-cons x xs hi e, ground arith)

pub contains-le :
    (o hi : ℕ) (hist : List ℕ) → highest hist ≡ some hi → contains o hist ≡ true → o ≤ hi
contains-le o hi hist e c =
    let (k, e', le) = contains-highest o hist c in ground (arith, sym e ∙ e')

-- An accepted offset is never fresh again, whatever is accepted after it.
pub contains-ne-fresh :
    (span : ℕ) (hist : List ℕ) (o : ℕ) → contains o hist ≡ true → is_fresh span hist o ≡ false
unfolding is_fresh fresh_at
contains-ne-fresh span hist o c = let (k, e, le) = contains-highest o hist c in rw e (ground arith)
