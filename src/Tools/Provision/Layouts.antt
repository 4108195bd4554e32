-- ===== src/Tools/Provision/Layouts.antt =====
-- `parse_layouts` of the text that names layouts.
use catp.Base.{
  ℕ, ◌/◌, ◌%◌, ◌<◌, ◌≡◌, refl, ap, ◌∙◌, arith, false, ◌==◌, some, List, [], ◌∷◌, ◌++◌, All,
}
use catp.Base.Text.{Text, hex2, hex_digit}
use catp.Base.Text.Laws.{from_str_radix-hex2}
use catp.Base.Words.{IsByte}
use catp.Tools.Provision.{split_on, split_once, layout_pair, layout_pairs, parse_layouts}

-- One layout, `f:s`, and the argument with commas between them.
abbrev pair_text : ℕ → ℕ → Text
pair_text f s = hex2 f ++ (b':' ∷ hex2 s)

unfoldable pub layout_arg : List (ℕ × ℕ) → Text
layout_arg [] = []
layout_arg ((f, s) ∷ []) = pair_text f s
layout_arg ((f, s) ∷ (p ∷ layouts)) = pair_text f s ++ (b',' ∷ layout_arg (p ∷ layouts))

pair_texts : List (ℕ × ℕ) → List Text
pair_texts [] = []
pair_texts ((f, s) ∷ layouts) = pair_text f s ∷ pair_texts layouts

digit-comma : (d : ℕ) → d < 16 → (hex_digit d == b',') ≡ false
digit-comma d h = ground arith

digit-colon : (d : ℕ) → d < 16 → (hex_digit d == b':') ≡ false
digit-colon d h = ground arith

split_on-cons :
    (c : ℕ) (s field : Text) (fields : List Text)
    → (c == b',') ≡ false
    → split_on b',' s ≡ field ∷ fields
    → split_on b',' (c ∷ s) ≡ (c ∷ field) ∷ fields
unfolding split_on
split_on-cons c s field fields other e = rw (e, other) refl

-- A layout up to the next comma.
split_on-pair_text :
    (f s : ℕ) (rest : Text) (fields : List Text)
    → IsByte f
    → IsByte s
    → split_on b',' rest ≡ [] ∷ fields
    → split_on b',' (pair_text f s ++ rest) ≡ pair_text f s ∷ fields
split_on-pair_text f s rest fields hf hs e =
    split_on-cons _ _ _ fields (digit-comma (f / 16) (omega arith)) (
      split_on-cons _ _ _ fields (digit-comma (f % 16) (omega arith)) (
        split_on-cons b':' _ _ fields refl (
          split_on-cons _ _ _ fields (digit-comma (s / 16) (omega arith))
            (split_on-cons _ _ _ fields (digit-comma (s % 16) (omega arith)) e))))

split_on-comma :
    (s field : Text) (fields : List Text)
    → split_on b',' s ≡ field ∷ fields
    → split_on b',' (b',' ∷ s) ≡ [] ∷ (field ∷ fields)
unfolding split_on
split_on-comma s field fields e = rw e refl

split_on-layout_arg :
    (f s : ℕ) (layouts : List (ℕ × ℕ))
    → All (λ (pair : ℕ × ℕ). IsByte pair.0 × IsByte pair.1) ((f, s) ∷ layouts)
    → split_on b',' (layout_arg ((f, s) ∷ layouts)) ≡ pair_texts ((f, s) ∷ layouts)
unfolding layout_arg pair_texts
split_on-layout_arg f s [] ((hf, hs), h) =
    split_on-pair_text f s [] [] hf hs (unfold split_on in refl)
split_on-layout_arg f s ((g, t) ∷ layouts) ((hf, hs), h) = split_on-pair_text f s _ _ hf hs (
    split_on-comma (layout_arg ((g, t) ∷ layouts)) (pair_text g t) (pair_texts layouts)
      (split_on-layout_arg g t layouts h))

layout_pair-pair_text :
    (f s : ℕ) → IsByte f → IsByte s → layout_pair (split_once b':' (pair_text f s)) ≡ some (f, s)
unfolding split_once
layout_pair-pair_text f s hf hs =
    rw
      (
        digit-colon (f / 16) (omega arith),
        digit-colon (f % 16) (omega arith),
        from_str_radix-hex2 f hf,
        from_str_radix-hex2 s hs,
      )
      refl

layout_pairs-pair_texts :
    (layouts : List (ℕ × ℕ))
    → All (λ (pair : ℕ × ℕ). IsByte pair.0 × IsByte pair.1) layouts
    → layout_pairs (pair_texts layouts) ≡ some layouts
unfolding layout_pairs pair_texts
layout_pairs-pair_texts [] h = refl
layout_pairs-pair_texts ((f, s) ∷ layouts) ((hf, hs), h) =
    rw (layout_pair-pair_text f s hf hs, layout_pairs-pair_texts layouts h) refl

-- For layouts of bytes: their text, two hex digits, a colon and two more for each, with commas
-- between, parses to them.
pub parse_layouts-layout_arg :
    (layouts : List (ℕ × ℕ))
    → All (λ (pair : ℕ × ℕ). IsByte pair.0 × IsByte pair.1) layouts
    → parse_layouts (layout_arg layouts) ≡ some layouts
unfolding parse_layouts layout_arg
parse_layouts-layout_arg [] h = refl
parse_layouts-layout_arg ((f, s) ∷ []) h =
    ap layout_pairs (split_on-layout_arg f s [] h) ∙ layout_pairs-pair_texts ((f, s) ∷ []) h
parse_layouts-layout_arg ((f, s) ∷ (p ∷ layouts)) h =
    ap layout_pairs (split_on-layout_arg f s (p ∷ layouts) h)
    ∙ layout_pairs-pair_texts ((f, s) ∷ (p ∷ layouts)) h
