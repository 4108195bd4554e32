-- ===== src/Control/RoundTrip.antt =====
-- Control payloads are read back, and re-encode to the bytes that they were read from.
use catp.Base.{
  subst, ℕ, zero, suc, ◌+◌, ◌*◌, ◌%◌, ◌^◌, ◌<◌, ◌≡◌, refl, sym, ap, ◌∙◌, arith, false, ◌||◌, ltb,
  ◌!=◌, List, [], ◌∷◌, ◌++◌, length, get_or, drop, length-append, take-append, drop-append, ge→ltb,
}
use catp.Base.Words.{Bytes, IsI64, u32_to_be, i64_to_be, u32_round, i64_from_be-i64_to_be}
use catp.Errors.{framing, ok}
use mathlib.Core.List.{append_assoc}
use catp.Errors.Laws.{guard-eq-ok}
use catp.Registry.MsgType.{epoch_announce, time_announce, heartbeat}
use catp.Control.{
  Capability, Control, announce_epoch, announce_time, beat, capability, pair_bytes,
  encode_capability, read_pairs, parse_capability, parse, encode, msg_type,
}

-- The values that the fields of a control message can hold.
abbrev pub IsControl : Control → Type 0
IsControl (announce_epoch target_epoch) = target_epoch < 2 ^ 32
IsControl (announce_time asserted_time) = IsI64 asserted_time
IsControl beat = Unit {0}
IsControl (capability c) = Unit {0}

read_pairs-pair_bytes : (layouts : List (ℕ × ℕ)) → read_pairs (pair_bytes layouts) ≡ layouts
unfolding read_pairs pair_bytes
read_pairs-pair_bytes [] = refl
read_pairs-pair_bytes ((f, s) ∷ layouts) = ap (λ t. (f, s) ∷ t) (read_pairs-pair_bytes layouts)

length-pair_bytes : (layouts : List (ℕ × ℕ)) → length (pair_bytes layouts) ≡ length layouts * 2
unfolding pair_bytes
length-pair_bytes [] = refl
length-pair_bytes ((f, s) ∷ layouts) = omega (arith, length-pair_bytes layouts)

-- The byte behind a list.
get_or-append : (xs ys : Bytes) (n d : ℕ) → length xs ≡ n → get_or (xs ++ ys) n d ≡ get_or ys 0 d
get_or-append [] ys zero d h = refl
get_or-append [] ys (suc n) d h = ground arith
get_or-append (x ∷ xs) ys zero d h = ground arith
get_or-append (x ∷ xs) ys (suc n) d h = get_or-append xs ys n d (omega arith)

capability_layout :
    (v : ℕ) (ciphers : List ℕ) (layouts : List (ℕ × ℕ))
    → parse_capability (v ∷ length ciphers ∷ (ciphers ++ (length layouts ∷ pair_bytes layouts)))
      ≡ ok (record { max_version = v; ciphers = ciphers; layouts = layouts })
unfolding parse_capability
capability_layout v ciphers layouts =
    rw
      (
        ge→ltb (length p) 3 (omega (arith, total)),
        ge→ltb (length p) (2 + nc + 1) (omega (arith, total)),
      )
      (rw (nl_at) (
        rw (
          exact,
          take-append ciphers (length layouts ∷ pair_bytes layouts) nc refl,
          behind,
          read_pairs-pair_bytes layouts,
        )))
  where
    nc : ℕ
    nc = length ciphers

    p : Bytes
    p = v ∷ nc ∷ (ciphers ++ (length layouts ∷ pair_bytes layouts))

    total : length p ≡ 3 + nc + length layouts * 2
    total = omega (
      arith,
      length-append ciphers (length layouts ∷ pair_bytes layouts),
      length-pair_bytes layouts,
    )

    nl_at : get_or p (2 + nc) 0 ≡ length layouts
    nl_at =
        let e : 2 + nc ≡ suc (suc nc) = omega arith in
        ap (λ i. get_or p i 0) e
        ∙ get_or-append ciphers (length layouts ∷ pair_bytes layouts) nc 0 refl

    exact : (length p != 3 + nc + length layouts * 2) ≡ false
    exact = ground (arith, total)

    behind : drop (3 + nc) p ≡ pair_bytes layouts
    behind =
        let e : 3 + nc ≡ suc (suc (nc + 1)) = omega arith in
        ap (λ i. drop i p) e
        ∙ ap (drop (nc + 1)) (sym (append_assoc ciphers (length layouts ∷ []) (pair_bytes layouts)))
        ∙ drop-append (ciphers ++ (length layouts ∷ [])) (pair_bytes layouts) (nc + 1)
            (length-append ciphers (length layouts ∷ []) ∙ omega arith)

byte-le : (n m : ℕ) → (ltb 255 n || ltb 255 m) ≡ false → (n % 256 ≡ n) × (m % 256 ≡ m)
byte-le n m h = (ground arith, ground arith)

encode_capability-parse :
    (c : Capability) (p : Bytes) → encode_capability c ≡ ok p → parse_capability p ≡ ok c
unfolding encode_capability
encode_capability-parse c p h =
    let (small, h1) =
      guard-eq-ok (ltb 255 (length c.ciphers) || ltb 255 (length c.layouts))
        (framing "capability list longer than 255") _ h in
    let (nc, nl) = byte-le (length c.ciphers) (length c.layouts) small in
    let e : (c.max_version
          ∷ (length c.ciphers % 256)
          ∷ (c.ciphers ++ ((length c.layouts % 256) ∷ pair_bytes c.layouts)))
        ≡ p =
      cc in
    subst (λ p. parse_capability p ≡ ok c) e
      (rw (nc, nl) (capability_layout c.max_version c.ciphers c.layouts))

-- What a control message, its epoch a u32 and its time an i64, encodes to is parsed back to it,
-- under the type that it names.
pub parse-encode :
    (c : Control) (p : Bytes) → IsControl c → encode c ≡ ok p → parse (msg_type c) p ≡ ok c
unfolding parse encode
parse-encode (announce_epoch target_epoch) p v h =
    let e : u32_to_be target_epoch ≡ p = cc in
    subst (λ p. parse epoch_announce p ≡ ok (announce_epoch target_epoch)) e
      (ap (λ n. ok (announce_epoch n)) (u32_round target_epoch v))
parse-encode (announce_time asserted_time) p v h =
    let e : i64_to_be asserted_time ≡ p = cc in
    subst (λ p. parse time_announce p ≡ ok (announce_time asserted_time)) e
      (ap (λ t. ok (announce_time t)) (i64_from_be-i64_to_be asserted_time v))
parse-encode beat p v h = let e : [] ≡ p = cc in subst (λ p. parse heartbeat p ≡ ok beat) e refl
parse-encode (capability c) p v h = rw (encode_capability-parse c p h)
