-- ===== src/Wire/Record/RoundTrip.antt =====
-- `Record::decode` and `write_into` are inverse on well-formed records.
use catp.Base.{
  ℕ, suc, ◌+◌, ◌*◌, ◌/◌, ◌%◌, ◌≤◌, ◌<◌, ◌≡◌, refl, sym, ap, ◌∙◌, arith, bit_and, bit_or, false, ltb,
  ◌==◌, [], ◌∷◌, ◌++◌, length, take, drop, All, length-append, All-take, length-take, take-append,
  take-append-drop,
}
use catp.Base.Bits.{and_0x0f, and_0xff, and_0xfff, bit_or_sum, or_bytes}
use catp.Base.Words.{Bytes, IsByte, u32_to_be}
use catp.Errors.{framing, Result, ok, ◌>>◌, reject_if}
use catp.Wire.Record.{Record, wire_len, header_word, write_into, decode}

-- What a record can hold on the wire.
pub record IsWellFormed (r : Record) : Type 0 where
  pub format_pos : 0 < r.format
  pub format_lt : r.format < 16
  pub schema_pos : 0 < r.schema_version
  pub schema_lt : r.schema_version < 256
  pub body_pos : 0 < length r.body
  pub body_le : length r.body ≤ 4095
  pub body_bytes : All IsByte r.body

-- The wire form of a record: the three bytes of the header, and the body.
unfoldable pub to_wire : Record → Bytes
to_wire r =
    (r.format % 16 * 16 + r.schema_version % 256 / 16)
    ∷ (r.schema_version % 16 * 16 + length r.body % 4096 / 256)
    ∷ (length r.body % 256)
    ∷ r.body

header_word_sum :
    (r : Record)
    → header_word r ≡ r.format % 16 * 1048576 + r.schema_version % 256 * 4096 + length r.body % 4096
unfolding header_word
header_word_sum r =
    rw
      (
        and_0x0f r.format,
        and_0xff r.schema_version,
        and_0xfff (length r.body),
        bit_or_sum 20 (r.format % 16) (r.schema_version % 256 * 4096) (omega arith),
      )
      (ap (λ t. bit_or t size) regroup ∙ bit_or_sum 12 high size (omega arith) ∙ omega arith)
  where
    size : ℕ
    size = length r.body % 4096

    high : ℕ
    high = r.format % 16 * 256 + r.schema_version % 256

    regroup : r.format % 16 * 1048576 + r.schema_version % 256 * 4096 ≡ high * 4096
    regroup = omega arith

-- Three numbers with equal entries.
three :
    (a b c a' b' c' : ℕ) (t : Bytes) → a ≡ a' → b ≡ b' → c ≡ c' → a ∷ b ∷ c ∷ t ≡ a' ∷ b' ∷ c' ∷ t
three a b c a' b' c' t p q r = rw (p, q, r)

-- A record with a body of 1 to 4095 bytes is written into any buffer that has room for it, as its
-- wire form, and the rest of the buffer is left.
pub write_into-to_wire :
    (r : Record) (out : Bytes)
    → 0 < length r.body
    → length r.body ≤ 4095
    → wire_len r ≤ length out
    → write_into r out ≡ ok (wire_len r, to_wire r ++ drop (wire_len r) out)
unfolding write_into to_wire
write_into-to_wire r out some_body small room =
    let w : ℕ = header_word r in
    let word = header_word_sum r in
    let bytes : take 3 (drop 1 (u32_to_be w)) ++ (r.body ++ drop (wire_len r) out)
        ≡ (r.format % 16 * 16 + r.schema_version % 256 / 16)
          ∷ (r.schema_version % 16 * 16 + length r.body % 4096 / 256)
          ∷ (length r.body % 256)
          ∷ (r.body ++ drop (wire_len r) out) =
      three _ _ _ _ _ _ _ (omega arith) (omega arith) (omega arith) in
    ground (arith, bytes)

-- The checks of `decode` on the three fields of the header, and the body behind it.
checked : ℕ → ℕ → ℕ → Bytes → Result (Record × ℕ)
checked format schema size rest = do
  reject_if (format == 0) (framing "format 0x00 is invalid")
  reject_if (schema == 0) (framing "schema_version 0x00 is invalid")
  reject_if (size == 0) (framing "size 0 is invalid")
  reject_if (ltb (suc (suc (suc (length rest)))) (3 + size))
      (framing "record body overruns payload")
  ok (record { format = format; schema_version = schema; body = take size rest }, 3 + size)

checked-eq :
    (f f' s s' n n' : ℕ) (rest : Bytes)
    → f ≡ f'
    → s ≡ s'
    → n ≡ n'
    → checked f s n rest ≡ checked f' s' n' rest
checked-eq f f' s s' n n' rest p q r = rw (p, q, r)

decode-checked :
    (a b c : ℕ) (rest : Bytes)
    → a < 256
    → b < 256
    → c < 256
    → decode (a ∷ b ∷ c ∷ rest) ≡ checked (a / 16) (a % 16 * 16 + b / 16) (b % 16 * 256 + c) rest
unfolding decode checked
decode-checked a b c rest ha hb hc =
    let w : ℕ = bit_or (bit_or (a * 65536) (b * 256)) c in
    let e = or_bytes a b c hb hc in
    let long : ltb (suc (suc (suc (length rest)))) 3 ≡ false = ground arith in
    rw long (
      checked-eq (bit_and (w / 1048576) 0x0f % 256) (a / 16) (bit_and (w / 4096) 0xff % 256)
        (a % 16 * 16 + b / 16) (bit_and w 0xfff) (b % 16 * 256 + c) rest
        (omega (arith, and_0x0f (w / 1048576))) (omega (arith, and_0xff (w / 4096)))
        (omega (arith, and_0xfff w)))

-- A well-formed record is read back from its wire form, whatever follows it.
pub decode-to_wire :
    (r : Record) (rest : Bytes) → IsWellFormed r → decode (to_wire r ++ rest) ≡ ok (r, wire_len r)
unfolding to_wire
decode-to_wire r rest v =
    decode-checked _ _ _ (r.body ++ rest) (omega arith) (omega arith) (omega arith)
    ∙ checked-eq _ r.format _ r.schema_version _ (length r.body) (r.body ++ rest) (omega arith)
        (omega arith) (omega arith)
    ∙ unfold checked in
      ground (arith, take-append r.body rest (length r.body) refl, length-append r.body rest)

-- What a header and a rest must be for the checks to pass.
checked-eq-ok :
    (f s n : ℕ) (rest : Bytes) (r : Record) (k : ℕ)
    → checked f s n rest ≡ ok (r, k)
    → (0 < f)
      × (0 < s)
      × (0 < n)
      × (n ≤ length rest)
      × (r.format ≡ f)
      × (r.schema_version ≡ s)
      × (r.body ≡ take n rest)
      × (k ≡ 3 + n)
unfolding checked
checked-eq-ok f s n rest r k h = ground arith

-- On a byte string: a record that `decode` returns is well formed, and the string begins with the
-- record's wire form, whose length is the number of bytes that `decode` says it used.
pub decode-canonical :
    (buf : Bytes) (r : Record) (used : ℕ)
    → All IsByte buf
    → decode buf ≡ ok (r, used)
    → IsWellFormed r × (used ≡ wire_len r) × (buf ≡ to_wire r ++ drop used buf)
unfolding decode
decode-canonical [] r used bytes h = cc
decode-canonical (a ∷ []) r used bytes h = cc
decode-canonical (a ∷ b ∷ []) r used bytes h = cc
decode-canonical (a ∷ b ∷ c ∷ rest) r used (ha, (hb, (hc, hs))) h =
    let (f0, s0, n0, fits, f, s, body, k) =
      checked-eq-ok (a / 16) (a % 16 * 16 + b / 16) (b % 16 * 256 + c) rest r used
        (sym (decode-checked a b c rest ha hb hc) ∙ h) in
    let n : ℕ = b % 16 * 256 + c in
    let size : length r.body ≡ n = ap length body ∙ length-take n rest ∙ omega arith in
    (
      record {
        format_pos = omega arith;
        format_lt = omega arith;
        schema_pos = omega arith;
        schema_lt = omega arith;
        body_pos = omega arith;
        body_le = omega arith;
        body_bytes = rw body (All-take IsByte n rest hs);
      },
      omega arith,
      whole f s body size k,
    )
  where
    whole :
        r.format ≡ a / 16
        → r.schema_version ≡ a % 16 * 16 + b / 16
        → r.body ≡ take (b % 16 * 256 + c) rest
        → length r.body ≡ b % 16 * 256 + c
        → used ≡ 3 + (b % 16 * 256 + c)
        → a ∷ b ∷ c ∷ rest ≡ to_wire r ++ drop used (a ∷ b ∷ c ∷ rest)
    whole f s body size k =
        let n' : ℕ = b % 16 * 256 + c in
        let used' : used ≡ suc (suc (suc n')) = omega arith in
        let taken : length (take n' rest) ≡ n' = sym (ap length body) ∙ size in
        unfold to_wire in
        rw used' (
          rw body (
            rw (take-append-drop n' rest)
              (three a b c _ _ _ rest (omega arith) (omega arith) (omega arith))))
