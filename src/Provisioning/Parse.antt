-- ===== src/Provisioning/Parse.antt =====
-- src/provisioning.rs, `Bundle::parse`: its loop over the lines, a field to each.
use catp.Base.{
  ◌≡◌, refl, ◌⊎◌, inl, inr, ℕ, Bool, true, ◌==◌, Option, none, some, List, [], ◌∷◌, ◌++◌, length,
  if◌then◌else◌,
}
use catp.Base.Text.{
  Text, text_of, same_text, lines, trim, split_key, split_whitespace, u32_from_hex, u8_from_hex,
}
use catp.Base.Words.{Bytes}
use catp.Provisioning.{ProvisionError, format, Bundle, parse_hex_bytes}

pub data Provisioned {ℓ} (A : Type ℓ) : Type ℓ where
  done : A → Provisioned A
  malformed : ProvisionError → Provisioned A

pub Provisioned-cases {ℓ} :
    {A : Type ℓ} (r : Provisioned A)
    → ((e : ProvisionError) × (r ≡ malformed e)) ⊎ ((a : A) × (r ≡ done a))
Provisioned-cases (malformed e) = inl (e, refl)
Provisioned-cases (done a) = inr (a, refl)

infixl 5 ◌>>=◌
abbrev pub ◌>>=◌ {ℓ κ} :
    {Field : Type ℓ} {Later : Type κ}
    → Provisioned Field
    → (Field → Provisioned Later)
    → Provisioned Later
malformed problem >>= later = malformed problem
done field >>= later = later field

-- `bad(msg)`
abbrev pub bad : Text → ProvisionError
bad msg = format msg

-- `ok_or_else` and `map_err`
abbrev pub or_bad {ℓ} : {A : Type ℓ} → Option A → Text → Provisioned A
or_bad none msg = malformed (bad msg)
or_bad (some a) msg = done a

-- The local variables of the loop.
pub record Fields : Type 0 where
  pub sender_id : Option ℕ
  pub device_secret : Option Bytes
  pub cipher_id : Option ℕ
  pub layouts : List (ℕ × ℕ)

abbrev pub no_fields : Fields
no_fields = record { sender_id = none; device_secret = none; cipher_id = none; layouts = [] }

-- The conversion to `[u8; 32]`
abbrev pub exactly_32 : Bytes → Option Bytes
exactly_32 bytes = if length bytes == 32 then some bytes else none

unfoldable pub read_layout : List Text → Provisioned (ℕ × ℕ)
read_layout [] = malformed (bad (text_of "layout line needs a format byte"))
read_layout (fmt ∷ []) = malformed (bad (text_of "layout line needs a schema_version byte"))
read_layout (fmt ∷ schema_version ∷ []) = do
  f ← or_bad (u8_from_hex fmt) (text_of "layout format is not hex")
  v ← or_bad (u8_from_hex schema_version) (text_of "layout schema_version is not hex")
  done (f, v)
read_layout (fmt ∷ schema_version ∷ more ∷ rest) =
    malformed (bad (text_of "layout line has more than two fields"))

-- The arms of the `match` on the key.
unfoldable pub read_sender_id : Fields → Text → Provisioned Fields
read_sender_id fields rest = do
  sender_id ← or_bad (u32_from_hex rest) (text_of "sender_id is not 8 hex digits")
  done (record fields { sender_id = some sender_id })

unfoldable pub read_device_secret : Fields → Text → Provisioned Fields
read_device_secret fields rest = do
  bytes ← or_bad (parse_hex_bytes rest) (text_of "device_secret is not valid hex")
  arr ← or_bad (exactly_32 bytes) (text_of "device_secret must be exactly 32 bytes (64 hex digits)")
  done (record fields { device_secret = some arr })

unfoldable pub read_cipher_id : Fields → Text → Provisioned Fields
read_cipher_id fields rest = do
  cipher_id ← or_bad (u8_from_hex rest) (text_of "cipher_id is not 2 hex digits")
  done (record fields { cipher_id = some cipher_id })

unfoldable pub add_layout : Fields → Text → Provisioned Fields
add_layout fields rest = do
  pair ← read_layout (split_whitespace rest)
  done (record fields { layouts = fields.layouts ++ (pair ∷ []) })

unfoldable pub read_field : Fields → Text → Text → Provisioned Fields
read_field fields key rest =
    if same_text key (text_of "sender_id")
    then read_sender_id fields rest
    else if same_text key (text_of "device_secret")
    then read_device_secret fields rest
    else if same_text key (text_of "cipher_id")
    then read_cipher_id fields rest
    else if same_text key (text_of "layout")
    then add_layout fields rest
    else malformed (bad (text_of "unrecognized field '" ++ (key ++ (b'\'' ∷ []))))

-- `line.is_empty() || line.starts_with('#')`
abbrev pub is_skipped : Text → Bool
is_skipped [] = true
is_skipped (c ∷ cs) = c == b'#'

-- One round of the loop.
unfoldable pub read_line : Fields → Text → Provisioned Fields
read_line fields line =
    let text = trim line in
    if is_skipped text
    then done fields
    else let (key, rest) = split_key text in read_field fields key (trim rest)

unfoldable pub read_lines : Fields → List Text → Provisioned Fields
read_lines fields [] = done fields
read_lines fields (line ∷ more) = do next ← read_line fields line; read_lines next more

unfoldable pub finish : Fields → Provisioned Bundle
finish fields = do
  sender_id ← or_bad fields.sender_id (text_of "missing sender_id")
  device_secret ← or_bad fields.device_secret (text_of "missing device_secret")
  cipher_id ← or_bad fields.cipher_id (text_of "missing cipher_id")
  done (record {
    sender_id = sender_id;
    device_secret = device_secret;
    cipher_id = cipher_id;
    layouts = fields.layouts;
  })

unfoldable pub parse : Text → Provisioned Bundle
parse s = do fields ← read_lines no_fields (lines s); finish fields
