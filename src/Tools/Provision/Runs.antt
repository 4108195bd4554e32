-- ===== src/Tools/Provision/Runs.antt =====
-- What the commands do on their arguments.
use catp.Base.{
  ℕ, ◌-◌, ◌^◌, ◌<◌, ◌≡◌, ◌≢◌, refl, ap, ◌∙◌, arith, Bool, true, some, List, [], ◌∷◌, length, All,
}
use catp.Base.Text.{Text, text_of, hex2}
use catp.Base.Text.Decimal.{to_decimal, parse_unsigned-to_decimal}
use catp.Base.Text.Laws.{from_str_radix-hex2}
use catp.Base.Words.{Bytes, IsByte}
use catp.Provisioning.{Bundle, to_text}
use catp.Provisioning.Parse.{done, parse}
use catp.Provisioning.RoundTrip.{IsBundle, parse-to_text}
use catp.Tools.Provision.{Directory, read_text, write_text, generate, reissue}
use catp.Tools.Provision.Commands.{
  success, Flags, set_count, set_cipher, set_layouts, no_flags, take_flag, read_flags, exit_with,
  cmd_generate, read_paths, cmd_reissue,
}
use catp.Tools.Provision.Files.{same_text-other, read_text-write_text, read_text-write_text_other}
use catp.Tools.Provision.Layouts.{layout_arg, parse_layouts-layout_arg}

-- The arguments for a run.
abbrev pub generate_args : ℕ → ℕ → List (ℕ × ℕ) → Text → List Text
generate_args count cipher_id layouts path =
    text_of "--count"
    ∷ to_decimal count
    ∷ text_of "--cipher"
    ∷ hex2 cipher_id
    ∷ text_of "--layouts"
    ∷ layout_arg layouts
    ∷ text_of "--out"
    ∷ path
    ∷ []

read_flags-cons :
    (arg value : Text) (args : List Text) (flags flags' : Flags)
    → take_flag arg value flags ≡ some flags'
    → read_flags (arg ∷ value ∷ args) flags ≡ read_flags args flags'
unfolding read_flags
read_flags-cons arg value args flags flags' h = rw (read_flags, h) refl

take_count :
    (flags : Flags) (n : ℕ)
    → n < 2 ^ 32
    → take_flag (text_of "--count") (to_decimal n) flags ≡ some (record flags { count = some n })
unfolding take_flag
take_count flags n small =
    ap (set_count flags) (parse_unsigned-to_decimal (2 ^ 32 - 1) n (omega arith) (omega arith))

take_cipher :
    (flags : Flags) (n : ℕ)
    → n < 256
    → take_flag (text_of "--cipher") (hex2 n) flags ≡ some (record flags { cipher_id = some n })
unfolding take_flag
take_cipher flags n byte = ap (set_cipher flags) (from_str_radix-hex2 n byte)

take_layouts :
    (flags : Flags) (layouts : List (ℕ × ℕ))
    → All (λ (pair : ℕ × ℕ). IsByte pair.0 × IsByte pair.1) layouts
    → take_flag (text_of "--layouts") (layout_arg layouts) flags
      ≡ some (record flags { layouts = layouts })
unfolding take_flag
take_layouts flags layouts h = ap (set_layouts flags) (parse_layouts-layout_arg layouts h)

take_out :
    (flags : Flags) (path : Text)
    → take_flag (text_of "--out") path flags ≡ some (record flags { out = some path })
unfolding take_flag
take_out flags path = refl

read_flags-generate_args :
    (count cipher_id : ℕ) (layouts : List (ℕ × ℕ)) (path : Text)
    → count < 2 ^ 32
    → cipher_id < 256
    → All (λ (pair : ℕ × ℕ). IsByte pair.0 × IsByte pair.1) layouts
    → read_flags (generate_args count cipher_id layouts path) no_flags
      ≡ some (record {
        count = some count;
        cipher_id = some cipher_id;
        layouts = layouts;
        out = some path;
      })
unfolding read_flags
read_flags-generate_args count cipher_id layouts path small byte h =
    let args3 : List Text = text_of "--out" ∷ path ∷ [] in
    let args2 : List Text = text_of "--layouts" ∷ layout_arg layouts ∷ args3 in
    let args1 : List Text = text_of "--cipher" ∷ hex2 cipher_id ∷ args2 in
    let flags1 = record no_flags { count = some count } in
    let flags2 = record flags1 { cipher_id = some cipher_id } in
    let flags3 = record flags2 { layouts = layouts } in
    let flags4 = record flags3 { out = some path } in
    read_flags-cons _ _ args1 no_flags flags1 (take_count no_flags count small)
    ∙ read_flags-cons _ _ args2 flags1 flags2 (take_cipher flags1 cipher_id byte)
    ∙ read_flags-cons _ _ args3 flags2 flags3 (take_layouts flags2 layouts h)
    ∙ read_flags-cons _ _ [] flags3 flags4 (take_out flags3 path)

-- For a u32 count, a suite of one byte and layouts of bytes: `cmd_generate` on the arguments that
-- print them, in decimal and in hex digits, is `generate` of them, with its exit code.
pub cmd_generate-generate_args :
    (random_secret : ℕ → Bytes) (creates : Bool) (opens : Text → Bool) (draws : List ℕ)
    (count cipher_id : ℕ) (layouts : List (ℕ × ℕ)) (path : Text) (out : Directory)
    → count < 2 ^ 32
    → cipher_id < 256
    → All (λ (pair : ℕ × ℕ). IsByte pair.0 × IsByte pair.1) layouts
    → cmd_generate random_secret creates opens draws
        (generate_args count cipher_id layouts path)
        out
      ≡ exit_with (generate random_secret creates opens count cipher_id layouts draws out)
unfolding cmd_generate
cmd_generate-generate_args random_secret creates opens draws count cipher_id layouts path out small
      byte layout_bytes =
    rw (cmd_generate, read_flags-generate_args count cipher_id layouts path small byte layout_bytes)
      refl

-- For a secret of 32 bytes, an old file, not named `--out`, that holds the text of a bundle of the
-- right widths, and a new file that opens: `cmd_reissue` succeeds; the new file then holds a text that parses to the
-- bundle with only its secret exchanged, and any other file is as it was.
pub cmd_reissue-to_text :
    (secret : Bytes) (opens : Text → Bool) (old new name : Text) (previous : Bundle)
    (files : Directory)
    → All IsByte secret
    → length secret ≡ 32
    → IsBundle previous
    → old ≢ text_of "--out"
    → name ≢ new
    → opens new ≡ true
    → read_text old files ≡ some (to_text previous)
    → (files' : Directory) × (text : Text) × (cmd_reissue secret opens
          (old ∷ text_of "--out" ∷ new ∷ [])
          files
        ≡ (success, files'))
      × (read_text new files' ≡ some text)
      × (parse text ≡ done (record previous { device_secret = secret }))
      × (read_text name files' ≡ read_text name files)
unfolding cmd_reissue read_paths reissue
cmd_reissue-to_text secret opens old new name previous files bytes size v plain other opened there =
    let next = record previous { device_secret = secret } in
    let next_v : IsBundle next = record {
      sender_id_lt = v.sender_id_lt;
      secret_bytes = bytes;
      secret_length = size;
      cipher_id_lt = v.cipher_id_lt;
      layout_bytes = v.layout_bytes;
    } in
    (
      write_text new (to_text next) files,
      to_text next,
      rw (same_text-other old (text_of "--out") plain, there, parse-to_text previous v, opened)
          refl,
      read_text-write_text new (to_text next) files,
      parse-to_text next next_v,
      read_text-write_text_other name new (to_text next) files other,
    )
