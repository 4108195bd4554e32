-- ===== src/Tools/Provision/Commands.antt =====
-- tools/src/bin/provision.rs: `cmd_generate` and `cmd_reissue` with their arguments.
use catp.Base.{ℕ, Bool, Option, none, some, List, [], ◌∷◌, if◌then◌else◌}
use catp.Base.Text.{Text, text_of, same_text, u8_from_hex}
use catp.Base.Text.Decimal.{parse_u32}
use catp.Base.Words.{Bytes}
use catp.PeerState.{is_none}
use catp.Provisioning.{Bundle, to_text}
use catp.Provisioning.Parse.{Provisioned, done, malformed, parse}
use catp.Tools.Provision.{Directory, read_text, write_text, generate, parse_layouts, reissue}

-- `usage` is the status 2 of `process::exit`.
pub data ExitCode : Type 0 where
  usage failure success : ExitCode

-- The local variables of the loop in `cmd_generate`.
pub record Flags : Type 0 where
  pub count : Option ℕ
  pub cipher_id : Option ℕ
  pub layouts : List (ℕ × ℕ)
  pub out : Option Text

abbrev pub no_flags : Flags
no_flags = record { count = none; cipher_id = none; layouts = []; out = none }

abbrev pub set_count : Flags → Option ℕ → Option Flags
set_count flags none = none
set_count flags (some n) = some (record flags { count = some n })

abbrev pub set_cipher : Flags → Option ℕ → Option Flags
set_cipher flags none = none
set_cipher flags (some n) = some (record flags { cipher_id = some n })

abbrev pub set_layouts : Flags → Option (List (ℕ × ℕ)) → Option Flags
set_layouts flags none = none
set_layouts flags (some layouts) = some (record flags { layouts = layouts })

-- One round of the loop; `none` where the program exits.
unfoldable pub take_flag : Text → Text → Flags → Option Flags
take_flag arg value flags =
    if same_text arg (text_of "--count")
    then set_count flags (parse_u32 value)
    else if same_text arg (text_of "--cipher")
    then set_cipher flags (u8_from_hex value)
    else if same_text arg (text_of "--layouts")
    then set_layouts flags (parse_layouts value)
    else if same_text arg (text_of "--out")
    then some (record flags { out = some value })
    else none

-- Without a value to it an argument is an error, whichever it is.
unfoldable pub read_flags : List Text → Flags → Option Flags
read_flags [] flags = some flags
read_flags (arg ∷ []) flags = none
read_flags (arg ∷ (value ∷ args)) flags = elim (take_flag arg value flags) [
  | none ↦ none
  | some flags' ↦ read_flags args flags'
]

abbrev pub exit_with : Option (Bool × Directory) → Option (ExitCode × Directory)
exit_with none = none
exit_with (some (succeeds, out)) = some (if succeeds then success else failure, out)

-- The variables that must be given; the directory is the one that `--out` names.
abbrev pub run_generate :
    (ℕ → Bytes)
    → Bool
    → (Text → Bool)
    → List ℕ
    → Directory
    → Option ℕ
    → Option ℕ
    → List (ℕ × ℕ)
    → Option Text
    → Option (ExitCode × Directory)
run_generate random_secret creates opens draws out (some count) (some cipher_id) layouts
      (some path) =
    exit_with (generate random_secret creates opens count cipher_id layouts draws out)
run_generate random_secret creates opens draws out none cipher_id layouts path = some (usage, out)
run_generate random_secret creates opens draws out (some count) none layouts path =
    some (usage, out)
run_generate random_secret creates opens draws out (some count) (some cipher_id) layouts none =
    some (usage, out)

unfoldable pub cmd_generate :
    (ℕ → Bytes)
    → Bool
    → (Text → Bool)
    → List ℕ
    → List Text
    → Directory
    → Option (ExitCode × Directory)
cmd_generate random_secret creates opens draws args out = elim (read_flags args no_flags) [
  | none ↦ some (usage, out)
  | some flags ↦
      run_generate random_secret creates opens draws out flags.count flags.cipher_id flags.layouts
        flags.out
]

-- The arguments of `cmd_reissue`: the old bundle's path and the new one's.
unfoldable pub read_paths :
    List Text → Option Text → Option Text → Option (Option Text × Option Text)
read_paths [] old out = some (old, out)
read_paths (arg ∷ []) old out =
    if same_text arg (text_of "--out")
    then none
    else if is_none old
    then some (some arg, out)
    else none
read_paths (arg ∷ (value ∷ args)) old out =
    let flagged = read_paths args old (some value) in
    let plain = read_paths (value ∷ args) (some arg) out in
    if same_text arg (text_of "--out") then flagged else if is_none old then plain else none

abbrev pub write_reissued : (Text → Bool) → Text → Bundle → Directory → ExitCode × Directory
write_reissued opens out reissued files =
    if opens out then (success, write_text out (to_text reissued) files) else (failure, files)

abbrev pub reissue_read :
    Bytes → (Text → Bool) → Text → Provisioned Bundle → Directory → ExitCode × Directory
reissue_read secret opens out (done previous) files =
    write_reissued opens out (reissue secret previous) files
reissue_read secret opens out (malformed e) files = (failure, files)

-- `Bundle::read_file`, and what follows.
abbrev pub reissue_text :
    Bytes → (Text → Bool) → Text → Option Text → Directory → ExitCode × Directory
reissue_text secret opens out none files = (failure, files)
reissue_text secret opens out (some text) files = reissue_read secret opens out (parse text) files

abbrev pub run_reissue :
    Bytes → (Text → Bool) → Option (Option Text × Option Text) → Directory → ExitCode × Directory
run_reissue secret opens (some (some old, some out)) files =
    reissue_text secret opens out (read_text old files) files
run_reissue secret opens (some (none, out)) files = (usage, files)
run_reissue secret opens (some (some old, none)) files = (usage, files)
run_reissue secret opens none files = (usage, files)

-- The files here are named by their paths; `secret` is what `random_secret` returns.
unfoldable pub cmd_reissue : Bytes → (Text → Bool) → List Text → Directory → ExitCode × Directory
cmd_reissue secret opens args files = run_reissue secret opens (read_paths args none none) files
