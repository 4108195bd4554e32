-- ===== src/Examples/Provision.antt =====
-- The theorems on the program that provisions, each at one input.
use catp.Base.{
  ℕ, ◌<◌, ◌≡◌, ◌≢◌, refl, arith, Bool, true, some, none, List, [], ◌∷◌, ◌++◌, All, replicate,
  length,
}
use catp.Base.Text.{Text, text_of}
use catp.Base.Words.{Bytes, IsByte}
use catp.Provisioning.{Bundle, to_text}
use catp.Provisioning.Parse.{done, parse}
use catp.Tools.Provision.{Directory, read_text, file_name, generate}
use catp.Provisioning.RoundTrip.{IsBundle}
use catp.Tools.Provision.Commands.{success, cmd_reissue}
use catp.Tools.Provision.Runs.{cmd_reissue-to_text}
use catp.Tools.Provision.Ends.{generate-ends}
use catp.Tools.Provision.Filling.{Filled}
use catp.Tools.Provision.Generate.{generate-keeps, generate-provisions}
use catp.Examples.{are_bytes}

abbrev secret : ℕ → Bytes
secret n = replicate 32 7

secrets : (n : ℕ) → All IsByte (secret n) × (length (secret n) ≡ 32)
secrets n = (are_bytes (replicate 32 7) refl, refl)

abbrev opens : Text → Bool
opens name = true

abbrev old : Directory
old = (file_name 5, text_of "kept") ∷ []

-- Zero is drawn again, a drawn identifier too, and one with a file.
abbrev draws : List ℕ
draws = 0 ∷ 9 ∷ 9 ∷ 5 ∷ 6 ∷ []

abbrev node : ℕ → Bundle
node id = record {
  sender_id = id;
  device_secret = replicate 32 7;
  cipher_id = 1;
  layouts = (1, 1) ∷ [];
}

abbrev grown : Directory
grown = old ++ ((file_name 9, to_text (node 9)) ∷ ((file_name 6, to_text (node 6)) ∷ []))

generated : generate secret true opens 2 1 ((1, 1) ∷ []) draws old ≡ some (true, grown)
unfolding generate catp.Registry.CipherId.from_u8 catp.Tools.Provision.fill
    catp.Tools.Provision.random_sender_ids catp.Tools.Provision.sample read_text
    catp.Base.Text.hex_text catp.Tools.Provision.write_all catp.Tools.Provision.write_text
generated = refl

u32_draws : All (λ id. id < 4294967296) draws
u32_draws = (omega arith, (omega arith, (omega arith, (omega arith, (omega arith, tt)))))

there : read_text (file_name 5) old ≡ some (text_of "kept")
unfolding read_text catp.Base.Text.hex_text
there = refl

generate-keeps_example : read_text (file_name 5) grown ≡ some (text_of "kept")
generate-keeps_example =
    generate-keeps secret true opens 2 1 ((1, 1) ∷ []) draws old secrets (omega arith)
      ((omega arith, omega arith), tt) u32_draws true grown (file_name 5) (text_of "kept") generated
      there

generate-provisions_example :
    (bundles : List Bundle) × Filled secret old 2 1
      ((1, 1) ∷ [])
      secrets
      (omega arith)
      ((omega arith, omega arith), tt)
      bundles
    × All
        (λ (b : Bundle).
          (read_text (file_name b.sender_id) grown ≡ some (to_text b))
          × (parse (to_text b) ≡ done b))
        bundles
generate-provisions_example =
    generate-provisions secret true opens 2 1 ((1, 1) ∷ []) draws old secrets (omega arith)
      ((omega arith, omega arith), tt) u32_draws grown generated

no_file : (read_text (file_name 9) old ≡ none) × (read_text (file_name 6) old ≡ none)
unfolding read_text catp.Base.Text.hex_text
no_file = (refl, refl)

generate-ends_example :
    (result : Bool × Directory) × (generate secret true opens 2 1 ((1, 1) ∷ []) (9 ∷ 6 ∷ []) old
      ≡ some result)
generate-ends_example =
    generate-ends secret old 2 1 ((1, 1) ∷ []) true opens (9 ∷ 6 ∷ [])
      (((λ e. ground arith), tt), (tt, tt))
      (((λ e. ground arith), no_file.0), (((λ e. ground arith), no_file.1), tt)) (omega arith)

node-IsBundle : IsBundle (node 9)
node-IsBundle = record {
  sender_id_lt = omega arith;
  secret_bytes = are_bytes (replicate 32 7) refl;
  secret_length = refl;
  cipher_id_lt = omega arith;
  layout_bytes = ((omega arith, omega arith), tt);
}

abbrev files : Directory
files = (text_of "old", to_text (node 9)) ∷ []

old_text : read_text (text_of "old") files ≡ some (to_text (node 9))
unfolding read_text
old_text = refl

cmd_reissue-to_text_example :
    (files' : Directory) × (text : Text) × (cmd_reissue
        (replicate 32 8)
        opens
        (text_of "old" ∷ text_of "--out" ∷ text_of "new" ∷ [])
        files
      ≡ (success, files'))
    × (read_text (text_of "new") files' ≡ some text)
    × (parse text ≡ done (record (node 9) { device_secret = replicate 32 8 }))
    × (read_text (text_of "old") files' ≡ read_text (text_of "old") files)
cmd_reissue-to_text_example =
    cmd_reissue-to_text (replicate 32 8) opens (text_of "old") (text_of "new") (text_of "old")
      (node 9) files (are_bytes (replicate 32 8) refl) refl node-IsBundle (λ e. ground arith)
      (λ e. ground arith) refl old_text
