-- ===== src/Tools/Provision.antt =====
-- tools/src/bin/provision.rs: the bundles that `generate` makes and writes, and `reissue`. The directory
-- is a list of names with contents; the system's random numbers are parameters, as is what can be
-- created and opened for writing. The draws are a list: on its end the loop still runs.
pub mod Files
pub mod Commands
pub mod Runs
pub mod Filling
pub mod Generate
pub mod Ends
pub mod Layouts
use catp.Base.{
  ℕ, Bool, true, false, not, ◌==◌, ◌!=◌, ◌+◌, ltb, Option, none, some, List, [], ◌∷◌, ◌++◌, length,
  if◌then◌else◌,
}
use catp.Base.Text.{Text, text_of, same_text, hex_text, u8_from_hex}
use catp.Base.Words.{Bytes, u32_to_be}
use catp.PeerState.{is_none}
use catp.Provisioning.{Bundle, to_text}
use catp.Registry.CipherId

abbrev pub Directory : Type 0
Directory = List (Text × Text)

-- `fs::read_to_string`; `Path::exists` asks whether it would find something.
unfoldable pub read_text : Text → Directory → Option Text
read_text name [] = none
read_text name ((n, text) ∷ files) =
    let rest = read_text name files in if same_text name n then some text else rest

-- A file that is created or truncated, and written.
unfoldable pub write_text : Text → Text → Directory → Directory
write_text name text [] = (name, text) ∷ []
write_text name text ((n, old) ∷ files) =
    let rest = write_text name text files in
    if same_text name n then (n, text) ∷ files else (n, old) ∷ rest

abbrev pub file_name : ℕ → Text
file_name sender_id = text_of "node-" ++ (hex_text (u32_to_be sender_id) ++ text_of ".bundle")

-- What successive calls of `random_sender_id` return.
unfoldable pub random_sender_ids : List ℕ → List ℕ
random_sender_ids [] = []
random_sender_ids (id ∷ draws) =
    let rest = random_sender_ids draws in if id != 0 then id ∷ rest else rest

abbrev pub contains : ℕ → List ℕ → Bool
contains id [] = false
contains id (x ∷ seen) = if id == x then true else contains id seen

pub record Batch : Type 0 where
  pub seen : List ℕ
  pub bundles : List Bundle

-- The n-th secret is what the n-th call of `random_secret` returns.
module _ (random_secret : ℕ → Bytes) (out : Directory) (count cipher_id : ℕ)
    (layouts : List (ℕ × ℕ)) where
  -- The body of the loop that fills the batch.
  unfoldable pub sample : ℕ → Batch → Batch
  sample sender_id b =
      if contains sender_id b.seen
      then b
      else if not (is_none (read_text (file_name sender_id) out))
      then record b { seen = sender_id ∷ b.seen }
      else record {
        seen = sender_id ∷ b.seen;
        bundles =
            b.bundles
            ++ (record {
              sender_id = sender_id;
              device_secret = random_secret (length b.bundles);
              cipher_id = cipher_id;
              layouts = layouts;
            }
                ∷ []);
      }

  unfoldable pub fill : List ℕ → Batch → Option (List Bundle)
  fill [] b = if ltb (length b.bundles) count then none else some b.bundles
  fill (sender_id ∷ draws) b =
      let rest = fill draws (sample sender_id b) in
      if ltb (length b.bundles) count then rest else some b.bundles

-- Whether all were written, and the directory; `opens` says which files can be opened for writing.
unfoldable pub write_all : (Text → Bool) → List Bundle → Directory → Bool × Directory
write_all opens [] out = (true, out)
write_all opens (b ∷ bundles) out =
    let rest = write_all opens bundles (write_text (file_name b.sender_id) (to_text b) out) in
    if opens (file_name b.sender_id) then rest else (false, out)

abbrev pub write_batch :
    (Text → Bool) → Directory → Option (List Bundle) → Option (Bool × Directory)
write_batch opens out none = none
write_batch opens out (some bundles) = some (write_all opens bundles out)

-- `cmd_generate` from its parsed arguments on, with whether the directory can be created: whether it
-- succeeds, and the directory it leaves.
unfoldable pub generate :
    (ℕ → Bytes)
    → Bool
    → (Text → Bool)
    → ℕ
    → ℕ
    → List (ℕ × ℕ)
    → List ℕ
    → Directory
    → Option (Bool × Directory)
generate random_secret creates opens count cipher_id layouts draws out =
    if is_none (CipherId.from_u8 cipher_id)
    then some (false, out)
    else if not creates
    then some (false, out)
    else write_batch opens out (
        fill random_secret out count cipher_id layouts (random_sender_ids draws)
          (record { seen = []; bundles = [] }))

-- `split(',')`, and `split_once(':')`.
abbrev pub join_field : ℕ → ℕ → List Text → List Text
join_field sep c [] = (c ∷ []) ∷ []
join_field sep c (field ∷ fields) = if c == sep then [] ∷ (field ∷ fields) else (c ∷ field) ∷ fields

unfoldable pub split_on : ℕ → Text → List Text
split_on sep [] = [] ∷ []
split_on sep (c ∷ s) = join_field sep c (split_on sep s)

abbrev pub before : ℕ → Option (Text × Text) → Option (Text × Text)
before c none = none
before c (some (f, s)) = some (c ∷ f, s)

unfoldable pub split_once : ℕ → Text → Option (Text × Text)
split_once sep [] = none
split_once sep (c ∷ s) =
    let rest = split_once sep s in if c == sep then some ([], s) else before c rest

abbrev pub both_bytes : Option ℕ → Option ℕ → Option (ℕ × ℕ)
both_bytes none s = none
both_bytes (some f) none = none
both_bytes (some f) (some s) = some (f, s)

abbrev pub layout_pair : Option (Text × Text) → Option (ℕ × ℕ)
layout_pair none = none
layout_pair (some (f, s)) = both_bytes (u8_from_hex f) (u8_from_hex s)

abbrev pub cons_pair : Option (ℕ × ℕ) → Option (List (ℕ × ℕ)) → Option (List (ℕ × ℕ))
cons_pair none rest = none
cons_pair (some p) none = none
cons_pair (some p) (some rest) = some (p ∷ rest)

unfoldable pub layout_pairs : List Text → Option (List (ℕ × ℕ))
layout_pairs [] = some []
layout_pairs (pair ∷ pairs) = cons_pair (layout_pair (split_once b':' pair)) (layout_pairs pairs)

-- `none` where the program exits.
unfoldable pub parse_layouts : Text → Option (List (ℕ × ℕ))
parse_layouts [] = some []
parse_layouts (c ∷ s) = layout_pairs (split_on b',' (c ∷ s))

-- What `cmd_reissue` writes for the bundle that it has read.
unfoldable pub reissue : Bytes → Bundle → Bundle
reissue secret previous = record previous { device_secret = secret }
