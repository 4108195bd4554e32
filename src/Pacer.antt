-- ===== src/Pacer.antt =====
-- src/lib.rs, `Pacer`: the sender's allocation of offsets.
pub mod Claims
use catp.Base.{ℕ, Bool, not, leb, ◌==◌, if◌then◌else◌, Option, none, some}
use catp.Errors.{Error, offset_reuse, Result, ok, err}
use catp.Epoch.{epoch_id_at, epoch_offset_at}

pub record Pacer : Type 0 where
  pub epoch : Option ℕ
  pub last_offset : Option ℕ

unfoldable pub new : Pacer
new = record { epoch = none; last_offset = none }

-- `self.epoch != Some(epoch)`
abbrev pub is_other : Option ℕ → ℕ → Bool
is_other none epoch = Bool.true
is_other (some e) epoch = if e == epoch then Bool.false else Bool.true

-- The `if` that resets the offset when the epoch changes.
unfoldable pub enter_epoch : Pacer → ℕ → Pacer
enter_epoch p epoch =
    if is_other p.epoch epoch then record { epoch = some epoch; last_offset = none } else p

-- The `match` on `self.last_offset`.
unfoldable pub claim_offset : Option ℕ → Pacer → ℕ → ℕ → Result (ℕ × ℕ) × Pacer
claim_offset none p epoch offset = (ok (epoch, offset), record p { last_offset = some offset })
claim_offset (some prev) p epoch offset =
    if leb offset prev
    then (err (offset_reuse offset), p)
    else (ok (epoch, offset), record p { last_offset = some offset })

unfoldable pub claim : Pacer → ℕ → ℕ → Result (ℕ × ℕ) × Pacer
unfolding enter_epoch claim_offset
claim p unix_secs nanos =
    let epoch = epoch_id_at unix_secs in
    let offset = epoch_offset_at unix_secs nanos in
    let q = enter_epoch p epoch in claim_offset q.last_offset q epoch offset
