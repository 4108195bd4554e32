-- ===== src/Errors.antt =====
-- src/lib.rs, `enum Error`, and the `Result` that the fallible functions return.
pub mod Laws
use catp.Base.{ℕ, Bool, true, false, Option, none, some, String}
use catp.Base.Int.{ℤ}

pub data Error : Type 0 where
  too_short : Error
  unsupported_version : ℕ → Error
  bad_msg_type : ℕ → Error
  unknown_sender : ℕ → Error
  -- got, want
  cipher_mismatch : ℕ → ℕ → Error
  cipher_unimplemented : ℕ → Error
  epoch_out_of_window : Error
  auth_failed : Error
  replay : Error
  framing : String → Error
  body_too_large : ℕ → Error
  oversize : ℕ → Error
  offset_reuse : ℕ → Error
  bad_number : String → Error
  bad_series : String → Error
  -- got, hi
  epoch_rollback : ℕ → ℕ → Error
  -- asserted, floor
  time_rollback : ℤ → ℤ → Error
  clock_already_valid : Error
  no_clock : Error
  rate_limited : Error
  cipher_requires_rate_limit : ℕ → Error
  -- have, need
  buffer_too_small : ℕ → ℕ → Error

pub data Result {ℓ} (A : Type ℓ) : Type ℓ where
  ok : A → Result A
  err : Error → Result A

-- `Result::ok`
abbrev pub to_option {ℓ} : {A : Type ℓ} → Result A → Option A
to_option (ok a) = some a
to_option (err e) = none

-- `r?` and what is done with its value.
infixl 5 ◌>>=◌ ◌>>◌
abbrev pub ◌>>=◌ {ℓ κ} :
    {Value : Type ℓ} {Next : Type κ} → Result Value → (Value → Result Next) → Result Next
err failure >>= next = err failure
ok value >>= next = next value

-- `r?;`
abbrev pub ◌>>◌ {ℓ} : {Next : Type ℓ} → Result (Unit {0}) → Result Next → Result Next
checked >> next = checked >>= λ done. next

-- `if bad { return Err(e) }`
abbrev pub reject_if : Bool → Error → Result (Unit {0})
reject_if true e = err e
reject_if false e = ok tt

-- `Option::ok_or`
abbrev pub ok_or {ℓ} : {A : Type ℓ} → Option A → Error → Result A
ok_or none e = err e
ok_or (some a) e = ok a
