-- ===== src/Epoch/Reconstruct.antt =====
-- `reconstruct_epoch` against the acceptance window {local - 1, local}.
use catp.Base.{ℕ, ◌+◌, ◌-◌, ◌%◌, ◌≤◌, ◌≡◌, ◌↔◌, ◌⊎◌, arith, none, some, ◌==◌, if◌then◌else◌}
use catp.Base.Bits.{and_0x0f}
use catp.Epoch.{reconstruct_epoch}

-- For any local epoch: the call returns an epoch exactly if that is the local one or the one before
-- it (which epoch 0 has not), and its four low bits are those transmitted.
pub reconstruct_epoch_iff :
    (local_epoch low e : ℕ)
    → (reconstruct_epoch local_epoch low ≡ some e)
      ↔ (((e ≡ local_epoch) ⊎ (e + 1 ≡ local_epoch)) × (e % 16 ≡ low % 16))
unfolding reconstruct_epoch
reconstruct_epoch_iff local_epoch low e = (
  λ h. ground (arith, and_0x0f low, and_0x0f local_epoch, and_0x0f (local_epoch - 1)),
  λ h. ground (arith, and_0x0f low, and_0x0f local_epoch, and_0x0f (local_epoch - 1)),
)

-- An epoch of the window is recovered from its own four low bits.
pub reconstruct_epoch-low :
    (local_epoch e : ℕ)
    → (e ≡ local_epoch) ⊎ (e + 1 ≡ local_epoch)
    → reconstruct_epoch local_epoch (e % 16) ≡ some e
reconstruct_epoch-low local_epoch e h =
    (reconstruct_epoch_iff local_epoch (e % 16) e).1 (h, omega arith)

-- An epoch from 2 to 15 before the local one reconstructs to nothing, and one 16 before it to the
-- local one.
pub reconstruct_epoch_drift :
    (local_epoch back : ℕ)
    → 2 ≤ back
    → back ≤ local_epoch
    → back ≤ 16
    → reconstruct_epoch local_epoch ((local_epoch - back) % 16)
      ≡ (if back == 16 then some local_epoch else none)
unfolding reconstruct_epoch
reconstruct_epoch_drift local_epoch back lo fits hi =
    ground (
      arith,
      and_0x0f ((local_epoch - back) % 16),
      and_0x0f local_epoch,
      and_0x0f (local_epoch - 1),
    )
