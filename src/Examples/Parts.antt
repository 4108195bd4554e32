-- ===== src/Examples/Parts.antt =====
-- The theorems on the other parts, each at one input.
use catp.Base.{
  ℕ, ◌+◌, ◌*◌, ◌%◌, ◌≤◌, max, ◌≡◌, refl, ◌≢◌, arith, true, ◌∷◌, [], length, replicate, some, ◌↔◌,
  ◌⊎◌, ltb, if◌then◌else◌,
}
use catp.Base.Words.{Bytes}
use catp.Errors.{ok, err, oversize}
use catp.Registry.{Direction, node_to_collector, collector_to_node, ticks_per_epoch}
use catp.Registry.CipherId.{CipherId, hmac_sha256_t64, sip_hash24, cha_cha20_poly1305, tag_len}
use catp.Epoch.{epoch_id_at, epoch_offset_at, reconstruct_epoch}
use catp.Epoch.Reconstruct.{reconstruct_epoch_iff}
use catp.Pacer
use catp.Pacer.{claim}
use catp.Pacer.Claims.{claim_all, EpochsFrom, Increasing, claim_all-Increasing, claim_repeats}
use catp.Limiter
use catp.Limiter.{RateLimit, try_acquire}
use catp.Limiter.Budget.{acquire_all, new-IsValid, acquire_all-le, try_acquire_quiet}
use catp.Crypto.{mac, epoch_info, time_info}
use catp.Crypto.Laws.{tag, too_long, mac_cases}
use catp.Crypto.Keys.{info_separates}
use catp.Wire.Datagram.{payload_len, encode}
use catp.Wire.Datagram.Header.{auth_header_binds}
use catp.Wire.Datagram.Encode.{wire_bytes, wire_len, encode-eq}
use catp.Examples.{toy, peer, sent}
use catp.Examples.Send.{sent-IsHeader}

abbrev old_epoch : ℕ
old_epoch = 21

abbrev new_epoch : ℕ
new_epoch = 22

abbrev key : Bytes
key = replicate 32 1

abbrev long_message : Bytes
long_message = replicate 513 0

abbrev head : Bytes
head = 1 ∷ []

abbrev body : Bytes
body = 2 ∷ 3 ∷ []

encode-eq_example : encode toy sent peer.secret 21 node_to_collector 20 ≡ (
    if too_long hmac_sha256_t64 (13 + payload_len sent)
    then err (oversize (13 + payload_len sent))
    else if ltb 20 (wire_len toy hmac_sha256_t64 sent)
    then err (oversize (wire_len toy hmac_sha256_t64 sent))
    else ok (wire_bytes toy hmac_sha256_t64 sent peer.secret 21 node_to_collector))
unfolding catp.Registry.CipherId.from_u8
encode-eq_example =
    encode-eq toy hmac_sha256_t64 sent refl peer.secret 21 node_to_collector 20
      ((omega arith, omega arith), ((omega arith, omega arith), tt))

reconstruct_epoch_iff_example :
    (reconstruct_epoch 22 5 ≡ some 21)
    ↔ (((old_epoch ≡ 22) ⊎ (old_epoch + 1 ≡ 22)) × (old_epoch % 16 ≡ 5 % 16))
reconstruct_epoch_iff_example = reconstruct_epoch_iff 22 5 21

instants-EpochsFrom : EpochsFrom 0 ((5, 0) ∷ (5, 0) ∷ (5, 900_000_000) ∷ (130, 0) ∷ [])
unfolding epoch_id_at
instants-EpochsFrom = (omega arith, (omega arith, (omega arith, (omega arith, tt))))

claim_all-Increasing_example :
    Increasing (claim_all Pacer.new ((5, 0) ∷ (5, 0) ∷ (5, 900_000_000) ∷ (130, 0) ∷ []))
claim_all-Increasing_example =
    claim_all-Increasing ((5, 0) ∷ (5, 0) ∷ (5, 900_000_000) ∷ (130, 0) ∷ []) instants-EpochsFrom

first_claim : (claim Pacer.new 5 0).0 ≡ ok (0, 20480)
unfolding claim Pacer.new epoch_id_at epoch_offset_at
first_claim = refl

epochs_differ : epoch_id_at 5 ≢ epoch_id_at 130
unfolding epoch_id_at
epochs_differ h = ground (arith, h)

claim_repeats_example : (claim (claim (claim Pacer.new 5 0).1 130 0).1 5 0).0 ≡ ok (0, 20480)
claim_repeats_example = claim_repeats Pacer.new 5 0 130 0 (0, 20480) epochs_differ first_claim

acquire_all-le_example :
    let (n, l) =
      acquire_all (Limiter.new (record { per_sec = 2; burst = 1 })) (0 ∷ 100 ∷ 600 ∷ []) in
    n * 1000 ≤ max 1 1 * 1000 + 2 * l.last_ms
acquire_all-le_example =
    acquire_all-le (record { per_sec = 2; burst = 1 }) (0 ∷ 100 ∷ 600 ∷ [])
      (omega arith, (omega arith, (omega arith, tt)))

try_acquire_quiet_example :
    (try_acquire (Limiter.new (record { per_sec = 2; burst = 1 })) 700).0 ≡ true
try_acquire_quiet_example =
    try_acquire_quiet (Limiter.new (record { per_sec = 2; burst = 1 })) 700
      (new-IsValid (record { per_sec = 2; burst = 1 })) (unfold Limiter.new in omega arith)

mac_cases_example : mac toy cha_cha20_poly1305 key long_message 7 ≡ (
    if too_long cha_cha20_poly1305 (length long_message)
    then err (oversize (length long_message))
    else ok (tag toy cha_cha20_poly1305 key long_message 7))
mac_cases_example = mac_cases toy cha_cha20_poly1305 key long_message 7

info_separates_example :
    (epoch_info old_epoch old_epoch node_to_collector
        ≡ epoch_info old_epoch new_epoch node_to_collector
      → (old_epoch ≡ old_epoch) × (old_epoch ≡ new_epoch) × (node_to_collector ≡ node_to_collector))
    × (time_info old_epoch node_to_collector ≡ time_info old_epoch node_to_collector
        → (old_epoch ≡ old_epoch) × (node_to_collector ≡ node_to_collector))
    × (epoch_info old_epoch old_epoch node_to_collector ≢ time_info old_epoch node_to_collector)
info_separates_example =
    info_separates 21 21 21 22 node_to_collector node_to_collector (omega arith) (omega arith)
      (omega arith) (omega arith)

auth_header_binds_example :
    (sent.version ≡ sent.version)
    × (sent.msg_type ≡ sent.msg_type)
    × (sent.cipher_id ≡ sent.cipher_id)
    × (sent.reserved ≡ sent.reserved)
    × (sent.datagram_offset ≡ sent.datagram_offset)
    × (sent.sender_id ≡ sent.sender_id)
    × (old_epoch ≡ old_epoch)
auth_header_binds_example =
    auth_header_binds sent sent 21 21 sent-IsHeader sent-IsHeader (omega arith) (omega arith) refl
