-- ===== src/Examples.antt =====
-- Concrete data for the examples: a stand-in for the cryptographic primitives, a peer, and a datagram
-- with the bytes that it is sent as.
pub mod Receive
pub mod Send
pub mod Parts
pub mod Node
pub mod Tools
pub mod Sealed
pub mod Provision
use catp.Base.{
  ℕ, ◌+◌, ◌*◌, ◌%◌, ◌≡◌, refl, ap, arith, Bool, true, false, ◌&&◌, ◌==◌, Option, none, some, List,
  [], ◌∷◌, ◌++◌, take, replicate, ◌↔◌, length, length-replicate, All, ltb,
}
use catp.Base.Text.Laws.{all}
use catp.Base.Words.{Bytes, IsByte}
use catp.Registry.{Direction, node_to_collector}
use catp.Registry.CipherId.{CipherId, hmac_sha256_t64, sip_hash24, cha_cha20_poly1305}
use catp.Crypto.{Primitives}
use catp.Stats.{zeros}
use catp.PeerState.{PeerState}
use catp.Wire.Record.{Record}
use catp.Wire.Datagram.{Datagram}
use catp.Wire.Decode.{PeerConfig, Accepted}

pub are_bytes : (bytes : Bytes) → all (λ b. ltb b 256) bytes ≡ true → All IsByte bytes
are_bytes [] h = tt
are_bytes (b ∷ bytes) h = (ground arith, are_bytes bytes (ground arith))

-- A sum of the bytes in place of a MAC.
abbrev pub checksum : ℕ → Bytes → ℕ
checksum acc [] = acc
checksum acc (b ∷ bs) = checksum ((acc * 31 + b) % 256) bs

abbrev pub same_bytes : Bytes → Bytes → Bool
same_bytes [] [] = true
same_bytes (a ∷ xs) (b ∷ bs) = a == b && same_bytes xs bs
same_bytes [] (b ∷ bs) = false
same_bytes (a ∷ xs) [] = false

pub same_bytes-eq : (a b : Bytes) → same_bytes a b ≡ true → a ≡ b
same_bytes-eq [] [] h = refl
same_bytes-eq [] (b ∷ bs) h = cc
same_bytes-eq (a ∷ xs) [] h = cc
same_bytes-eq (a ∷ xs) (b ∷ bs) h = ground (arith, same_bytes-eq xs bs)

pub same_bytes_refl : (a : Bytes) → same_bytes a a ≡ true
same_bytes_refl [] = refl
same_bytes_refl (a ∷ xs) = ground (arith, same_bytes_refl xs)

pub same_bytes-of : (a b : Bytes) → a ≡ b → same_bytes a b ≡ true
same_bytes-of a b h = rw h (same_bytes_refl b)

abbrev pub toy : Primitives
toy = record {
  hkdf = λ secret info. replicate 32 (checksum 0 (secret ++ info));
  hmac_sha256 = λ key msg. replicate 32 (checksum 0 (key ++ msg));
  sip_hash = λ key msg. checksum 0 (key ++ msg);
  cha_cha_tag = λ key nonce msg. replicate 16 (checksum 0 (key ++ (nonce ++ msg)));
  equal_slices = same_bytes;
  length-hmac = λ key msg. length-replicate {A = ℕ} 32 (checksum 0 (key ++ msg));
  length-cha_cha =
      λ key nonce msg. length-replicate {A = ℕ} 16 (checksum 0 (key ++ (nonce ++ msg)));
  equal_iff = λ a b. (same_bytes-eq a b, same_bytes-of a b);
}

abbrev pub peer : PeerConfig
peer = record {
  sender_id = 7;
  secret = replicate 32 1;
  cipher = hmac_sha256_t64;
  layouts = (1, 1) ∷ [];
  inbound_rate_limit = none;
}

abbrev pub reading : Record
reading = record { format = 1; schema_version = 1; body = 10 ∷ 20 ∷ [] }

-- Of a layout that the peer's receiver does not know.
abbrev pub stranger : Record
stranger = record { format = 2; schema_version = 3; body = 30 ∷ [] }

-- A MESSAGE of epoch 21, at tick 100.
abbrev pub sent : Datagram
sent = record {
  version = 1;
  msg_type = 1;
  cipher_id = 1;
  epoch_low = 5;
  reserved = 0;
  datagram_offset = 100;
  sender_id = 7;
  records = reading ∷ stranger ∷ [];
  raw = [];
}

abbrev pub receiver : PeerState
receiver = record {
  config = peer;
  windows = record { slot0 = none; slot1 = none };
  highest_epoch_announced = none;
  limiter = none;
  stats = zeros;
}

abbrev pub wire : Bytes
wire =
    33
    ∷ 21
    ∷ 0
    ∷ 0
    ∷ 100
    ∷ 0
    ∷ 0
    ∷ 0
    ∷ 7
    ∷ 16
    ∷ 16
    ∷ 2
    ∷ 10
    ∷ 20
    ∷ 32
    ∷ 48
    ∷ 1
    ∷ 30
    ∷ replicate 8 168

-- What the receiver of `wire` returns.
abbrev pub received : Accepted
received = record {
  datagram = record sent { records = reading ∷ [] };
  epoch_id = 21;
  datagram_offset = 100;
  skipped = stranger ∷ [];
}
