-- ===== src/Wire.antt =====
-- src/wire.rs: datagrams and records.
pub mod Record
pub mod Datagram
pub mod Decode
pub mod Time
