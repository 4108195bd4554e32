-- ===== src/Lib.antt =====
-- CATP, the compact authenticated telemetry protocol: a model of the library crate and what holds of
-- it.
--
-- A sender builds a datagram (`src/wire.rs`), claims its place in time with a pacer, and seals it with
-- a MAC under a key of its epoch (`src/lib.rs`). A collector routes it by sender to a receiver state
-- (`src/peer.rs`), which picks the replay window of the datagram's epoch and calls `decode`
-- (`src/wire.rs`): header checks, epoch reconstruction, MAC, replay window, framing, layouts; then
-- the rate limit is spent and the outcome counted. A node without a clock recovers time by a request
-- and an announcement under a key that no epoch enters. Control payloads (`src/control.rs`) travel in
-- datagrams of their own types. A provisioning bundle (`src/provisioning.rs`) puts a device's identity
-- and secret on both ends as text. The tools under `tools/src/bin` write test vectors as lines of JSON
-- (`vectors.rs`), judge such lines with the library (`conformance_iut.rs`), and draw and write bundles
-- (`provision.rs`).
--
-- The files, by the part of the program that they model:
--   Registry     constants, `Direction`, `CipherId`, `MsgType`, `Format` of src/lib.rs
--   Errors       `Error`, and the `Result` chains of `?`
--   Payload      `scale_is_valid`, `validate_number`, `validate_series`
--   Crypto       `epoch_key`, `time_key`, `mac`, `mac_into`, `mac_parts`, `ct_eq`
--   Epoch        `epoch_id_at`, `epoch_offset_at`, `reconstruct_epoch`
--   Replay       `ReplayWindow`; Replay.History is its specification, a list of accepted offsets
--   Pacer        `Pacer`
--   Limiter      `RateLimit`, `InboundLimiter`
--   Wire.Record  `Record` of src/wire.rs: header and body
--   Wire.Datagram  `Datagram`: `data` (here `record_datagram`), `number`, `series`, `control`, the
--                header, `encode_into`, `encode`, `number_value`, `series_values`
--   Wire.Decode  `decode`, cut into `check_header` and `authenticate` (steps 1 to 7, together
--                `verify`) and `admit` (steps 8 to 10)
--   Wire.Time    `time_announce`, `time_request` and their decoders
--   Control      `Control`, `Capability` of src/control.rs
--   Stats, PeerState, Collector, NodeClock   the types of these names in src/peer.rs; Stats.Named is
--                the specification of the counters, by the steps that their documentation names
--   Provisioning  `Bundle`: `to_text`, `into_peer_config`, `parse_hex_bytes`, `HEX_VALUE` of
--                src/provisioning.rs; Provisioning.Parse is `Bundle::parse`
--   Tools.Json   `mod tinyjson` of tools/src/bin/conformance_iut.rs
--   Tools.Verdict  the checks of that program and, in Tools.Verdict.Run, `verdict`
--   Tools.Vectors  the JSON lines of tools/src/bin/vectors.rs, and `authentic_with_payload`
--   Tools.Provision  `generate` of tools/src/bin/provision.rs with the directory that it writes to, and
--                `parse_layouts`; Tools.Provision.Commands has `cmd_generate` and `cmd_reissue`
--   Base.Text    a `str` as its code points, with the methods that are called on it; decimal numbers
--   Base         numbers, bits, integers of fixed width, lists: shared by all
--   Examples     the theorems at concrete inputs
--
-- A method that takes `&mut self` is a function that returns the new state beside its result. Where
-- `accept` hands a window out of its slots to `decode`, the window is handed back to the slot's place.
-- Integers are natural numbers, with the wrap-around and the saturation of the source written out; an
-- i16 or i64 is an integer read from its bit pattern. A counter, and i64 arithmetic that the source
-- does not make saturating, wrap as in a release build. A loop over a slice is recursion on the list;
-- the loop that clears the replay window counts its rounds, and the record loop counts the bytes to
-- pass over, so that no fuel is needed. The one loop on fuel reads the members of a JSON object, with
-- more rounds than the text has characters. A panic of a tool is a result of its own.
--
-- The functions of the cryptographic crates are the fields of the record Primitives, with the lengths
-- of the tags and the meaning of the constant-time comparison as its laws. No law says that a tag is
-- hard to forge: the theorems say which tag a datagram must carry to be accepted.
-- The texts that derived code makes of an error (`{:?}`) are the record Messages. The
-- system's random numbers are a list of draws and a function from the calls to the secrets.
--
-- Not modelled: `format_scaled`, the Display of errors and what the tools print for human readers,
-- which render strings; zeroisation; reading and writing files outside Tools.Provision; `main` of the
-- tools and `cmd_inspect`; the collector and sender programs, which are sockets,
-- printing and synthetic readings around the library; the tests, fuzz targets, benches and examples.
pub mod Base
pub mod Errors
pub mod Provisioning
pub mod Tools
pub mod Registry
pub mod Replay
pub mod Epoch
pub mod Pacer
pub mod Limiter
pub mod Payload
pub mod Crypto
pub mod Wire
pub mod Stats
pub mod PeerState
pub mod NodeClock
pub mod Collector
pub mod Control
pub mod Examples
