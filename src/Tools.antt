-- ===== src/Tools.antt =====
-- tools/src/bin: the command-line programs, as far as they compute.
pub mod Json
pub mod Vectors
pub mod Verdict
pub mod Provision
