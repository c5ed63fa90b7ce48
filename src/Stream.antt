-- ===== src/Stream.antt =====
-- crates/jkr/src/stream.rs: the line pipeline.
pub mod Ansi
pub mod Normalize
pub mod Tee
pub mod Signature
pub mod Pipeline
