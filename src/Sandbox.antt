-- ===== src/Sandbox.antt =====
-- crates/jkr-sandbox: what a sandboxed command may do, and what it was seen to do.
pub mod Policy
pub mod Pids
pub mod Trace
pub mod Tracee
pub mod Tracer
pub mod Verdict
pub mod Collector
