-- ===== src/Host.antt =====
-- crates/jkr/src/host: the plugins of the host, their capabilities, their bus and their registry.
pub mod Bus
pub mod Registry
