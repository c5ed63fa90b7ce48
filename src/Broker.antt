-- ===== src/Broker.antt =====
-- crates/jkr-server/src/broker.rs: who is a member of which mesh, and who is connected.
pub mod State
pub mod Join
pub mod Session
