-- ===== src/Mesh.antt =====
-- crates/jkr-mesh: the signed messages of the mesh.
pub mod Bytes
pub mod Crypto
pub mod Attestation
pub mod Hello
pub mod Invite
pub mod Payment
