-- ===== src/Mcp.antt =====
-- crates/jkr-mcp: the tools for a model.
pub mod Toon
