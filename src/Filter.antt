-- ===== src/Filter.antt =====
-- crates/jkr-filter: the line filter rules.
pub mod Regex
pub mod Rule
pub mod Compiled
pub mod Apply
pub mod Compile
pub mod Plugin
pub mod Coalesce
