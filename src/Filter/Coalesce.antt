-- ===== src/Filter/Coalesce.antt =====
-- Coalescing in `compile_group` (crates/jkr-filter/src/rules.rs): the sets against the single rules.
mod Related
pub mod Sources
pub mod Equivalence
