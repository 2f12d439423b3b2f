-- ===== src/Config.antt =====
-- crates/gola-core/src/config: what a configuration says of the data that goes in and comes out.
pub mod Validation
pub mod Types
pub mod Check
pub mod Defaults
