-- ===== src/Config.antt =====
-- internal/config: the schema, its lookups and validation, and the settings that cascade.
pub mod Types
pub mod Lookup
pub mod Validate
pub mod Cascade
pub mod Load
