-- ===== src/Config.antt =====
-- The configuration: src/config_json.h (the structs), src/config_serde.h (validation, secrets, the
-- JSON mapping), src/config_compare.h (comparison) and src/config_json.cpp (the files).
pub mod Types
pub mod Defaults
pub mod Checks
pub mod Validate
pub mod Compare
pub mod Secrets
pub mod Store
pub mod Json
pub mod Sections
pub mod Document
