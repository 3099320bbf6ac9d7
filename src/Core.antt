-- ===== src/Core.antt =====
-- The `core` package.
pub mod Tokens
pub mod Features
pub mod Identity
pub mod Catalog
pub mod Matrix
pub mod Cell
pub mod Validation
pub mod Suite
pub mod Plan
pub mod Orchestration
