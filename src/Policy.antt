-- ===== src/Policy.antt =====
-- core/policy: the release gate.
pub mod Model
pub mod Document
pub mod Engine
pub mod Serde
pub mod Loader
pub mod Waive
