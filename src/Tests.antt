-- ===== src/Tests.antt =====
-- The theorems at concrete inputs.
pub mod Metadata
pub mod Lifecycle
pub mod Service
pub mod Auth
pub mod Audit
pub mod Gitlab
pub mod Http
pub mod Uploader
pub mod Collectors
