-- ===== src/Ingestion.antt =====
-- The storage layer of the ingestion API: src/cloudops_guard/ingestion/.
pub mod Models
pub mod Metadata
pub mod StorageKeys
pub mod Blobs
pub mod Limits
pub mod Tokens
pub mod Auth
