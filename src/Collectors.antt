-- ===== src/Collectors.antt =====
-- collectors/: what is taken from the answers of a GitLab instance, before anything is audited.
pub mod Fields
pub mod Metadata
pub mod Settings
pub mod Branches
pub mod Yaml
pub mod CiEntries
pub mod CiReferences
pub mod CiImages
pub mod CiLint
pub mod Collect
