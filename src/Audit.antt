-- ===== src/Audit.antt =====
-- The audit of a cluster and of a GitLab project: models.py, checks/, engine/evaluator.py.
pub mod Models
pub mod ImageTag
pub mod Checks
pub mod Evaluator
pub mod GitlabModels
pub mod Gitlab
pub mod GitlabSettings
pub mod GitlabTimeout
pub mod GitlabImages
pub mod GitlabEvaluator
