-- ===== src/Audit/GitlabModels.antt =====
-- models.py: what is collected from a GitLab project, and what an audit of it reports.
use cloudops_guard.Prelude.{ℕ, Option, List, Bool}
use cloudops_guard.Audit.Models.{Severity, AuditSummary}
use cloudops_guard.Prelude.Text.{Text}
use cloudops_guard.Ingestion.Models.{DateTime}

pub data GitLabResourceKind : Type 0 where
  project_kind protected_branch_kind ci_job_kind ci_service_kind : GitLabResourceKind

pub record GitLabFinding : Type 0 where
  pub check_id : Text
  pub title : Text
  pub severity : Severity
  pub project_path : Text
  pub resource_kind : GitLabResourceKind
  pub resource_name : Text
  pub job_name : Option Text
  pub evidence : Text
  pub impact : Text
  pub recommendation : Text
  pub auto_remediable : Bool
  pub audited_at : DateTime

-- The platform is always `gitlab`.
pub record GitLabAuditReport : Type 0 where
  pub gitlab_url : Text
  pub project_id : ℕ
  pub project_path : Text
  pub default_branch : Text
  pub generated_at : DateTime
  pub findings : List GitLabFinding
  pub summary : AuditSummary

pub data Visibility : Type 0 where
  private internal public : Visibility

pub data OverrideRole : Type 0 where
  no_one_allowed owner maintainer developer : OverrideRole

pub data AutoCancel : Type 0 where
  enabled disabled : AutoCancel

pub record GitLabProjectSettings : Type 0 where
  pub project_id : ℕ
  pub project_path : Text
  pub default_branch : Text
  pub visibility : Visibility
  pub only_allow_merge_if_pipeline_succeeds : Bool
  pub public_jobs : Bool
  pub ci_push_repository_for_job_token_allowed : Bool
  pub ci_pipeline_variables_minimum_override_role : OverrideRole
  pub auto_cancel_pending_pipelines : AutoCancel
  pub ci_default_git_depth : Option ℕ
  pub build_timeout : ℕ

-- A rule as it was normalized; an access level is one of 0, 30, 40 and 60.
pub record GitLabProtectedBranchRule : Type 0 where
  pub name : Text
  pub allow_force_push : Bool
  pub inherited : Option Bool
  pub role_push_access_levels : List ℕ

pub record GitLabProjectSnapshot : Type 0 where
  pub gitlab_url : Text
  pub gitlab_version : Text
  pub enterprise : Bool
  pub collected_at : DateTime
  pub project : GitLabProjectSettings
  pub protected_branches : List GitLabProtectedBranchRule

pub record GitLabCiImageReference : Type 0 where
  pub job_name : Text
  pub resource_kind : GitLabResourceKind
  pub image : Option Text
  pub dynamic : Bool

pub record GitLabCiConfigSnapshot : Type 0 where
  pub project_path : Text
  pub collected_at : DateTime
  pub images : List GitLabCiImageReference
