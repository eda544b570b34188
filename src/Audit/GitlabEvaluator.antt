-- ===== src/Audit/GitlabEvaluator.antt =====
-- engine/evaluator.py: `evaluate_gitlab`, and the summary of its findings.
pub mod Report
use cloudops_guard.Prelude.Text.{◌≟◌, text_eq}
use cloudops_guard.Prelude.{
  ℕ, Option, none, some, List, [], ◌∷◌, ◌++◌, Bool, true, false, if◌then◌else◌, not, ite,
}
use cloudops_guard.Audit.GitlabModels.{
  GitLabFinding, GitLabProjectSnapshot, GitLabCiConfigSnapshot, GitLabAuditReport,
}
use cloudops_guard.Audit.Models.{AuditSummary}
use cloudops_guard.Ingestion.Models.{DateTime}
use cloudops_guard.Audit.Evaluator.{count_severity}
use cloudops_guard.Prelude.Result.{value_error, ok, err, Result}
use cloudops_guard.Audit.GitlabSettings.{evaluate_project_setting_checks}
use cloudops_guard.Audit.GitlabImages.{evaluate_ci_image_check}
use cloudops_guard.Audit.Gitlab.{evaluate_protected_branch_checks}
use cloudops_guard.Audit.GitlabTimeout.{evaluate_job_timeout_check}

unfoldable pub summarize_gitlab_from : AuditSummary → List GitLabFinding → AuditSummary
summarize_gitlab_from s [] = s
summarize_gitlab_from s (f ∷ fs) = summarize_gitlab_from (count_severity f.severity s) fs

unfoldable pub summarize_gitlab : List GitLabFinding → AuditSummary
summarize_gitlab fs =
    summarize_gitlab_from (record { critical = 0; high = 0; medium = 0; low = 0 }) fs

-- the optional finding of the timeout check, as `append` takes it
abbrev pub optional : Option GitLabFinding → List GitLabFinding
optional none = []
optional (some finding) = finding ∷ []

-- The fields of the report have the constraints of the snapshot's fields, which it was made with.
abbrev pub report_of : GitLabProjectSnapshot → DateTime → List GitLabFinding → GitLabAuditReport
report_of snapshot audited_at findings = record {
  gitlab_url = snapshot.gitlab_url;
  project_id = snapshot.project.project_id;
  project_path = snapshot.project.project_path;
  default_branch = snapshot.project.default_branch;
  generated_at = audited_at;
  findings = findings;
  summary = summarize_gitlab findings;
}

-- the checks, once the arguments are validated
unfoldable pub gitlab_findings :
    GitLabProjectSnapshot → GitLabCiConfigSnapshot → DateTime → ℕ → Result (List GitLabFinding)
gitlab_findings snapshot ci_config audited_at threshold =
    elim (evaluate_job_timeout_check snapshot audited_at threshold) [
      | err e ↦ err e
      | ok timeout ↦ elim (evaluate_ci_image_check ci_config audited_at) [
        | err e ↦ err e
        | ok images ↦ ok (
            evaluate_protected_branch_checks snapshot audited_at
            ++ (evaluate_project_setting_checks snapshot audited_at
                ++ (optional timeout ++ images)))
      ]
    ]

unfoldable pub evaluate_gitlab :
    GitLabProjectSnapshot → GitLabCiConfigSnapshot → DateTime → ℕ → Result GitLabAuditReport
evaluate_gitlab snapshot ci_config audited_at job_timeout_threshold_seconds =
    if not audited_at.aware
    then err value_error
    else ite (ci_config.project_path ≟ snapshot.project.project_path)
        (elim (gitlab_findings snapshot ci_config audited_at job_timeout_threshold_seconds) [
          | err e ↦ err e
          | ok findings ↦ ok (report_of snapshot audited_at findings)
        ])
        (err value_error)
