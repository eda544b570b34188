-- ===== src/Tests/Gitlab.antt =====
-- The theorems on checks/gitlab.py and `evaluate_gitlab` at concrete inputs.
use cloudops_guard.Prelude.{
  ◌++◌, Bool, arith, All, [], ◌∷◌, ◌≡◌, refl, true, false, none, some, ◌↔◌,
}
use cloudops_guard.Prelude.Result.{ok}
use cloudops_guard.Audit.GitlabModels.{
  GitLabAuditReport, GitLabProtectedBranchRule, GitLabCiConfigSnapshot, GitLabProjectSnapshot,
  ci_job_kind, private, developer, enabled,
}
use cloudops_guard.Ingestion.Models.{DateTime}
use cloudops_guard.Prelude.Text.{Text}
use cloudops_guard.Audit.Gitlab.{
  default_branch_not_protected, developer_direct_push, has_developer,
  evaluate_protected_branch_checks, force_push_allowed, protected_branch_name_matches,
}
use cloudops_guard.Audit.Gitlab.Permissive.{
  Decides, flagged, Applies, evaluate_protected_branch_checks_lem,
}
use cloudops_guard.Audit.Gitlab.Wildcard.{protected_branch_name_matches_lem, Matches}
use cloudops_guard.Audit.GitlabEvaluator.{evaluate_gitlab}
use cloudops_guard.Audit.GitlabEvaluator.Report.{
  evaluate_gitlab_lem, Counts, evaluate_gitlab_total, Stamped,
}

abbrev pub now : DateTime
now = record { micros = 7; aware = true }

-- the name `m*` and the branch `main`
abbrev star_name : Text
star_name = b'm' ∷ b'*' ∷ []

abbrev main : Text
main = b'm' ∷ b'a' ∷ b'i' ∷ b'n' ∷ []

protected_branch_name_matches_lem_example :
    (protected_branch_name_matches star_name main ≡ true) ↔ Matches star_name main
protected_branch_name_matches_lem_example = protected_branch_name_matches_lem star_name main

abbrev pub snapshot : GitLabProjectSnapshot
snapshot = record {
  gitlab_url = b'u' ∷ [];
  gitlab_version = b'1' ∷ [];
  enterprise = false;
  collected_at = now;
  project = record {
    project_id = 1;
    project_path = b'p' ∷ [];
    default_branch = main;
    visibility = private;
    only_allow_merge_if_pipeline_succeeds = false;
    public_jobs = true;
    ci_push_repository_for_job_token_allowed = false;
    ci_pipeline_variables_minimum_override_role = developer;
    auto_cancel_pending_pipelines = enabled;
    ci_default_git_depth = some 20;
    build_timeout = 3600;
  };
  protected_branches =
      record {
        name = star_name;
        allow_force_push = true;
        inherited = none;
        role_push_access_levels = 40 ∷ [];
      }
      ∷ [];
}

abbrev ci_config : GitLabCiConfigSnapshot
ci_config = record {
  project_path = b'p' ∷ [];
  collected_at = now;
  images =
      record {
        job_name = b'j' ∷ [];
        resource_kind = ci_job_kind;
        image = some (b'i' ∷ []);
        dynamic = false;
      }
      ∷ [];
}

abbrev MostPermissive : Type 0
MostPermissive =
    ((rule : GitLabProtectedBranchRule) (forced pushed : Bool)
      → Applies snapshot rule
      → Decides snapshot now (λ r. r.allow_force_push) forced
      → Decides snapshot now (λ r. has_developer r.role_push_access_levels) pushed
      → evaluate_protected_branch_checks snapshot now
        ≡ flagged forced (force_push_allowed snapshot now)
          ++ flagged pushed (developer_direct_push snapshot now))
    × (((rule : GitLabProtectedBranchRule) → ¬ Applies snapshot rule)
        → evaluate_protected_branch_checks snapshot now
          ≡ default_branch_not_protected snapshot now ∷ [])

evaluate_protected_branch_checks_lem_example : MostPermissive
evaluate_protected_branch_checks_lem_example = evaluate_protected_branch_checks_lem snapshot now

returned : (report : GitLabAuditReport) × (evaluate_gitlab snapshot ci_config now 1800 ≡ ok report)
returned = evaluate_gitlab_total snapshot ci_config now 1800 refl refl (omega arith) (refl, tt)

evaluate_gitlab_lem_example :
    let report = returned.0 in
    (report.project_path ≡ ci_config.project_path)
    × ((report.generated_at ≡ now)
        × (All (Stamped report.project_path now) report.findings
            × Counts report.summary report.findings))
evaluate_gitlab_lem_example = evaluate_gitlab_lem snapshot ci_config now 1800 returned.0 returned.1
