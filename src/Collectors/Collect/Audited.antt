-- ===== src/Collectors/Collect/Audited.antt =====
-- collectors/gitlab.py: what was collected, in an audit.
use cloudops_guard.Prelude.{arith, ℕ, ◌≤◌, true, ◌≡◌, inl, inr}
use cloudops_guard.Prelude.Text.{◌≟◌, text_eq}
use cloudops_guard.Prelude.Result.{ok, Result-cases}
use cloudops_guard.Prelude.Json.{Json}
use cloudops_guard.Ingestion.Models.{DateTime}
use cloudops_guard.Audit.GitlabModels.{
  GitLabProjectSnapshot, GitLabCiConfigSnapshot, GitLabAuditReport,
}
use cloudops_guard.Audit.GitlabEvaluator.{evaluate_gitlab}
use cloudops_guard.Collectors.CiLint.{normalize_ci_lint_response}
use cloudops_guard.Collectors.CiLint.Audited.{collected-evaluate_gitlab}
use cloudops_guard.Collectors.Collect.{GitlabClient, collect_ci_config_snapshot, lint_path}

answered :
    (client : GitlabClient) (snapshot : GitLabProjectSnapshot) (when : DateTime)
    (ci : GitLabCiConfigSnapshot)
    → collect_ci_config_snapshot client snapshot when ≡ ok ci
    → (payload : Json) × (normalize_ci_lint_response client.safe_load payload
          snapshot.project.project_path when
        ≡ ok ci)
unfolding collect_ci_config_snapshot
answered client snapshot when ci h = elim (snapshot.gitlab_url ≟ client.instance_base_url) [
  | no other ↦ ground (arith, other, h)
  | yes same ↦ elim (Result-cases (client.get_json_object (lint_path client snapshot.project))) [
    | inr (x, bad) ↦ ground (arith, same, bad, h)
    | inl (payload, got) ↦ (payload, ground (arith, same, got, h))
  ]
]

-- Once the CI configuration of a project snapshot was collected, an audit of the two at a
-- timezone-aware time with a positive threshold returns a report: the snapshots are of one project
-- and no reference makes a check raise.
pub collect-evaluate_gitlab :
    (client : GitlabClient) (snapshot : GitLabProjectSnapshot) (when : DateTime)
    (ci : GitLabCiConfigSnapshot) (at : DateTime) (threshold : ℕ)
    → collect_ci_config_snapshot client snapshot when ≡ ok ci
    → at.aware ≡ true
    → 1 ≤ threshold
    → (report : GitLabAuditReport) × (evaluate_gitlab snapshot ci at threshold ≡ ok report)
collect-evaluate_gitlab client snapshot when ci at threshold h aware positive =
    let (payload, normal) = answered client snapshot when ci h in
    collected-evaluate_gitlab client.safe_load payload when snapshot ci at threshold normal aware
      positive
