-- ===== src/Audit/GitlabSettings.antt =====
-- checks/gitlab.py: the checks of the settings of a project.
use cloudops_guard.Prelude.{
  ℕ, zero, suc, Option, none, some, List, [], ◌∷◌, ◌++◌, Bool, true, false, if◌then◌else◌,
}
use cloudops_guard.Audit.Models.{low, medium, high, Severity}
use cloudops_guard.Audit.GitlabModels.{
  project_kind, private, internal, public, developer, disabled, GitLabFinding,
  GitLabProjectSnapshot, Visibility, OverrideRole, AutoCancel,
}
use cloudops_guard.Prelude.Text.{text, Text}
use cloudops_guard.Ingestion.Models.{DateTime}

unfoldable pub build_project_setting_finding :
    Text → Text → Severity → GitLabProjectSnapshot → Text → Text → Text → DateTime → GitLabFinding
build_project_setting_finding check_id title severity snapshot evidence impact recommendation
      audited_at =
    record {
      check_id = check_id;
      title = title;
      severity = severity;
      project_path = snapshot.project.project_path;
      resource_kind = project_kind;
      resource_name = snapshot.project.project_path;
      job_name = none;
      evidence = evidence;
      impact = impact;
      recommendation = recommendation;
      auto_remediable = false;
      audited_at = audited_at;
    }

abbrev pub ProjectCheck : Type 0
ProjectCheck = GitLabProjectSnapshot → DateTime → Option GitLabFinding

unfoldable pub check_pipeline_success_not_required : ProjectCheck
check_pipeline_success_not_required snapshot audited_at =
    if snapshot.project.only_allow_merge_if_pipeline_succeeds
    then none
    else some (
        build_project_setting_finding (text "GL-MR-001")
          (text "Successful pipelines are not required before merge") medium snapshot
          (text "The 'Pipelines must succeed' setting "
            ++ text "(only_allow_merge_if_pipeline_succeeds) is disabled.")
          (text "Merge requests can be merged even when a pipeline fails, so any "
            ++ text "configured tests, builds, or security scans cannot reliably "
            ++ text "gate merges while this setting is disabled.")
          (text "Enable 'Pipelines must succeed' in the project's merge request "
            ++ text "settings.")
          audited_at)

abbrev visibility_text : Visibility → Text
visibility_text private = text "private"
visibility_text internal = text "internal"
visibility_text public = text "public"

-- who sees the pipelines, unless the project is public
unfoldable pub audience : Visibility → Option Text
audience private = some (text "all project members, including Guests")
audience internal = some (text "authenticated non-external users, including non-project members")
audience public = none

unfoldable pub check_public_jobs_on_non_public_project : ProjectCheck
check_public_jobs_on_non_public_project snapshot audited_at =
    elim (audience snapshot.project.visibility) [
      | none ↦ none
      | some exposed ↦
          if snapshot.project.public_jobs
          then some (
              build_project_setting_finding (text "GL-SEC-001")
                (text "CI/CD pipeline details have broad visibility") high snapshot
                (text "Project visibility: '"
                  ++ visibility_text snapshot.project.visibility
                  ++ text "'. Public pipelines (public_jobs) is enabled, exposing pipeline "
                  ++ text "details to "
                  ++ exposed
                  ++ text ".")
                (text "Pipeline logs, artifacts, and pipeline security scan "
                  ++ text "information may be visible to a broader audience than intended "
                  ++ text "for the project's visibility level. Enabling broad access does "
                  ++ text "not prove anyone has actually viewed that information -- it "
                  ++ text "describes what is possible, not what occurred. Broad pipeline "
                  ++ text "visibility may be an intentional choice for the project, so "
                  ++ text "this is a possible false positive rather than a certain defect. "
                  ++ text "CloudOps Guard never fetches pipelines, logs, artifacts, or "
                  ++ text "security scan results itself.")
                (text "Disable project-based pipeline visibility unless the broader "
                  ++ text "audience is deliberate and approved.")
                audited_at)
          else none
    ]

unfoldable pub check_job_token_repository_push_allowed : ProjectCheck
check_job_token_repository_push_allowed snapshot audited_at =
    if snapshot.project.ci_push_repository_for_job_token_allowed
    then some (
        build_project_setting_finding (text "GL-SEC-002")
          (text "CI job tokens are permitted to push to the repository") high snapshot
          (text "CI job token repository push "
            ++ text "(ci_push_repository_for_job_token_allowed) is enabled.")
          (text "The CI job token is an ambient credential available to every "
            ++ text "pipeline job; if it can push to the repository, a compromised "
            ++ text "or malicious job gains a repository-write escalation path.")
          (text "Disable this permission unless a specifically reviewed "
            ++ text "automation requires job-token repository push access.")
          audited_at)
    else none

abbrev is_developer : OverrideRole → Bool
is_developer developer = true
is_developer _ = false

unfoldable pub check_developer_pipeline_variable_override : ProjectCheck
check_developer_pipeline_variable_override snapshot audited_at =
    if is_developer snapshot.project.ci_pipeline_variables_minimum_override_role
    then some (
        build_project_setting_finding (text "GL-SEC-003")
          (text "Pipeline-variable override permissions are more permissive than "
            ++ text "Maintainer")
          high snapshot
          (text "The pipeline-variable minimum override role "
            ++ text "(ci_pipeline_variables_minimum_override_role) is 'developer'.")
          (text "A role less privileged than Maintainer can override pipeline "
            ++ text "variables at trigger time, which may allow injecting values "
            ++ text "into unsafely interpolated scripts or overriding "
            ++ text "security-relevant variables -- an authorization bypass risk.")
          (text "Change the minimum pipeline-variable override role to "
            ++ text "Maintainer or a more restrictive value.")
          audited_at)
    else none

abbrev is_disabled : AutoCancel → Bool
is_disabled disabled = true
is_disabled _ = false

unfoldable pub check_redundant_pipelines_not_cancelled : ProjectCheck
check_redundant_pipelines_not_cancelled snapshot audited_at =
    if is_disabled snapshot.project.auto_cancel_pending_pipelines
    then some (
        build_project_setting_finding (text "GL-COST-001")
          (text "Redundant pipelines are not automatically cancelled") low snapshot
          (text "Automatic cancellation of redundant pending pipelines "
            ++ text "(auto_cancel_pending_pipelines) is 'disabled'.")
          (text "With automatic cancellation disabled, superseded pending "
            ++ text "pipelines may continue consuming runner capacity rather than "
            ++ text "being cancelled in favor of a newer run. Interruptible running "
            ++ text "pipelines may also continue consuming runner capacity and "
            ++ text "compute time instead of being stopped when superseded.")
          (text "Enable automatic cancellation of redundant, pending pipelines, "
            ++ text "unless the project intentionally requires every pipeline to run "
            ++ text "to completion for compliance or audit-history purposes.")
          audited_at)
    else none

-- the evidence for the two depths that mean the full history
unfoldable pub depth_evidence : Option ℕ → Option Text
depth_evidence none = some (
    text "Configured project default Git clone depth: unset (null), which "
    ++ text "GitLab treats as unlimited/full history.")
depth_evidence (some zero) =
    some (text "Configured project default Git clone depth: 0 (unlimited/full history).")
depth_evidence (some (suc n)) = none

unfoldable pub check_unlimited_git_clone_depth : ProjectCheck
check_unlimited_git_clone_depth snapshot audited_at =
    elim (depth_evidence snapshot.project.ci_default_git_depth) [
      | none ↦ none
      | some evidence ↦ some (
          build_project_setting_finding (text "GL-COST-002") (text "Git clone depth is unlimited")
            low snapshot (evidence)
            (text "When this project default applies, CI jobs that obtain "
              ++ text "repository sources may fetch full history, potentially "
              ++ text "increasing network transfer, checkout duration, runner usage, "
              ++ text "and compute cost -- particularly for large or long-lived "
              ++ text "repositories. This configuration does not prove that additional "
              ++ text "cost, transfer, or delay actually occurred. CloudOps Guard did "
              ++ text "not inspect pipelines, jobs, repository history, clone traffic, "
              ++ text "or runner usage. This finding evaluates only the project-level "
              ++ text "default Git clone depth. It does not inspect job-level or "
              ++ text "pipeline-level GIT_DEPTH variable overrides, which can set an "
              ++ text "effectively unlimited depth when the project default is "
              ++ text "bounded, or a bounded depth when the project default is "
              ++ text "unlimited.")
            (text "Set a bounded positive project default Git clone depth "
              ++ text "appropriate for the project's branching, tagging, and history "
              ++ text "requirements. Unlimited history may be intentional and "
              ++ text "legitimate for work such as versioning or changelog generation "
              ++ text "across complete tag/history information.")
            audited_at)
    ]

abbrev pub project_setting_checks : List ProjectCheck
project_setting_checks =
    check_pipeline_success_not_required ∷ check_public_jobs_on_non_public_project
    ∷ check_job_token_repository_push_allowed ∷ check_developer_pipeline_variable_override
    ∷ check_redundant_pipelines_not_cancelled ∷ check_unlimited_git_clone_depth ∷ []

-- the loop over the checks
unfoldable pub run_project_checks :
    List ProjectCheck → GitLabProjectSnapshot → DateTime → List GitLabFinding
run_project_checks [] snapshot audited_at = []
run_project_checks (check ∷ checks) snapshot audited_at =
    let rest = run_project_checks checks snapshot audited_at in
    elim (check snapshot audited_at) [ none ↦ rest | some finding ↦ finding ∷ rest ]

unfoldable pub evaluate_project_setting_checks :
    GitLabProjectSnapshot → DateTime → List GitLabFinding
evaluate_project_setting_checks snapshot audited_at =
    run_project_checks project_setting_checks snapshot audited_at
