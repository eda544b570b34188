-- ===== src/Collectors/Collect.antt =====
-- collectors/gitlab.py: `GitLabCollector`, over what its client answers to each path. The client, the
-- canonical form of a project identifier, `urlencode` and the clock are arguments.
pub mod Audited
use cloudops_guard.Prelude.{
  ℕ, Bool, true, false, ◌&&◌, Option, none, some, List, [], ◌∷◌, ◌++◌, if◌then◌else◌, ite,
}
use cloudops_guard.Prelude.Text.{Text, text, ◌≟◌, text_eq, decimal}
use cloudops_guard.Prelude.Result.{Result, ok, err, ◌>>=◌, validation_error}
use cloudops_guard.Prelude.Json.{Json, Items, done, item}
use cloudops_guard.Ingestion.Models.{DateTime}
use cloudops_guard.Audit.GitlabModels.{
  GitLabProjectSettings, GitLabProtectedBranchRule, GitLabProjectSnapshot, GitLabCiConfigSnapshot,
}
use cloudops_guard.Collectors.Fields.{refuse}
use cloudops_guard.Collectors.Metadata.{normalize_metadata}
use cloudops_guard.Collectors.Settings.{has_length, normalize_project_settings}
use cloudops_guard.Collectors.Branches.{normalize_protected_branch}
use cloudops_guard.Collectors.Yaml.{Yaml}
use cloudops_guard.Collectors.CiLint.{normalize_ci_lint_response}

-- What the collector calls: `GitLabClient`, and the functions of other libraries.
pub record GitlabClient : Type 0 where
  pub instance_base_url : Text
  pub get_json_object : Text → Result Json
  pub get_json_list : Text → Result Items
  -- `urlsplit(...).hostname`
  pub hostname : Text → Option Text
  -- `urlencode` of a dictionary
  pub urlencode : List (Text × Text) → Text
  pub digit : ℕ → Option ℕ
  pub safe_load : Text → Result Yaml

abbrev is_host : Text → Option Text → Bool
is_host name none = false
is_host name (some host) = ite (host ≟ name) true false

-- `_is_gitlab_com`
unfoldable pub is_gitlab_com : GitlabClient → Bool
is_gitlab_com client = is_host (text "gitlab.com") (client.hostname client.instance_base_url)

-- the list of `_normalize_protected_branch(entry)`
unfoldable pub protected_branch_rules : Items → Result (List GitLabProtectedBranchRule)
protected_branch_rules done = ok []
protected_branch_rules (item x xs) = do
  rule ← normalize_protected_branch x
  rules ← protected_branch_rules xs
  ok (rule ∷ rules)

-- `GitLabProjectSnapshot(...)`
unfoldable pub project_snapshot : GitLabProjectSnapshot → Result GitLabProjectSnapshot
project_snapshot s =
    if has_length s.gitlab_url && has_length s.gitlab_version && s.collected_at.aware
    then ok s
    else err validation_error

abbrev snapshot_of :
    GitlabClient
    → DateTime
    → GitLabProjectSettings
    → List GitLabProtectedBranchRule
    → Text × Bool
    → GitLabProjectSnapshot
snapshot_of client when settings rules (version, enterprise) = record {
  gitlab_url = client.instance_base_url;
  gitlab_version = version;
  enterprise = enterprise;
  collected_at = when;
  project = settings;
  protected_branches = rules;
}

-- `collect_project_snapshot`, with what `canonicalize_gitlab_project(project)` returns
unfoldable pub collect_project_snapshot :
    GitlabClient → Result Text → DateTime → Result GitLabProjectSnapshot
collect_project_snapshot client canonical when = do
  answer ← client.get_json_object (text "/metadata")
  metadata ← normalize_metadata client.digit answer (is_gitlab_com client)
  canonical_id ← canonical
  payload ← client.get_json_object (text "/projects/" ++ canonical_id)
  settings ← normalize_project_settings payload
  entries ←
      client.get_json_list
        (text "/projects/" ++ decimal settings.project_id ++ text "/protected_branches")
  rules ← protected_branch_rules entries
  project_snapshot (snapshot_of client when settings rules metadata)

-- `urlencode({...})`
abbrev lint_query : GitlabClient → Text → Text
lint_query client default_branch = client.urlencode (
    (text "content_ref", default_branch)
    ∷ (text "dry_run", text "false")
    ∷ (text "include_jobs", text "false")
    ∷ [])

abbrev lint_path : GitlabClient → GitLabProjectSettings → Text
lint_path client s =
    text "/projects/"
    ++ decimal s.project_id
    ++ text "/ci/lint?"
    ++ lint_query client s.default_branch

-- `collect_ci_config_snapshot`; the id of a collected project is positive, so it is its own canonical form
unfoldable pub collect_ci_config_snapshot :
    GitlabClient → GitLabProjectSnapshot → DateTime → Result GitLabCiConfigSnapshot
collect_ci_config_snapshot client snapshot when =
    ite (snapshot.gitlab_url ≟ client.instance_base_url)
      (client.get_json_object (lint_path client snapshot.project) >>= λ payload.
        normalize_ci_lint_response client.safe_load payload snapshot.project.project_path when)
      refuse
