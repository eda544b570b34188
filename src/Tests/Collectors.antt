-- ===== src/Tests/Collectors.antt =====
-- The theorems on collectors/ at concrete inputs.
use cloudops_guard.Prelude.{
  inl, ◌++◌, arith, arith, true, false, none, some, List, [], ◌∷◌, ◌≡◌, refl, ℕ_discrete,
}
use cloudops_guard.Prelude.Text.{Text, text, Text-discrete, drop_prefix}
use cloudops_guard.Prelude.Result.{Result, ok}
use cloudops_guard.Prelude.Json.{
  Json, Members, Items, member, no_members, item, done, lookup_member,
}
use cloudops_guard.Audit.GitlabModels.{
  GitLabAuditReport, GitLabCiConfigSnapshot, GitLabCiImageReference, ci_job_kind, ci_service_kind,
  GitLabProtectedBranchRule,
}
use cloudops_guard.Collectors.Fields.Sanitized.{Sanitized}
use cloudops_guard.Collectors.Branches.{
  is_scoped, role_level, add_level, entry_level, role_levels, normalize_protected_branch,
}
use cloudops_guard.Collectors.Branches.Levels.{
  has_level, ascending, grants, normalize_protected_branch-grants,
}
use cloudops_guard.Collectors.Yaml.{
  Yaml, Mapping, no_entries, entry, text_key, no_values, element, lookup_entry,
}
use cloudops_guard.Collectors.CiEntries.{
  extract_image_or_service_name, extract_optional_image, extract_names, extract_services_list,
  job_inherits_default_key, resolve_project_default_image, resolve_project_default_services,
  resolve_job_image, resolve_job_services, is_ci_job_entry, is_ci_trigger_bridge_entry,
  is_ci_needs_only_entry,
}
use cloudops_guard.Collectors.CiReferences.{
  is_dynamic_reference, closes_name, reference_valid, ci_image_reference, build_ci_image_reference,
  append_references,
}
use cloudops_guard.Collectors.CiImages.{
  given, job_references, is_skipped_name, entry_references, entries_references, project_defaults,
  normalize_ci_images,
}
use cloudops_guard.Collectors.CiEntries.Effective.{effective_image, effective_services}
use cloudops_guard.Prelude.Within.{Within}
use cloudops_guard.Collectors.CiImages.Coverage.{
  HasEntry, here, there, IsJobName, HasKey, all_references, normalize_ci_images-covers,
}
use cloudops_guard.Collectors.CiLint.{ci_config_snapshot, normalize_ci_lint_response}
use cloudops_guard.Audit.GitlabEvaluator.{evaluate_gitlab}
use cloudops_guard.Tests.Gitlab.{now, snapshot}
use cloudops_guard.Collectors.Collect.{GitlabClient, collect_ci_config_snapshot}
use cloudops_guard.Collectors.Collect.Audited.{collect-evaluate_gitlab}

abbrev project_payload : Json
unfolding text
project_payload = Json.object (
    member (text "id") (Json.whole 7) (
      member (text "path_with_namespace") (Json.string (text "acme/shop")) (
        member (text "default_branch") (Json.string (text "main")) (
          member (text "visibility") (Json.string (text "private")) (
            member (text "only_allow_merge_if_pipeline_succeeds") (Json.boolean true) (
              member (text "public_jobs") (Json.boolean false) (
                member (text "ci_push_repository_for_job_token_allowed") (Json.boolean false) (
                  member (text "ci_pipeline_variables_minimum_override_role")
                    (Json.string (text "owner"))
                    (member (text "auto_cancel_pending_pipelines") (Json.string (text "enabled")) (
                      member (text "ci_default_git_depth") (Json.null)
                        (member (text "build_timeout") (Json.whole 3600) no_members)))))))))))

-- an entry for all maintainers, one for a user, and one for all developers
abbrev access_levels : Items
unfolding text
access_levels = item (Json.object (member (text "access_level") (Json.whole 40) no_members)) (
    item
      (Json.object (
        member (text "access_level") (Json.whole 60)
          (member (text "user_id") (Json.whole 5) no_members)))
      (item (Json.object (member (text "access_level") (Json.whole 30) no_members)) done))

abbrev branch_payload : Members
unfolding text
branch_payload = member (text "name") (Json.string (text "main")) (
    member (text "allow_force_push") (Json.boolean false)
      (member (text "push_access_levels") (Json.array access_levels) no_members))

abbrev main_rule : GitLabProtectedBranchRule
unfolding text
main_rule = record {
  name = text "main";
  allow_force_push = false;
  inherited = none;
  role_push_access_levels = 30 ∷ 40 ∷ [];
}

branch_listed :
    lookup_member (text "push_access_levels") branch_payload ≡ some (Json.array access_levels)
unfolding lookup_member text Text-discrete ℕ_discrete
branch_listed = refl

branch_normalized : normalize_protected_branch (Json.object branch_payload) ≡ ok main_rule
unfolding normalize_protected_branch lookup_member text Text-discrete ℕ_discrete role_levels
    entry_level role_level is_scoped add_level
branch_normalized = refl

normalize_protected_branch-grants_example :
    (has_level 60 (30 ∷ 40 ∷ []) ≡ grants 60 access_levels) × (ascending (30 ∷ 40 ∷ []) ≡ true)
unfolding main_rule
normalize_protected_branch-grants_example =
    normalize_protected_branch-grants branch_payload access_levels main_rule 60 branch_listed
      branch_normalized

-- a job with an image of its own and a service that a variable names
abbrev test_job : Mapping
unfolding text
test_job = entry (text_key (text "script")) Yaml.scalar (
    entry (text_key (text "services"))
      (Yaml.sequence (element (Yaml.string (text "redis:$TAG")) no_values)) no_entries)

abbrev ci_config : Mapping
unfolding text
ci_config =
    entry (text_key (text "image")) (Yaml.string (text "ruby:3.2"))
      (entry (text_key (text "test")) (Yaml.mapping test_job) no_entries)

abbrev ci_images : List GitLabCiImageReference
unfolding text
ci_images =
    record {
      job_name = text "test";
      resource_kind = ci_job_kind;
      image = some (text "ruby:3.2");
      dynamic = false;
    }
    ∷ record {
      job_name = text "test";
      resource_kind = ci_service_kind;
      image = none;
      dynamic = true;
    }
    ∷ []

images_normalized : normalize_ci_images ci_config ≡ ok ci_images
unfolding normalize_ci_images project_defaults resolve_project_default_image
    resolve_project_default_services lookup_entry text Text-discrete ℕ_discrete entries_references
    entry_references is_skipped_name drop_prefix is_ci_trigger_bridge_entry is_ci_needs_only_entry
    is_ci_job_entry job_references resolve_job_image resolve_job_services job_inherits_default_key
    extract_optional_image extract_image_or_service_name extract_services_list extract_names
    append_references build_ci_image_reference ci_image_reference reference_valid
    is_dynamic_reference closes_name
images_normalized = refl

test_entry : HasEntry (text "test") (Yaml.mapping test_job) ci_config
unfolding text
test_entry = there (here refl refl)

test_named : IsJobName (text "test")
unfolding text
test_named = (
  (
    ground arith,
    (
      ground arith,
      (
        ground arith,
        (
          ground arith,
          (
            ground arith,
            (ground arith, (ground arith, (ground arith, (ground arith, (ground arith, tt))))),
          ),
        ),
      ),
    ),
  ),
  λ rest. ground arith,
)

test_runs : HasKey (text "script") test_job
unfolding lookup_entry text Text-discrete ℕ_discrete
test_runs = (Yaml.scalar, refl)

normalize_ci_images-covers_example :
    Within
      (all_references (text "test") ci_job_kind (given (effective_image ci_config test_job))
        ++ all_references (text "test") ci_service_kind (effective_services ci_config test_job))
      ci_images
normalize_ci_images-covers_example =
    normalize_ci_images-covers ci_config ci_images (text "test") test_job images_normalized
      test_entry test_named (inl test_runs)

abbrev lint_payload : Members
unfolding text
lint_payload =
    member (text "valid") (Json.boolean true)
      (member (text "merged_yaml") (Json.string (text "image: ruby:3.2")) no_members)

-- `yaml.safe_load`, where the document is that configuration
abbrev load_config : Text → Result Yaml
load_config t = ok (Yaml.mapping ci_config)

abbrev collected : GitLabCiConfigSnapshot
collected = record {
  project_path = snapshot.project.project_path;
  collected_at = now;
  images = ci_images;
}

lint_normalized :
    normalize_ci_lint_response load_config
      (Json.object lint_payload)
      snapshot.project.project_path
      now
    ≡ ok collected
unfolding normalize_ci_lint_response lookup_member text Text-discrete ℕ_discrete ci_config_snapshot
    normalize_ci_images project_defaults resolve_project_default_image
    resolve_project_default_services lookup_entry entries_references entry_references
    is_skipped_name drop_prefix is_ci_trigger_bridge_entry is_ci_needs_only_entry is_ci_job_entry
    job_references resolve_job_image resolve_job_services job_inherits_default_key
    extract_optional_image extract_image_or_service_name extract_services_list extract_names
    append_references build_ci_image_reference ci_image_reference reference_valid
    is_dynamic_reference closes_name
lint_normalized = refl

abbrev client : GitlabClient
client = record {
  instance_base_url = snapshot.gitlab_url;
  get_json_object = λ path. ok (Json.object lint_payload);
  get_json_list = λ path. ok done;
  hostname = λ url. none;
  urlencode = λ parameters. [];
  digit = λ c. none;
  safe_load = load_config;
}

ci_collected : collect_ci_config_snapshot client snapshot now ≡ ok collected
unfolding collect_ci_config_snapshot ℕ_discrete Text-discrete
ci_collected = lint_normalized

collect-evaluate_gitlab_example :
    (report : GitLabAuditReport) × (evaluate_gitlab snapshot collected now 1800 ≡ ok report)
collect-evaluate_gitlab_example =
    collect-evaluate_gitlab client snapshot now collected now 1800 ci_collected refl (omega arith)
