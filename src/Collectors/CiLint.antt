-- ===== src/Collectors/CiLint.antt =====
-- collectors/gitlab.py: the answer of CI Lint.
pub mod Audited
use cloudops_guard.Prelude.{ℕ, leb, Bool, true, false, ◌&&◌, if◌then◌else◌, length}
use cloudops_guard.Prelude.Text.{Text, text}
use cloudops_guard.Prelude.Result.{Result, ok, err, validation_error, yaml_error, ◌>>=◌}
use cloudops_guard.Prelude.Json.{Json, lookup_member}
use cloudops_guard.Ingestion.Models.{DateTime}
use cloudops_guard.Audit.GitlabModels.{GitLabCiConfigSnapshot}
use cloudops_guard.Collectors.Fields.{refuse, as_bool, as_nonempty_str}
use cloudops_guard.Collectors.Settings.{has_length}
use cloudops_guard.Collectors.Yaml.{Yaml, Mapping}
use cloudops_guard.Collectors.CiImages.{normalize_ci_images}

abbrev pub check : Bool → Result (Unit {0})
check true = ok tt
check false = refuse

abbrev pub max_merged_yaml_characters : ℕ
max_merged_yaml_characters = 1_000_000

-- `except yaml.YAMLError`, then the check that the root is a mapping
abbrev pub yaml_root : Result Yaml → Result Mapping
yaml_root (err yaml_error) = refuse
yaml_root (err e) = err e
yaml_root (ok (Yaml.mapping config)) = ok config
yaml_root (ok v) = refuse

-- `except pydantic.ValidationError`
abbrev pub without_details {ℓ} : {A : Type ℓ} → Result A → Result A
without_details (err validation_error) = refuse
without_details r = r

-- `GitLabCiConfigSnapshot(...)`
unfoldable pub ci_config_snapshot : GitLabCiConfigSnapshot → Result GitLabCiConfigSnapshot
ci_config_snapshot s =
    if has_length s.project_path && s.collected_at.aware then ok s else err validation_error

-- `_normalize_ci_lint_response`; `safe_load` is PyYAML's
unfoldable pub normalize_ci_lint_response :
    (Text → Result Yaml) → Json → Text → DateTime → Result GitLabCiConfigSnapshot
normalize_ci_lint_response safe_load (Json.object payload) project_path collected_at = do
  valid ← as_bool (lookup_member (text "valid") payload)
  accepted ← check valid
  merged_yaml ← as_nonempty_str (lookup_member (text "merged_yaml") payload)
  bounded ← check (leb (length merged_yaml) max_merged_yaml_characters)
  config ← yaml_root (safe_load merged_yaml)
  without_details (
      normalize_ci_images config >>= λ images.
      ci_config_snapshot
        (record { project_path = project_path; collected_at = collected_at; images = images }))
normalize_ci_lint_response safe_load _ project_path collected_at = refuse
