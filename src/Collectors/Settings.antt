-- ===== src/Collectors/Settings.antt =====
-- collectors/gitlab.py: `_normalize_project_settings`, and the constraints of the model it makes.
pub mod Sanitized
use cloudops_guard.Prelude.{
  ite, ℕ, ltb, leb, Bool, true, false, ◌&&◌, Option, none, some, List, [], ◌∷◌, if◌then◌else◌,
}
use cloudops_guard.Prelude.Text.{◌≟◌, text_eq, Text, text}
use cloudops_guard.Prelude.Result.{Result, ok, err, validation_error, ◌>>=◌}
use cloudops_guard.Prelude.Json.{Json}
use cloudops_guard.Audit.GitlabModels.{GitLabProjectSettings, Visibility, OverrideRole, AutoCancel}
use cloudops_guard.Collectors.Fields.{
  refuse, require_bool_field, require_nonempty_str_field, require_enum_field,
  require_positive_int_field, require_git_depth_field, git_depth_max,
}

abbrev pub allowed_visibility : List Text
allowed_visibility = text "private" ∷ text "internal" ∷ text "public" ∷ []

abbrev pub allowed_override_role : List Text
allowed_override_role =
    text "no_one_allowed" ∷ text "owner" ∷ text "maintainer" ∷ text "developer" ∷ []

abbrev pub allowed_auto_cancel : List Text
allowed_auto_cancel = text "enabled" ∷ text "disabled" ∷ []

-- The model, from here to its construction: the literals of three fields, by the values that stand for
-- them, and the constraints of the others. The strict types hold by the types here.
abbrev pub visibility_literals : List (Text × Visibility)
visibility_literals =
    (text "private", Visibility.private)
    ∷ (text "internal", Visibility.internal)
    ∷ (text "public", Visibility.public)
    ∷ []

abbrev pub override_role_literals : List (Text × OverrideRole)
override_role_literals =
    (text "no_one_allowed", OverrideRole.no_one_allowed)
    ∷ (text "owner", OverrideRole.owner)
    ∷ (text "maintainer", OverrideRole.maintainer)
    ∷ (text "developer", OverrideRole.developer)
    ∷ []

abbrev pub auto_cancel_literals : List (Text × AutoCancel)
auto_cancel_literals =
    (text "enabled", AutoCancel.enabled) ∷ (text "disabled", AutoCancel.disabled) ∷ []

abbrev pub literal {ℓ} : {A : Type ℓ} → List (Text × A) → Text → Result A
literal [] value = err validation_error
literal ((name, a) ∷ literals) value = ite (value ≟ name) (ok a) (literal literals value)

abbrev pub has_length : Text → Bool
has_length [] = false
has_length (c ∷ t) = true

-- `ge=0, le=1000`
abbrev pub depth_in_range : Option ℕ → Bool
depth_in_range none = true
depth_in_range (some n) = leb n 1000

unfoldable pub settings_valid : GitLabProjectSettings → Bool
settings_valid s =
    ltb 0 s.project_id
    && has_length s.project_path
    && has_length s.default_branch
    && depth_in_range s.ci_default_git_depth
    && ltb 0 s.build_timeout

abbrev pub validated_settings : GitLabProjectSettings → Result GitLabProjectSettings
validated_settings s = if settings_valid s then ok s else err validation_error

-- `GitLabProjectSettings(...)`, of the fields in the model's order
unfoldable pub project_settings :
    ℕ
    → Text
    → Text
    → Text
    → Bool
    → Bool
    → Bool
    → Text
    → Text
    → Option ℕ
    → ℕ
    → Result GitLabProjectSettings
project_settings id path branch visibility only_allow public_jobs push role cancel depth timeout =
    do
      visibility_value ← literal visibility_literals visibility
      role_value ← literal override_role_literals role
      cancel_value ← literal auto_cancel_literals cancel
      validated_settings (record {
        project_id = id;
        project_path = path;
        default_branch = branch;
        visibility = visibility_value;
        only_allow_merge_if_pipeline_succeeds = only_allow;
        public_jobs = public_jobs;
        ci_push_repository_for_job_token_allowed = push;
        ci_pipeline_variables_minimum_override_role = role_value;
        auto_cancel_pending_pipelines = cancel_value;
        ci_default_git_depth = depth;
        build_timeout = timeout;
      })

unfoldable pub normalize_project_settings : Json → Result GitLabProjectSettings
normalize_project_settings (Json.object payload) = do
  project_id ← require_positive_int_field payload (text "id")
  project_path ← require_nonempty_str_field payload (text "path_with_namespace")
  default_branch ← require_nonempty_str_field payload (text "default_branch")
  visibility ← require_enum_field payload (text "visibility") allowed_visibility
  only_allow_merge ← require_bool_field payload (text "only_allow_merge_if_pipeline_succeeds")
  public_jobs ← require_bool_field payload (text "public_jobs")
  push_allowed ← require_bool_field payload (text "ci_push_repository_for_job_token_allowed")
  override_role ←
      require_enum_field payload (text "ci_pipeline_variables_minimum_override_role")
        allowed_override_role
  auto_cancel ←
      require_enum_field payload (text "auto_cancel_pending_pipelines") allowed_auto_cancel
  git_depth ← require_git_depth_field payload (text "ci_default_git_depth")
  build_timeout ← require_positive_int_field payload (text "build_timeout")
  project_settings project_id project_path default_branch visibility only_allow_merge public_jobs
      push_allowed override_role auto_cancel git_depth build_timeout
normalize_project_settings _ = refuse
