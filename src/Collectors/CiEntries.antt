-- ===== src/Collectors/CiEntries.antt =====
-- collectors/gitlab.py: what one entry of a merged CI configuration says of images and services.
pub mod Sanitized
pub mod Effective
use cloudops_guard.Prelude.{
  Bool, true, false, ◌&&◌, ◌||◌, not, Option, none, some, List, [], ◌∷◌, if◌then◌else◌,
}
use cloudops_guard.Prelude.Text.{Text, text}
use cloudops_guard.Prelude.Result.{Result, ok, ◌>>=◌}
use cloudops_guard.Prelude.Json.{one_of}
use cloudops_guard.Collectors.Fields.{refuse}
use cloudops_guard.Collectors.Yaml.{
  element, Yaml, Sequence, Mapping, no_values, no_entries, entry, lookup_entry, has_entry,
  has_string,
}

abbrev pub nonempty_name : Option Yaml → Result Text
nonempty_name (some (Yaml.string (c ∷ t))) = ok (c ∷ t)
nonempty_name _ = refuse

-- `_extract_image_or_service_name`
unfoldable pub extract_image_or_service_name : Yaml → Result Text
extract_image_or_service_name (Yaml.string (c ∷ t)) = ok (c ∷ t)
extract_image_or_service_name (Yaml.mapping es) = nonempty_name (lookup_entry (text "name") es)
extract_image_or_service_name _ = refuse

-- `_extract_optional_image`
unfoldable pub extract_optional_image : Yaml → Result (Option Text)
extract_optional_image Yaml.nothing = ok none
extract_optional_image v = extract_image_or_service_name v >>= λ image. ok (some image)

unfoldable pub extract_names : Sequence → Result (List Text)
extract_names no_values = ok []
extract_names (element v vs) =
    extract_image_or_service_name v >>= λ name. extract_names vs >>= λ names. ok (name ∷ names)

-- `_extract_services_list`
unfoldable pub extract_services_list : Yaml → Result (List Text)
extract_services_list (Yaml.sequence vs) = extract_names vs
extract_services_list _ = refuse

-- `_ALLOWED_DEFAULT_INHERIT_KEYWORDS`
abbrev pub allowed_default_inherit_keywords : List Text
allowed_default_inherit_keywords =
    text "after_script"
    ∷ text "artifacts"
    ∷ text "before_script"
    ∷ text "cache"
    ∷ text "hooks"
    ∷ text "id_tokens"
    ∷ text "image"
    ∷ text "interruptible"
    ∷ text "retry"
    ∷ text "services"
    ∷ text "tags"
    ∷ text "timeout"
    ∷ []

-- `_validate_inherit_default_list`
unfoldable pub validate_inherit_default_list : Sequence → Result (Unit {0})
validate_inherit_default_list no_values = ok tt
validate_inherit_default_list (element (Yaml.string t) vs) =
    let rest = validate_inherit_default_list vs in
    if one_of t allowed_default_inherit_keywords then rest else refuse
validate_inherit_default_list (element v vs) = refuse

abbrev pub selects : Text → Option Yaml → Result Bool
selects key none = ok true
selects key (some (Yaml.boolean b)) = ok b
selects key (some (Yaml.sequence vs)) =
    validate_inherit_default_list vs >>= λ u. ok (has_string key vs)
selects key (some v) = refuse

abbrev pub inherits : Text → Option Yaml → Result Bool
inherits key none = ok true
inherits key (some (Yaml.mapping es)) = selects key (lookup_entry (text "default") es)
inherits key (some v) = refuse

-- `_job_inherits_default_key`
unfoldable pub job_inherits_default_key : Mapping → Text → Result Bool
job_inherits_default_key job_config key = inherits key (lookup_entry (text "inherit") job_config)

abbrev pub first_image : Option Yaml → Option Yaml → Result (Option Text)
first_image (some v) legacy = extract_optional_image v
first_image none (some v) = extract_optional_image v
first_image none none = ok none

-- `_resolve_project_default_image`
unfoldable pub resolve_project_default_image : Mapping → Mapping → Result (Option Text)
resolve_project_default_image config default_block =
    first_image (lookup_entry (text "image") default_block) (lookup_entry (text "image") config)

abbrev pub first_services : Option Yaml → Option Yaml → Result (List Text)
first_services (some v) legacy = extract_services_list v
first_services none (some v) = extract_services_list v
first_services none none = ok []

-- `_resolve_project_default_services`
unfoldable pub resolve_project_default_services : Mapping → Mapping → Result (List Text)
resolve_project_default_services config default_block =
    first_services (lookup_entry (text "services") default_block)
      (lookup_entry (text "services") config)

-- `_resolve_job_image`
unfoldable pub resolve_job_image : Mapping → Option Text → Result (Option Text)
resolve_job_image job_config project_default_image = elim (lookup_entry (text "image") job_config) [
  | some v ↦ extract_optional_image v
  | none ↦ job_inherits_default_key job_config (text "image") >>= λ inherited.
      ok (if inherited then project_default_image else none)
]

-- `_resolve_job_services`
unfoldable pub resolve_job_services : Mapping → List Text → Result (List Text)
resolve_job_services job_config project_default_services =
    elim (lookup_entry (text "services") job_config) [
      | some v ↦ extract_services_list v
      | none ↦ job_inherits_default_key job_config (text "services") >>= λ inherited.
          ok (if inherited then project_default_services else [])
    ]

-- `_is_ci_job_entry`
unfoldable pub is_ci_job_entry : Yaml → Bool
is_ci_job_entry (Yaml.mapping es) = has_entry (text "script") es || has_entry (text "run") es
is_ci_job_entry _ = false

-- `_is_ci_trigger_bridge_entry`
unfoldable pub is_ci_trigger_bridge_entry : Yaml → Bool
is_ci_trigger_bridge_entry (Yaml.mapping es) =
    has_entry (text "trigger") es
    && not (has_entry (text "script") es)
    && not (has_entry (text "run") es)
is_ci_trigger_bridge_entry _ = false

-- `_is_ci_needs_only_entry`
unfoldable pub is_ci_needs_only_entry : Yaml → Bool
is_ci_needs_only_entry (Yaml.mapping es) =
    has_entry (text "needs") es
    && not (has_entry (text "trigger") es)
    && not (has_entry (text "script") es)
    && not (has_entry (text "run") es)
is_ci_needs_only_entry _ = false

abbrev pub is_nonempty_string : Option Yaml → Bool
is_nonempty_string (some (Yaml.string (c ∷ t))) = true
is_nonempty_string _ = false

-- `_is_valid_needs_pipeline_bridge_entry`; the one key of the mapping is `pipeline`
unfoldable pub is_valid_needs_pipeline_bridge_entry : Yaml → Bool
is_valid_needs_pipeline_bridge_entry (Yaml.mapping (entry k v no_entries)) =
    is_nonempty_string (lookup_entry (text "pipeline") (entry k v no_entries))
is_valid_needs_pipeline_bridge_entry _ = false

-- `_is_valid_needs_pipeline_bridge`
unfoldable pub is_valid_needs_pipeline_bridge : Yaml → Bool
is_valid_needs_pipeline_bridge (Yaml.mapping es) =
    is_valid_needs_pipeline_bridge_entry (Yaml.mapping es)
is_valid_needs_pipeline_bridge (Yaml.sequence (element v no_values)) =
    is_valid_needs_pipeline_bridge_entry v
is_valid_needs_pipeline_bridge _ = false
