-- ===== src/Collectors/CiImages.antt =====
-- collectors/gitlab.py: the images that the jobs of a merged CI configuration run in.
pub mod Coverage
pub mod Sanitized
use cloudops_guard.Prelude.{
  Bool, false, ◌||◌, Option, none, some, List, [], ◌∷◌, ◌++◌, if◌then◌else◌, is_some,
}
use cloudops_guard.Prelude.Text.{Text, text, drop_prefix}
use cloudops_guard.Prelude.Result.{Result, ok, ◌>>=◌}
use cloudops_guard.Prelude.Json.{one_of}
use cloudops_guard.Audit.GitlabModels.{ci_job_kind, ci_service_kind, GitLabCiImageReference}
use cloudops_guard.Collectors.Fields.{refuse}
use cloudops_guard.Collectors.Yaml.{
  Yaml, Mapping, no_entries, entry, text_key, other_key, lookup_entry,
}
use cloudops_guard.Collectors.CiEntries.{
  resolve_project_default_image, resolve_project_default_services, resolve_job_image,
  resolve_job_services, is_ci_job_entry, is_ci_trigger_bridge_entry, is_ci_needs_only_entry,
  is_valid_needs_pipeline_bridge,
}
use cloudops_guard.Collectors.CiReferences.{append_references}

abbrev pub given : Option Text → List Text
given none = []
given (some t) = t ∷ []

-- the defaults of the project: its image, and its services
abbrev pub Defaults : Type 0
Defaults = Option Text × List Text

unfoldable pub job_references : Defaults → Text → Mapping → Result (List GitLabCiImageReference)
job_references (project_default_image, project_default_services) name job_config = do
  job_image ← resolve_job_image job_config project_default_image
  images ← append_references name ci_job_kind (given job_image)
  service_images ← resolve_job_services job_config project_default_services
  services ← append_references name ci_service_kind service_images
  ok (images ++ services)

abbrev pub bridge_needs : Yaml → Bool
bridge_needs (Yaml.mapping es) = elim (lookup_entry (text "needs") es) [
  | none ↦ false
  | some needs ↦ is_valid_needs_pipeline_bridge needs
]
bridge_needs _ = false

abbrev pub runnable : Defaults → Text → Yaml → Result (List GitLabCiImageReference)
runnable defaults name (Yaml.mapping job_config) =
    if is_ci_job_entry (Yaml.mapping job_config)
    then job_references defaults name job_config
    else refuse
runnable defaults name _ = refuse

-- `_CI_LINT_ROOT_RESERVED_KEYS`
abbrev pub ci_lint_root_reserved_keys : List Text
ci_lint_root_reserved_keys =
    text "default"
    ∷ text "include"
    ∷ text "image"
    ∷ text "services"
    ∷ text "before_script"
    ∷ text "after_script"
    ∷ text "variables"
    ∷ text "stages"
    ∷ text "cache"
    ∷ text "workflow"
    ∷ []

-- an entry that is never a job by its name
unfoldable pub is_skipped_name : Text → Bool
is_skipped_name name =
    one_of name ci_lint_root_reserved_keys || is_some (drop_prefix (text ".") name)

-- one pass of the loop
unfoldable pub entry_references : Defaults → Text → Yaml → Result (List GitLabCiImageReference)
entry_references defaults name job_config =
    if is_skipped_name name
    then ok []
    else if is_ci_trigger_bridge_entry job_config
    then ok []
    else if is_ci_needs_only_entry job_config
    then (if bridge_needs job_config then ok [] else refuse)
    else runnable defaults name job_config

unfoldable pub entries_references : Defaults → Mapping → Result (List GitLabCiImageReference)
entries_references defaults no_entries = ok []
entries_references defaults (entry (text_key name) v es) = do
  here ← entry_references defaults name v
  rest ← entries_references defaults es
  ok (here ++ rest)
entries_references defaults (entry other_key v es) = refuse

-- `default_block`
abbrev pub default_block : Option Yaml → Result Mapping
default_block none = ok no_entries
default_block (some Yaml.nothing) = ok no_entries
default_block (some (Yaml.mapping es)) = ok es
default_block (some v) = refuse

unfoldable pub project_defaults : Mapping → Result Defaults
project_defaults config = do
  block ← default_block (lookup_entry (text "default") config)
  image ← resolve_project_default_image config block
  services ← resolve_project_default_services config block
  ok (image, services)

-- `_normalize_ci_images`
unfoldable pub normalize_ci_images : Mapping → Result (List GitLabCiImageReference)
normalize_ci_images config =
    project_defaults config >>= λ defaults. entries_references defaults config
