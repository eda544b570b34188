-- ===== src/Collectors/CiImages/Sanitized.antt =====
-- collectors/gitlab.py: how `_normalize_ci_images` ends.
use cloudops_guard.Prelude.{
  true, Option, none, some, List, [], ◌∷◌, ◌++◌, ◌≡◌, refl, inl, inr, ◌⊎◌, All, Bool-cases, arith,
}
use cloudops_guard.Prelude.Text.{Text, text}
use cloudops_guard.Prelude.Result.{Result, Exn, ok, err, gitlab_client_error, validation_error}
use cloudops_guard.Prelude.Outcomes.{Ends, chain, widen, branches}
use cloudops_guard.Audit.GitlabModels.{
  GitLabResourceKind, ci_job_kind, ci_service_kind, GitLabCiImageReference,
}
use cloudops_guard.Collectors.Fields.Sanitized.{Sanitized, Anything, refused}
use cloudops_guard.Collectors.Settings.{has_length}
use cloudops_guard.Collectors.Yaml.{
  Yaml, Mapping, no_entries, entry, text_key, other_key, lookup_entry,
}
use cloudops_guard.Collectors.CiEntries.{is_ci_trigger_bridge_entry, is_ci_needs_only_entry}
use cloudops_guard.Collectors.CiEntries.Sanitized.{
  AreNamed, project_image-Sanitized, project_services-Sanitized, job_image-Sanitized,
  job_services-Sanitized,
}
use cloudops_guard.Collectors.CiReferences.{
  reference_of, reference_valid, is_ci_kind, build_ci_image_reference, ci_image_reference,
  append_references,
}
use cloudops_guard.Collectors.CiImages.{
  Defaults, given, job_references, is_skipped_name, entry_references, entries_references, runnable,
  project_defaults, normalize_ci_images, bridge_needs, default_block,
}

-- The exceptions of `_normalize_ci_images`; the second is caught by its caller.
abbrev pub IsCiError : Exn → Type 0
IsCiError x = (x ≡ gitlab_client_error) ⊎ (x ≡ validation_error)

abbrev pub IsValid : GitLabCiImageReference → Type 0
IsValid r = reference_valid r ≡ true

abbrev pub Referring : Result (List GitLabCiImageReference) → Type 0
Referring r = Ends (λ rs. All IsValid rs) IsCiError r

weak {ℓ κ} : {A : Type ℓ} {P : A → Type κ} (r : Result A) → Sanitized P r → Ends P IsCiError r
weak r s = widen r (λ x same. inl same) s

build-IsValid :
    (name : Text) (kind : GitLabResourceKind) (image : Text)
    → is_ci_kind kind ≡ true
    → has_length image ≡ true
    → Ends IsValid IsCiError (build_ci_image_reference name kind image)
unfolding build_ci_image_reference ci_image_reference
build-IsValid name kind image ci named =
    elim (Bool-cases (reference_valid (reference_of name kind image))) [
      | inl valid ↦ inl (reference_of name kind image, (ground (arith, valid), valid))
      | inr empty ↦ inr (validation_error, (ground (arith, empty), inr refl))
    ]

append-IsValid :
    (name : Text) (kind : GitLabResourceKind) (images : List Text)
    → is_ci_kind kind ≡ true
    → AreNamed images
    → Referring (append_references name kind images)
unfolding append_references
append-IsValid name kind [] ci named = inl ([], (refl, tt))
append-IsValid name kind (image ∷ images) ci (named, all) =
    chain _ _ (build-IsValid name kind image ci named) (λ r valid.
      chain _ _ (append-IsValid name kind images ci all)
        (λ rs valids. inl (r ∷ rs, (refl, (valid, valids)))))

both :
    (xs ys : List GitLabCiImageReference) → All IsValid xs → All IsValid ys → All IsValid (xs ++ ys)
both [] ys a b = b
both (x ∷ xs) ys (v, a) b = (v, both xs ys a b)

abbrev AreDefaults : Defaults → Type 0
AreDefaults (image, services) = AreNamed (given image) × AreNamed services

job-IsValid :
    (defaults : Defaults) (name : Text) (job : Mapping)
    → AreDefaults defaults
    → Referring (job_references defaults name job)
unfolding job_references
job-IsValid (image, services) name job (a, b) =
    chain _ _ (weak _ (job_image-Sanitized job image a)) (λ own owned.
      chain _ _ (append-IsValid name ci_job_kind (given own) refl owned) (λ firsts valid.
        chain _ _ (weak _ (job_services-Sanitized job services b)) (λ used uses.
          chain _ _ (append-IsValid name ci_service_kind used refl uses)
            (λ lasts valids. inl (firsts ++ lasts, (refl, both firsts lasts valid valids))))))

nothing-Referring : Referring (ok [])
nothing-Referring = inl ([], (refl, tt))

refuse-Referring : Referring (err gitlab_client_error)
refuse-Referring = inr (gitlab_client_error, (refl, inl refl))

runnable-IsValid :
    (defaults : Defaults) (name : Text) (v : Yaml)
    → AreDefaults defaults
    → Referring (runnable defaults name v)
runnable-IsValid defaults name (Yaml.mapping job) a =
    branches _ _ _ (job-IsValid defaults name job a) refuse-Referring
runnable-IsValid defaults name _ a = refuse-Referring

entry-IsValid :
    (defaults : Defaults) (name : Text) (v : Yaml)
    → AreDefaults defaults
    → Referring (entry_references defaults name v)
unfolding entry_references
entry-IsValid defaults name v a = branches (is_skipped_name name) _ _ nothing-Referring (
    branches (is_ci_trigger_bridge_entry v) _ _ nothing-Referring (
      branches (is_ci_needs_only_entry v) _ _
        (branches (bridge_needs v) _ _ nothing-Referring refuse-Referring)
        (runnable-IsValid defaults name v a)))

entries-IsValid :
    (defaults : Defaults) (config : Mapping)
    → AreDefaults defaults
    → Referring (entries_references defaults config)
unfolding entries_references
entries-IsValid defaults no_entries a = nothing-Referring
entries-IsValid defaults (entry (text_key name) v es) a =
    chain _ _ (entry-IsValid defaults name v a) (λ xs valid.
      chain _ _ (entries-IsValid defaults es a)
        (λ ys valids. inl (xs ++ ys, (refl, both xs ys valid valids))))
entries-IsValid defaults (entry other_key v es) a = refuse-Referring

block-Sanitized : (o : Option Yaml) → Sanitized Anything (default_block o)
block-Sanitized none = inl (no_entries, (refl, tt))
block-Sanitized (some Yaml.nothing) = inl (no_entries, (refl, tt))
block-Sanitized (some (Yaml.mapping es)) = inl (es, (refl, tt))
block-Sanitized (some _) = refused Anything

defaults-Sanitized : (config : Mapping) → Sanitized AreDefaults (project_defaults config)
unfolding project_defaults
defaults-Sanitized config =
    chain _ _ (block-Sanitized (lookup_entry (text "default") config)) (λ block u.
      chain _ _ (project_image-Sanitized config block) (λ image named.
        chain _ _ (project_services-Sanitized config block)
          (λ services all. inl ((image, services), (refl, (named, all))))))

pub normalize_ci_images-IsValid : (config : Mapping) → Referring (normalize_ci_images config)
unfolding normalize_ci_images
normalize_ci_images-IsValid config =
    chain _ _ (weak _ (defaults-Sanitized config)) (λ defaults a. entries-IsValid defaults config a)
