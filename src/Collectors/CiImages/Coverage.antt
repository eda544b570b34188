-- ===== src/Collectors/CiImages/Coverage.antt =====
-- collectors/gitlab.py: what is kept of the jobs of a merged CI configuration.
use cloudops_guard.Prelude.{
  refl, if◌then◌else◌, is_some, All, ◌≢◌, ◌⊎◌, ◌∙◌, ap, inl, inr, arith, arith, true, false, Option,
  List, [], ◌∷◌, ◌++◌, ◌≡◌, sym, subst,
}
use cloudops_guard.Prelude.Text.{text, drop_prefix, Text}
use cloudops_guard.Prelude.Within.{Within, first, later}
use cloudops_guard.Prelude.Result.{ok, Result-cases}
use cloudops_guard.Audit.GitlabModels.{
  GitLabResourceKind, ci_job_kind, ci_service_kind, GitLabCiImageReference,
}
use cloudops_guard.Prelude.Json.{one_of}
use cloudops_guard.Collectors.CiEntries.Effective.{
  effective_image, effective_services, image_for, services_for, job_image-is, job_services-are,
  project_defaults-are,
}
use cloudops_guard.Collectors.Yaml.{
  lookup_entry, Yaml, YamlKey, Mapping, no_entries, entry, text_key, other_key,
}
use cloudops_guard.Collectors.CiEntries.{
  resolve_job_image, resolve_job_services, is_ci_job_entry, is_ci_trigger_bridge_entry,
  is_ci_needs_only_entry,
}
use cloudops_guard.Collectors.CiReferences.{
  is_dynamic_reference, build_ci_image_reference, ci_image_reference, append_references,
}
use cloudops_guard.Collectors.CiImages.{
  none, some, Defaults, given, job_references, is_skipped_name, entry_references,
  entries_references, project_defaults, normalize_ci_images,
}

-- An entry of the configuration.
pub data HasEntry (name : Text) (v : Yaml) : Mapping → Type 0 where
  here :
      {k : YamlKey} {w : Yaml} {es : Mapping}
      → text_key name ≡ k
      → v ≡ w
      → HasEntry name v (entry k w es)
  there :
      {k : YamlKey} {w : Yaml} {es : Mapping} → HasEntry name v es → HasEntry name v (entry k w es)

-- What is to be kept of these images, of this kind: a dynamic one without its text.
abbrev pub kept : Text → GitLabResourceKind → Text → GitLabCiImageReference
kept name kind image = record {
  job_name = name;
  resource_kind = kind;
  image = if is_dynamic_reference image then none else some image;
  dynamic = is_dynamic_reference image;
}

unfoldable pub all_references : Text → GitLabResourceKind → List Text → List GitLabCiImageReference
all_references name kind [] = []
all_references name kind (image ∷ images) = kept name kind image ∷ all_references name kind images

built :
    (name : Text) (kind : GitLabResourceKind) (image : Text) (r : GitLabCiImageReference)
    → build_ci_image_reference name kind image ≡ ok r
    → r ≡ kept name kind image
unfolding build_ci_image_reference ci_image_reference
built name kind image r h = ground (arith, h)

append_references-all_references :
    (name : Text) (kind : GitLabResourceKind) (images : List Text)
    (rs : List GitLabCiImageReference)
    → append_references name kind images ≡ ok rs
    → rs ≡ all_references name kind images
unfolding append_references all_references
append_references-all_references name kind [] rs h = ground (arith, h)
append_references-all_references name kind (image ∷ images) rs h =
    elim (Result-cases (build_ci_image_reference name kind image)) [
      | inr (x, bad) ↦ ground (arith, bad, h)
      | inl (r, made) ↦ elim (Result-cases (append_references name kind images)) [
        | inr (x, bad) ↦ ground (arith, made, bad, h)
        | inl (rest, others) ↦ ground (
          arith,
          h,
          made,
          others,
          built name kind image r made,
          append_references-all_references name kind images rest others,
        )
      ]
    ]

-- a job is no bridge
job_entry :
    (defaults : Defaults) (name : Text) (job : Mapping)
    → is_skipped_name name ≡ false
    → is_ci_job_entry (Yaml.mapping job) ≡ true
    → entry_references defaults name (Yaml.mapping job) ≡ job_references defaults name job
unfolding entry_references is_ci_job_entry is_ci_trigger_bridge_entry is_ci_needs_only_entry
job_entry defaults name job named runs = ground (arith, named, runs)

split_entry :
    (defaults : Defaults) (name : Text) (v : Yaml) (es : Mapping)
    (images : List GitLabCiImageReference)
    → entries_references defaults (entry (text_key name) v es) ≡ ok images
    → (refs : List GitLabCiImageReference) × ((rest : List GitLabCiImageReference)
        × ((entry_references defaults name v ≡ ok refs)
            × ((entries_references defaults es ≡ ok rest) × (images ≡ refs ++ rest))))
unfolding entries_references
split_entry defaults name v es images k = elim (Result-cases (entry_references defaults name v)) [
  | inr (x, bad) ↦ ground (arith, bad, k)
  | inl (refs, made) ↦ elim (Result-cases (entries_references defaults es)) [
    | inr (x, bad) ↦ ground (arith, made, bad, k)
    | inl (rest, others) ↦ (refs, (rest, (made, (others, ground (arith, k, made, others)))))
  ]
]

module _ (defaults : Defaults) (name : Text) (job : Mapping) where
  entries_references-Within :
      (config : Mapping) (images : List GitLabCiImageReference)
      → is_skipped_name name ≡ false
      → is_ci_job_entry (Yaml.mapping job) ≡ true
      → HasEntry name (Yaml.mapping job) config
      → entries_references defaults config ≡ ok images
      → (refs : List GitLabCiImageReference) × ((job_references defaults name job ≡ ok refs)
          × Within refs images)
  unfolding entries_references
  entries_references-Within no_entries images named runs h k = elim h [ ]
  entries_references-Within (entry (text_key other) v es) images named runs (there m) k =
      let (refs, (rest, (made, (others, same)))) = split_entry defaults other v es images k in
      let (mine, (worked, within)) = entries_references-Within es rest named runs m others in
      (mine, (worked, subst (λ l. Within mine l) (sym same) (later mine rest refs within)))
  entries_references-Within (entry (text_key other) v es) images named runs (here key val) k =
      let (refs, (rest, (made, (others, same)))) = split_entry defaults other v es images k in
      (
        refs,
        (
          cc (key, val, made, job_entry defaults name job named runs),
          subst (λ l. Within refs l) (sym same) (first refs rest),
        ),
      )
  entries_references-Within (entry other_key v es) images named runs h k = cc k

-- the references of a job are those of its image and services
job_references-all_references :
    (image : Option Text) (services : List Text) (name : Text) (job : Mapping)
    (refs : List GitLabCiImageReference)
    → job_references (image, services) name job ≡ ok refs
    → (own : Option Text) × ((used : List Text) × ((resolve_job_image job image ≡ ok own)
          × ((resolve_job_services job services ≡ ok used)
              × (refs
                  ≡ all_references name ci_job_kind (given own)
                    ++ all_references name ci_service_kind used))))
unfolding job_references
job_references-all_references image services name job refs h =
    elim (Result-cases (resolve_job_image job image)) [
      | inr (x, bad) ↦ ground (arith, bad, h)
      | inl (own, owned) ↦ elim (Result-cases (append_references name ci_job_kind (given own))) [
        | inr (x, bad) ↦ ground (arith, owned, bad, h)
        | inl (firsts, made) ↦ elim (Result-cases (resolve_job_services job services)) [
          | inr (x, bad) ↦ ground (arith, owned, made, bad, h)
          | inl (used, uses) ↦ elim (Result-cases (append_references name ci_service_kind used)) [
            | inr (x, bad) ↦ ground (arith, owned, made, uses, bad, h)
            | inl (lasts, more) ↦ (
              own,
              (
                used,
                (
                  owned,
                  (
                    uses,
                    ground (
                      arith,
                      h,
                      owned,
                      made,
                      uses,
                      more,
                      append_references-all_references name ci_job_kind (given own) firsts made,
                      append_references-all_references name ci_service_kind used lasts more,
                    ),
                  ),
                ),
              ),
            )
          ]
        ]
      ]
    ]

-- `name` is no keyword of the whole configuration and not hidden.
abbrev pub keywords : List Text
keywords =
    text "default"
    ∷ text "include"
    ∷ text "image"
    ∷ text "services"
    ∷ text "before_script"
    ∷ text "after_script"
    ∷ text "variables"
    ∷ text "stages"
    ∷ text "cache"
    ∷ text "workflow"
    ∷ []

abbrev pub IsJobName : Text → Type 0
IsJobName name = All (λ k. name ≢ k) keywords × ((rest : Text) → name ≢ 46 ∷ rest)

abbrev pub HasKey : Text → Mapping → Type 0
HasKey key job = (v : Yaml) × (lookup_entry key job ≡ some v)

one_of-none : (name : Text) (l : List Text) → All (λ k. name ≢ k) l → one_of name l ≡ false
one_of-none name [] h = refl
one_of-none name (k ∷ l) (distinct, rest) = ground (arith, distinct, one_of-none name l rest)

no_dot :
    (name : Text)
    → ((rest : Text) → name ≢ 46 ∷ rest)
    → is_some (drop_prefix (text ".") name) ≡ false
unfolding drop_prefix text
no_dot [] h = refl
no_dot (c ∷ t) h = ground (arith, h t)

job_name : (name : Text) → IsJobName name → is_skipped_name name ≡ false
unfolding is_skipped_name
job_name name (named, shown) = ground (arith, one_of-none name keywords named, no_dot name shown)

runs_by :
    (job : Mapping)
    → HasKey (text "script") job ⊎ HasKey (text "run") job
    → is_ci_job_entry (Yaml.mapping job) ≡ true
unfolding is_ci_job_entry
runs_by job (inl (v, found)) = ground (arith, found)
runs_by job (inr (v, found)) = ground (arith, found)

-- If `_normalize_ci_images` returns, then for each job, an entry with `script` or `run` whose name is no
-- global keyword and does not start with a dot, references to its images stand in order in what is
-- returned: to its own image, or the project's if it has none and inherits that, and then to its own
-- services, or the project's if it has none and inherits those. The project's stand under `default`, or at
-- the top where they do not; a dynamic reference is kept as such.
pub normalize_ci_images-covers :
    (config : Mapping) (images : List GitLabCiImageReference) (name : Text) (job : Mapping)
    → normalize_ci_images config ≡ ok images
    → HasEntry name (Yaml.mapping job) config
    → IsJobName name
    → HasKey (text "script") job ⊎ HasKey (text "run") job
    → Within
        (all_references name ci_job_kind (given (effective_image config job))
          ++ all_references name ci_service_kind (effective_services config job))
        images
unfolding normalize_ci_images effective_image effective_services
normalize_ci_images-covers config images name job h m named runs =
    elim (Result-cases (project_defaults config)) [
      | inr (x, bad) ↦ ground (arith, bad, h)
      | inl ((image, services), found) ↦
          let (refs, (made, within)) =
            entries_references-Within (image, services) name job config images (job_name name named)
              (runs_by job runs) m (ground (arith, found, h)) in
          let (own, (used, (owned, (uses, same)))) =
            job_references-all_references image services name job refs made in
          let (image_eq, services_eq) = project_defaults-are config image services found in
          let own_eq : own ≡ effective_image config job =
            job_image-is job image own owned ∙ ap (λ i. image_for i job) image_eq in
          let used_eq : used ≡ effective_services config job =
            job_services-are job services used uses ∙ ap (λ l. services_for l job) services_eq in
          subst (λ l. Within l images)
            (same
              ∙ ap
                  (λ i.
                    all_references name ci_job_kind (given i)
                    ++ all_references name ci_service_kind used)
                  own_eq
              ∙ ap
                  (λ l.
                    all_references name ci_job_kind (given (effective_image config job))
                    ++ all_references name ci_service_kind l)
                  used_eq)
            within
    ]
