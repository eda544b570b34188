-- ===== src/Collectors/CiEntries/Effective.antt =====
-- collectors/gitlab.py: which images a job of a merged CI configuration runs in, apart from what is
-- refused.
use cloudops_guard.Prelude.{
  Bool, true, false, Option, none, some, List, [], ◌∷◌, ◌≡◌, sym, inl, inr, arith, if◌then◌else◌,
  Option-cases,
}
use cloudops_guard.Prelude.Text.{Text, text}
use cloudops_guard.Prelude.Result.{◌>>=◌, ok, Result-cases}
use cloudops_guard.Collectors.Yaml.{
  Yaml, Sequence, Mapping, no_values, element, no_entries, lookup_entry, has_string,
}
use cloudops_guard.Collectors.CiEntries.{
  extract_image_or_service_name, extract_optional_image, extract_names, extract_services_list,
  validate_inherit_default_list, selects, inherits, job_inherits_default_key, resolve_job_image,
  resolve_job_services, resolve_project_default_image, resolve_project_default_services,
  nonempty_name, first_image, first_services,
}
use cloudops_guard.Collectors.CiImages.{project_defaults, default_block}

-- An image is named by a text, or by the `name` of a mapping.
abbrev pub nonempty_text : Option Yaml → Option Text
nonempty_text (some (Yaml.string (c ∷ t))) = some (c ∷ t)
nonempty_text _ = none

abbrev pub image_name : Yaml → Option Text
image_name (Yaml.string (c ∷ t)) = some (c ∷ t)
image_name (Yaml.mapping es) = nonempty_text (lookup_entry (text "name") es)
image_name _ = none

abbrev also : Option Text → List Text → List Text
also none l = l
also (some t) l = t ∷ l

unfoldable pub image_names : Sequence → List Text
image_names no_values = []
image_names (element v vs) = also (image_name v) (image_names vs)

abbrev pub service_names : Yaml → List Text
service_names (Yaml.sequence vs) = image_names vs
service_names _ = []

-- A job inherits a default unless its `inherit: default` says `false` or lists others.
abbrev pub selected : Text → Option Yaml → Bool
selected key none = true
selected key (some (Yaml.boolean b)) = b
selected key (some (Yaml.sequence vs)) = has_string key vs
selected key _ = false

abbrev pub inherited : Text → Option Yaml → Bool
inherited key none = true
inherited key (some (Yaml.mapping es)) = selected key (lookup_entry (text "default") es)
inherited key _ = false

abbrev pub image_from : Option Yaml → Option Text → Option Text
image_from none otherwise = otherwise
image_from (some v) otherwise = image_name v

abbrev pub services_from : Option Yaml → List Text → List Text
services_from none otherwise = otherwise
services_from (some v) otherwise = service_names v

-- With the image of the project, and with its services.
abbrev pub image_for : Option Text → Mapping → Option Text
image_for project job =
    image_from (lookup_entry (text "image") job)
      (if inherited (text "image") (lookup_entry (text "inherit") job) then project else none)

abbrev pub services_for : List Text → Mapping → List Text
services_for project job =
    services_from (lookup_entry (text "services") job)
      (if inherited (text "services") (lookup_entry (text "inherit") job) then project else [])

abbrev pub defaults_under : Option Yaml → Mapping
defaults_under (some (Yaml.mapping es)) = es
defaults_under _ = no_entries

abbrev pub project_image : Mapping → Option Text
project_image config =
    image_from (lookup_entry (text "image") (defaults_under (lookup_entry (text "default") config)))
      (image_from (lookup_entry (text "image") config) none)

abbrev pub project_services : Mapping → List Text
project_services config =
    services_from
      (lookup_entry (text "services") (defaults_under (lookup_entry (text "default") config)))
      (services_from (lookup_entry (text "services") config) [])

-- What a job runs in.
unfoldable pub effective_image : Mapping → Mapping → Option Text
effective_image config job = image_for (project_image config) job

unfoldable pub effective_services : Mapping → Mapping → List Text
effective_services config job = services_for (project_services config) job

nonempty-is : (o : Option Yaml) (t : Text) → nonempty_name o ≡ ok t → nonempty_text o ≡ some t
nonempty-is none t h = ground (arith, h)
nonempty-is (some (Yaml.string [])) t h = ground (arith, h)
nonempty-is (some (Yaml.string (c ∷ u))) t h = ground (arith, h)
nonempty-is (some _) t h = ground (arith, h)

name-is : (v : Yaml) (t : Text) → extract_image_or_service_name v ≡ ok t → image_name v ≡ some t
unfolding extract_image_or_service_name
name-is (Yaml.string []) t h = ground (arith, h)
name-is (Yaml.string (c ∷ u)) t h = ground (arith, h)
name-is (Yaml.mapping es) t h = nonempty-is (lookup_entry (text "name") es) t h
name-is _ t h = ground (arith, h)

kept-is :
    (v : Yaml) (o : Option Text)
    → extract_image_or_service_name v >>= (λ t. ok (some t)) ≡ ok o
    → image_name v ≡ o
kept-is v o h = elim (Result-cases (extract_image_or_service_name v)) [
  | inr (x, bad) ↦ ground (arith, bad, h)
  | inl (t, named) ↦ ground (arith, named, h, name-is v t named)
]

image-is : (v : Yaml) (o : Option Text) → extract_optional_image v ≡ ok o → image_name v ≡ o
unfolding extract_optional_image
image-is Yaml.nothing o h = ground (arith, h)
image-is (Yaml.string t) o h = kept-is (Yaml.string t) o h
image-is (Yaml.mapping es) o h = kept-is (Yaml.mapping es) o h
image-is (Yaml.boolean b) o h = kept-is (Yaml.boolean b) o h
image-is Yaml.scalar o h = kept-is Yaml.scalar o h
image-is (Yaml.sequence vs) o h = kept-is (Yaml.sequence vs) o h

names-are : (vs : Sequence) (l : List Text) → extract_names vs ≡ ok l → image_names vs ≡ l
unfolding extract_names image_names
names-are no_values l h = ground (arith, h)
names-are (element v vs) l h = elim (Result-cases (extract_image_or_service_name v)) [
  | inr (x, bad) ↦ ground (arith, bad, h)
  | inl (t, named) ↦ elim (Result-cases (extract_names vs)) [
    | inr (x, bad) ↦ ground (arith, named, bad, h)
    | inl (ts, others) ↦ ground (arith, named, others, h, name-is v t named, names-are vs ts others)
  ]
]

services-are : (v : Yaml) (l : List Text) → extract_services_list v ≡ ok l → service_names v ≡ l
unfolding extract_services_list
services-are (Yaml.sequence vs) l h = names-are vs l h
services-are _ l h = ground (arith, h)

selects-is : (key : Text) (o : Option Yaml) (b : Bool) → selects key o ≡ ok b → selected key o ≡ b
selects-is key none b h = ground (arith, h)
selects-is key (some (Yaml.boolean c)) b h = ground (arith, h)
selects-is key (some (Yaml.sequence vs)) b h =
    elim (Result-cases (validate_inherit_default_list vs)) [
      | inr (x, bad) ↦ ground (arith, bad, h)
      | inl (u, good) ↦ ground (arith, good, h)
    ]
selects-is key (some _) b h = ground (arith, h)

inherits-is :
    (key : Text) (o : Option Yaml) (b : Bool) → inherits key o ≡ ok b → inherited key o ≡ b
inherits-is key none b h = ground (arith, h)
inherits-is key (some (Yaml.mapping es)) b h = selects-is key (lookup_entry (text "default") es) b h
inherits-is key (some _) b h = ground (arith, h)

pub job_image-is :
    (job : Mapping) (project own : Option Text)
    → resolve_job_image job project ≡ ok own
    → own ≡ image_for project job
unfolding resolve_job_image job_inherits_default_key
job_image-is job project own h = elim (Option-cases (lookup_entry (text "image") job)) [
  | inr (v, found) ↦ ground (arith, found, image-is v own (ground (arith, found, h)))
  | inl missing ↦
      elim (Result-cases (inherits (text "image") (lookup_entry (text "inherit") job))) [
        | inr (x, bad) ↦ ground (arith, missing, bad, h)
        | inl (b, good) ↦ ground (
          arith,
          missing,
          good,
          h,
          inherits-is (text "image") (lookup_entry (text "inherit") job) b good,
        )
      ]
]

pub job_services-are :
    (job : Mapping) (project used : List Text)
    → resolve_job_services job project ≡ ok used
    → used ≡ services_for project job
unfolding resolve_job_services job_inherits_default_key
job_services-are job project used h = elim (Option-cases (lookup_entry (text "services") job)) [
  | inr (v, found) ↦ ground (arith, found, services-are v used (ground (arith, found, h)))
  | inl missing ↦
      elim (Result-cases (inherits (text "services") (lookup_entry (text "inherit") job))) [
        | inr (x, bad) ↦ ground (arith, missing, bad, h)
        | inl (b, good) ↦ ground (
          arith,
          missing,
          good,
          h,
          inherits-is (text "services") (lookup_entry (text "inherit") job) b good,
        )
      ]
]

first_image-is :
    (o legacy : Option Yaml) (i : Option Text)
    → first_image o legacy ≡ ok i
    → i ≡ image_from o (image_from legacy none)
first_image-is (some v) legacy i h = sym (image-is v i h)
first_image-is none (some v) i h = sym (image-is v i h)
first_image-is none none i h = ground (arith, h)

first_services-are :
    (o legacy : Option Yaml) (l : List Text)
    → first_services o legacy ≡ ok l
    → l ≡ services_from o (services_from legacy [])
first_services-are (some v) legacy l h = sym (services-are v l h)
first_services-are none (some v) l h = sym (services-are v l h)
first_services-are none none l h = ground (arith, h)

block-is : (o : Option Yaml) (es : Mapping) → default_block o ≡ ok es → es ≡ defaults_under o
block-is none es h = ground (arith, h)
block-is (some (Yaml.mapping ms)) es h = ground (arith, h)
block-is (some Yaml.nothing) es h = ground (arith, h)
block-is (some _) es h = ground (arith, h)

pub project_defaults-are :
    (config : Mapping) (image : Option Text) (services : List Text)
    → project_defaults config ≡ ok (image, services)
    → (image ≡ project_image config) × (services ≡ project_services config)
unfolding project_defaults resolve_project_default_image resolve_project_default_services
project_defaults-are config image services h =
    elim (Result-cases (default_block (lookup_entry (text "default") config))) [
      | inr (x, bad) ↦ ground (arith, bad, h)
      | inl (es, under) ↦
          elim (Result-cases
            (first_image (lookup_entry (text "image") es) (lookup_entry (text "image") config))) [
              | inr (x, bad) ↦ ground (arith, under, bad, h)
              | inl (i, imaged) ↦
                  elim (Result-cases (
                    first_services (lookup_entry (text "services") es)
                      (lookup_entry (text "services") config))) [
                        | inr (x, bad) ↦ ground (arith, under, imaged, bad, h)
                        | inl (l, serviced) ↦ (
                          ground (
                            arith,
                            under,
                            imaged,
                            serviced,
                            h,
                            block-is (lookup_entry (text "default") config) es under,
                            first_image-is (lookup_entry (text "image") es)
                                (lookup_entry (text "image") config) i imaged,
                          ),
                          ground (
                            arith,
                            under,
                            imaged,
                            serviced,
                            h,
                            block-is (lookup_entry (text "default") config) es under,
                            first_services-are (lookup_entry (text "services") es)
                                (lookup_entry (text "services") config) l serviced,
                          ),
                        )
                      ]
            ]
    ]
