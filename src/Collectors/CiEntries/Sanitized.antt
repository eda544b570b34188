-- ===== src/Collectors/CiEntries/Sanitized.antt =====
-- collectors/gitlab.py: how the reading of an entry of a merged CI configuration ends.
use cloudops_guard.Prelude.{
  false, if◌then◌else◌, if◌then◌else◌, All, true, Option, none, some, List, [], ◌∷◌, ◌≡◌, refl, inl,
  inr, Bool-cases, arith,
}
use cloudops_guard.Prelude.Text.{Text, text}
use cloudops_guard.Prelude.Result.{◌>>=◌, ok, gitlab_client_error}
use cloudops_guard.Prelude.Outcomes.{chain}
use cloudops_guard.Prelude.Json.{one_of}
use cloudops_guard.Collectors.Fields.Sanitized.{Sanitized, Anything, refused}
use cloudops_guard.Collectors.Yaml.{
  Mapping, Yaml, Sequence, no_values, element, lookup_entry, has_string,
}
use cloudops_guard.Collectors.CiEntries.{
  job_inherits_default_key, resolve_job_services, resolve_job_image,
  resolve_project_default_services, resolve_project_default_image, Bool, first_services,
  first_image, nonempty_name, extract_image_or_service_name, extract_optional_image, extract_names,
  extract_services_list, validate_inherit_default_list, selects, inherits,
  allowed_default_inherit_keywords,
}
use cloudops_guard.Collectors.Settings.{has_length}
use cloudops_guard.Collectors.CiImages.{given}

returned {ℓ} : {A : Type ℓ} (a : A) → Sanitized Anything (ok a)
returned a = inl (a, (refl, tt))

abbrev pub IsNamed : Text → Type 0
IsNamed t = has_length t ≡ true

nonempty-Sanitized : (o : Option Yaml) → Sanitized IsNamed (nonempty_name o)
nonempty-Sanitized (some (Yaml.string (c ∷ t))) = inl (c ∷ t, (refl, refl))
nonempty-Sanitized _ = refused IsNamed

name-Sanitized : (v : Yaml) → Sanitized IsNamed (extract_image_or_service_name v)
unfolding extract_image_or_service_name
name-Sanitized (Yaml.string (c ∷ t)) = inl (c ∷ t, (refl, refl))
name-Sanitized (Yaml.mapping es) = nonempty-Sanitized (lookup_entry (text "name") es)
name-Sanitized _ = refused IsNamed

-- Every image is a nonempty text.
abbrev pub AreNamed : List Text → Type 0
AreNamed ts = All IsNamed ts

kept-Sanitized :
    (v : Yaml)
    → Sanitized (λ o. AreNamed (given o)) (extract_image_or_service_name v >>= λ t. ok (some t))
kept-Sanitized v =
    chain _ _ (name-Sanitized v) (λ image named. inl (some image, (refl, (named, tt))))

pub image-Sanitized : (v : Yaml) → Sanitized (λ o. AreNamed (given o)) (extract_optional_image v)
unfolding extract_optional_image
image-Sanitized Yaml.nothing = inl (none, (refl, tt))
image-Sanitized (Yaml.string t) = kept-Sanitized (Yaml.string t)
image-Sanitized (Yaml.mapping es) = kept-Sanitized (Yaml.mapping es)
image-Sanitized (Yaml.boolean b) = kept-Sanitized (Yaml.boolean b)
image-Sanitized Yaml.scalar = kept-Sanitized Yaml.scalar
image-Sanitized (Yaml.sequence vs) = kept-Sanitized (Yaml.sequence vs)

names-Sanitized : (vs : Sequence) → Sanitized AreNamed (extract_names vs)
unfolding extract_names
names-Sanitized no_values = inl ([], (refl, tt))
names-Sanitized (element v vs) = chain _ _ (name-Sanitized v) (λ name named.
    chain _ _ (names-Sanitized vs) (λ names all. inl (name ∷ names, (refl, (named, all)))))

pub services-Sanitized : (v : Yaml) → Sanitized AreNamed (extract_services_list v)
unfolding extract_services_list
services-Sanitized (Yaml.sequence vs) = names-Sanitized vs
services-Sanitized _ = refused AreNamed

list-Sanitized : (vs : Sequence) → Sanitized Anything (validate_inherit_default_list vs)
unfolding validate_inherit_default_list
list-Sanitized no_values = returned tt
list-Sanitized (element (Yaml.string t) vs) =
    elim (Bool-cases (one_of t allowed_default_inherit_keywords)) [
      | inl known ↦ elim (list-Sanitized vs) [
        | inl (u, (same, p)) ↦ inl (u, (ground (arith, known, same), tt))
        | inr (x, (bad, e)) ↦ inr (x, (ground (arith, known, bad), e))
      ]
      | inr unknown ↦ inr (gitlab_client_error, (ground (arith, unknown), refl))
    ]
list-Sanitized (element _ vs) = refused Anything

selects-Sanitized : (key : Text) (o : Option Yaml) → Sanitized Anything (selects key o)
selects-Sanitized key none = returned true
selects-Sanitized key (some (Yaml.boolean b)) = returned b
selects-Sanitized key (some (Yaml.sequence vs)) =
    chain _ _ (list-Sanitized vs) (λ u v. returned (has_string key vs))
selects-Sanitized key (some _) = refused Anything

inherits-Sanitized : (key : Text) (o : Option Yaml) → Sanitized Anything (inherits key o)
inherits-Sanitized key none = returned true
inherits-Sanitized key (some (Yaml.mapping es)) =
    selects-Sanitized key (lookup_entry (text "default") es)
inherits-Sanitized key (some _) = refused Anything

first-Sanitized :
    (o legacy : Option Yaml) → Sanitized (λ i. AreNamed (given i)) (first_image o legacy)
first-Sanitized (some v) legacy = image-Sanitized v
first-Sanitized none (some v) = image-Sanitized v
first-Sanitized none none = inl (none, (refl, tt))

firsts-Sanitized : (o legacy : Option Yaml) → Sanitized AreNamed (first_services o legacy)
firsts-Sanitized (some v) legacy = services-Sanitized v
firsts-Sanitized none (some v) = services-Sanitized v
firsts-Sanitized none none = inl ([], (refl, tt))

kept_image :
    (inherited : Bool) (image : Option Text)
    → AreNamed (given image)
    → Sanitized (λ i. AreNamed (given i)) (ok (if inherited then image else none))
kept_image true image named = inl (image, (refl, named))
kept_image false image named = inl (none, (refl, tt))

kept_services :
    (inherited : Bool) (services : List Text)
    → AreNamed services
    → Sanitized AreNamed (ok (if inherited then services else []))
kept_services true services named = inl (services, (refl, named))
kept_services false services named = inl ([], (refl, tt))

-- What the project's images and a job's are, nonempty texts all.
pub project_image-Sanitized :
    (config block : Mapping)
    → Sanitized (λ i. AreNamed (given i)) (resolve_project_default_image config block)
unfolding resolve_project_default_image
project_image-Sanitized config block = first-Sanitized _ _

pub project_services-Sanitized :
    (config block : Mapping) → Sanitized AreNamed (resolve_project_default_services config block)
unfolding resolve_project_default_services
project_services-Sanitized config block = firsts-Sanitized _ _

pub job_image-Sanitized :
    (job : Mapping) (image : Option Text)
    → AreNamed (given image)
    → Sanitized (λ i. AreNamed (given i)) (resolve_job_image job image)
unfolding resolve_job_image job_inherits_default_key
job_image-Sanitized job image named =
    elim (lookup_entry (text "image") job)
      as (λ o.
        Sanitized (λ i. AreNamed (given i))
          (elim o [
            | some v ↦ extract_optional_image v
            | none ↦ inherits (text "image") (lookup_entry (text "inherit") job) >>= λ inherited.
                ok (if inherited then image else none)
          ])) [
            | some v ↦ image-Sanitized v
            | none ↦
                chain _ _ (inherits-Sanitized (text "image") (lookup_entry (text "inherit") job))
                  (λ inherited u. kept_image inherited image named)
          ]

pub job_services-Sanitized :
    (job : Mapping) (services : List Text)
    → AreNamed services
    → Sanitized AreNamed (resolve_job_services job services)
unfolding resolve_job_services job_inherits_default_key
job_services-Sanitized job services named =
    elim (lookup_entry (text "services") job)
      as (λ o. Sanitized AreNamed (elim o [
        | some v ↦ extract_services_list v
        | none ↦ inherits (text "services") (lookup_entry (text "inherit") job) >>= λ inherited.
            ok (if inherited then services else [])
      ])) [
        | some v ↦ services-Sanitized v
        | none ↦
            chain _ _ (inherits-Sanitized (text "services") (lookup_entry (text "inherit") job))
              (λ inherited u. kept_services inherited services named)
      ]
