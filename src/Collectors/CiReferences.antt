-- ===== src/Collectors/CiReferences.antt =====
-- models.py and collectors/gitlab.py: a reference to an image, with the validators of the model.
use cloudops_guard.Prelude.{
  ℕ, leb, ◌==◌, Bool, true, false, ◌&&◌, ◌||◌, not, Option, none, some, List, [], ◌∷◌,
  if◌then◌else◌, is_some,
}
use cloudops_guard.Prelude.Text.{Text}
use cloudops_guard.Prelude.Result.{Result, ok, err, validation_error, ◌>>=◌}
use cloudops_guard.Audit.GitlabModels.{
  GitLabResourceKind, ci_job_kind, ci_service_kind, GitLabCiImageReference,
}
use cloudops_guard.Collectors.Settings.{has_length}

-- `[A-Za-z_]`
abbrev pub is_name_start : ℕ → Bool
is_name_start c = leb 65 c && leb c 90 || c == 95 || leb 97 c && leb c 122

abbrev pub is_name_char : ℕ → Bool
is_name_char c = is_name_start c || leb 48 c && leb c 57

abbrev pub starts_name : Text → Bool
starts_name [] = false
starts_name (c ∷ t) = is_name_start c

-- `[A-Za-z0-9_]*\}`
unfoldable pub closes_name : Text → Bool
closes_name [] = false
closes_name (c ∷ t) = c == 125 || is_name_char c && closes_name t

abbrev pub braced_name : Text → Bool
braced_name [] = false
braced_name (c ∷ t) = is_name_start c && closes_name t

abbrev pub names_variable : Text → Bool
names_variable [] = false
names_variable (c ∷ t) = c == 123 && braced_name t || starts_name (c ∷ t)

-- `_DYNAMIC_REFERENCE_RE.search`: a `$` with a name after it, in braces or not
unfoldable pub is_dynamic_reference : Text → Bool
is_dynamic_reference [] = false
is_dynamic_reference (c ∷ t) = c == 36 && names_variable t || is_dynamic_reference t

abbrev pub is_ci_kind : GitLabResourceKind → Bool
is_ci_kind ci_job_kind = true
is_ci_kind ci_service_kind = true
is_ci_kind _ = false

-- `min_length=1`, and the invariant between `dynamic` and `image`
abbrev pub image_valid : Bool → Option Text → Bool
image_valid true image = not (is_some image)
image_valid false none = false
image_valid false (some t) = has_length t

unfoldable pub reference_valid : GitLabCiImageReference → Bool
reference_valid r =
    has_length r.job_name && is_ci_kind r.resource_kind && image_valid r.dynamic r.image

-- `GitLabCiImageReference(...)`
unfoldable pub ci_image_reference : GitLabCiImageReference → Result GitLabCiImageReference
ci_image_reference r = if reference_valid r then ok r else err validation_error

-- what is kept of an image
abbrev pub reference_of : Text → GitLabResourceKind → Text → GitLabCiImageReference
reference_of job_name resource_kind image =
    if is_dynamic_reference image
    then record { job_name = job_name; resource_kind = resource_kind; image = none; dynamic = true }
    else record {
      job_name = job_name;
      resource_kind = resource_kind;
      image = some image;
      dynamic = false;
    }

-- `_build_ci_image_reference`
unfoldable pub build_ci_image_reference :
    Text → GitLabResourceKind → Text → Result GitLabCiImageReference
build_ci_image_reference job_name resource_kind image =
    ci_image_reference (reference_of job_name resource_kind image)

-- `images.append` for each image of a kind
unfoldable pub append_references :
    Text → GitLabResourceKind → List Text → Result (List GitLabCiImageReference)
append_references job_name resource_kind [] = ok []
append_references job_name resource_kind (image ∷ images) = do
  reference ← build_ci_image_reference job_name resource_kind image
  rest ← append_references job_name resource_kind images
  ok (reference ∷ rest)
