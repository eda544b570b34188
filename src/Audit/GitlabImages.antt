-- ===== src/Audit/GitlabImages.antt =====
-- checks/gitlab.py: the check of the images of CI jobs and services.
use cloudops_guard.Prelude.{Option, none, some, List, [], ◌∷◌, ◌++◌, false, if◌then◌else◌, not}
use cloudops_guard.Audit.Models.{high}
use cloudops_guard.Audit.GitlabModels.{
  ci_job_kind, GitLabFinding, GitLabResourceKind, GitLabCiImageReference, GitLabCiConfigSnapshot,
}
use cloudops_guard.Prelude.Text.{text, Text}
use cloudops_guard.Ingestion.Models.{DateTime}
use cloudops_guard.Prelude.Result.{value_error, other, ok, err, Result}
use cloudops_guard.Audit.ImageTag.{observed, image_tag, is_pinned_by_digest, is_fixed_tag}

abbrev title_mutable_ci_image : Text
title_mutable_ci_image = text "CI job or service container image uses a mutable tag or no tag"

unfoldable pub build_dynamic_ci_image_finding :
    Text → GitLabCiImageReference → DateTime → GitLabFinding
build_dynamic_ci_image_finding project_path image_ref audited_at = record {
  check_id = text "GL-CI-001";
  title = title_mutable_ci_image;
  severity = high;
  project_path = project_path;
  resource_kind = image_ref.resource_kind;
  resource_name = text "dynamic image reference";
  job_name = some image_ref.job_name;
  evidence =
      text "The CI image reference is dynamic and could not be statically " ++ text "verified.";
  impact =
      text "A dynamic, runtime-resolved image reference cannot be evaluated "
      ++ text "from the CI configuration alone, so its reproducibility, "
      ++ text "rollback safety, and supply-chain traceability cannot be "
      ++ text "verified. This does not mean the effective image is necessarily "
      ++ text "unpinned -- only that CloudOps Guard cannot determine that "
      ++ text "statically.";
  recommendation =
      text "Replace or constrain the CI/CD variable expression so the "
      ++ text "effective image reference can be statically verified, rather "
      ++ text "than relying on a value resolved only at runtime.";
  auto_remediable = false;
  audited_at = audited_at;
}

abbrev static_evidence : GitLabResourceKind → Text → Text → Text → Text
static_evidence ci_job_kind job_name image tag =
    text "CI job '"
    ++ job_name
    ++ text "' uses image '"
    ++ image
    ++ text "' (tag: "
    ++ tag
    ++ text ")."
static_evidence _ job_name image tag =
    text "A service used by CI job '"
    ++ job_name
    ++ text "' uses image '"
    ++ image
    ++ text "' (tag: "
    ++ tag
    ++ text ")."

-- the finding for an image with a tag that is not fixed
abbrev mutable_image : Text → GitLabCiImageReference → Text → DateTime → GitLabFinding
mutable_image project_path image_ref image audited_at = record {
  check_id = text "GL-CI-001";
  title = title_mutable_ci_image;
  severity = high;
  project_path = project_path;
  resource_kind = image_ref.resource_kind;
  resource_name = image;
  job_name = some image_ref.job_name;
  evidence =
      static_evidence image_ref.resource_kind image_ref.job_name image (observed (image_tag image));
  impact =
      text "A mutable tag such as 'latest', or no tag at all, means the "
      ++ text "exact image content used by this CI job may differ from what "
      ++ text "ran previously or what will run next time, undermining "
      ++ text "reproducibility, rollback safety, and supply-chain "
      ++ text "traceability. CI images also run with pipeline (and potentially "
      ++ text "CI job token) permissions, so an unverifiable image is a "
      ++ text "sharper risk here than an equivalent finding on an idle "
      ++ text "workload. A specific version tag is a meaningful improvement "
      ++ text "over 'latest', but a tag can still be overwritten and re-pushed "
      ++ text "in the registry -- it is not itself a guarantee of immutability.";
  recommendation =
      text "Pin the image to a specific version tag at minimum. For a "
      ++ text "content-addressed, truly immutable reference, pin to a digest "
      ++ text "instead or in addition (e.g. app@sha256:...).";
  auto_remediable = false;
  audited_at = audited_at;
}

-- the `assert` raises where a static reference has no image
unfoldable pub build_static_ci_image_finding :
    Text → GitLabCiImageReference → DateTime → Result (Option GitLabFinding)
build_static_ci_image_finding project_path image_ref audited_at = elim image_ref.image [
  | none ↦ err other
  | some image ↦
      if is_pinned_by_digest image
      then ok none
      else if is_fixed_tag (image_tag image)
      then ok none
      else ok (some (mutable_image project_path image_ref image audited_at))
]

unfoldable pub build_ci_image_finding :
    Text → GitLabCiImageReference → DateTime → Result (Option GitLabFinding)
build_ci_image_finding project_path image_ref audited_at =
    if image_ref.dynamic
    then ok (some (build_dynamic_ci_image_finding project_path image_ref audited_at))
    else build_static_ci_image_finding project_path image_ref audited_at

abbrev pub keep : Option GitLabFinding → List GitLabFinding → List GitLabFinding
keep none rest = rest
keep (some finding) rest = finding ∷ rest

-- the loop over the references
unfoldable pub images_findings :
    Text → List GitLabCiImageReference → DateTime → Result (List GitLabFinding)
images_findings project_path [] audited_at = ok []
images_findings project_path (image_ref ∷ images) audited_at =
    let rest = images_findings project_path images audited_at in
    elim (build_ci_image_finding project_path image_ref audited_at) [
      | err e ↦ err e
      | ok found ↦ elim rest [ err e ↦ err e | ok findings ↦ ok (keep found findings) ]
    ]

unfoldable pub evaluate_ci_image_check :
    GitLabCiConfigSnapshot → DateTime → Result (List GitLabFinding)
evaluate_ci_image_check snapshot audited_at =
    if not audited_at.aware
    then err value_error
    else images_findings snapshot.project_path snapshot.images audited_at
