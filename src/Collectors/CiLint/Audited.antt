-- ===== src/Collectors/CiLint/Audited.antt =====
-- collectors/gitlab.py: the normalized CI configuration, in an audit.
use cloudops_guard.Prelude.{
  Option-cases, sym, ◌∙◌, ◌≤◌, ℕ, ◌≤◌, leb, true, ◌&&◌, List, [], ◌∷◌, ◌≡◌, sym, inl, inr, All,
  arith, Bool-cases, length, subst,
}
use cloudops_guard.Prelude.Text.{Text, text}
use cloudops_guard.Prelude.Result.{Result, ok, err, bind_ok}
use cloudops_guard.Prelude.Json.{Json, lookup_member}
use cloudops_guard.Ingestion.Models.{DateTime}
use cloudops_guard.Audit.GitlabModels.{
  GitLabCiImageReference, GitLabCiConfigSnapshot, GitLabProjectSnapshot, GitLabAuditReport,
}
use cloudops_guard.Audit.GitlabEvaluator.{evaluate_gitlab}
use cloudops_guard.Audit.GitlabEvaluator.Report.{IsFormed, evaluate_gitlab_total}
use cloudops_guard.Collectors.Fields.{as_bool, as_nonempty_str}
use cloudops_guard.Collectors.Settings.{has_length}
use cloudops_guard.Collectors.Yaml.{Yaml, Mapping}
use cloudops_guard.Collectors.CiReferences.{reference_valid}
use cloudops_guard.Collectors.CiImages.{normalize_ci_images}
use cloudops_guard.Collectors.CiImages.Sanitized.{IsValid, normalize_ci_images-IsValid}
use cloudops_guard.Collectors.CiLint.{
  check, yaml_root, without_details, ci_config_snapshot, normalize_ci_lint_response,
  max_merged_yaml_characters,
}

details-ok {ℓ} : {A : Type ℓ} (r : Result A) (a : A) → without_details r ≡ ok a → r ≡ ok a
details-ok (ok b) a h = h
details-ok (err x) a h = ground (arith, h)

kept :
    (config : Mapping) (images : List GitLabCiImageReference) (path : Text) (at : DateTime)
    (ci : GitLabCiConfigSnapshot)
    → normalize_ci_images config ≡ ok images
    → ci_config_snapshot (record { project_path = path; collected_at = at; images = images })
      ≡ ok ci
    → (normalize_ci_images config ≡ ok ci.images) × (ci.project_path ≡ path)
unfolding ci_config_snapshot
kept config images path at ci f made = elim (Bool-cases (has_length path && at.aware)) [
  | inl valid ↦ (ground (arith, valid, made, f), ground (arith, valid, made))
  | inr failed ↦ ground (arith, failed, made)
]

-- what was returned was normalized from a mapping
opened :
    (safe_load : Text → Result Yaml) (payload : Json) (path : Text) (at : DateTime)
    (ci : GitLabCiConfigSnapshot)
    → normalize_ci_lint_response safe_load payload path at ≡ ok ci
    → (config : Mapping) × ((normalize_ci_images config ≡ ok ci.images) × (ci.project_path ≡ path))
unfolding normalize_ci_lint_response
opened safe_load (Json.object payload) path at ci h =
    let (valid, (a, h1)) = bind_ok (as_bool (lookup_member (text "valid") payload)) _ ci h in
    let (u, (b, h2)) = bind_ok (check valid) _ ci h1 in
    let (doc, (c, h3)) =
      bind_ok (as_nonempty_str (lookup_member (text "merged_yaml") payload)) _ ci h2 in
    let (v, (d, h4)) = bind_ok (check (leb (length doc) max_merged_yaml_characters)) _ ci h3 in
    let (config, (e, h5)) = bind_ok (yaml_root (safe_load doc)) _ ci h4 in
    let (images, (f, made)) = bind_ok (normalize_ci_images config) _ ci (details-ok _ ci h5) in
    (config, kept config images path at ci f made)
opened safe_load _ path at ci h = cc h

valid-IsFormed : (r : GitLabCiImageReference) → IsValid r → IsFormed r
unfolding reference_valid
valid-IsFormed r h = elim (Bool-cases r.dynamic) [
  | inl dynamic ↦ ground (arith, dynamic)
  | inr static ↦ elim (Option-cases r.image) [
    | inl missing ↦ ground (arith, static, missing, h)
    | inr (image, found) ↦ ground (arith, static, found)
  ]
]

valid-All : (rs : List GitLabCiImageReference) → All IsValid rs → All IsFormed rs
valid-All [] a = tt
valid-All (r ∷ rs) (v, a) = (valid-IsFormed r v, valid-All rs a)

ok-injective {ℓ} : {A : Type ℓ} {a b : A} → ok a ≡ ok b → a ≡ b
ok-injective h = cc h

-- a normalized reference is never one at which the check's `assert` fails
images-IsFormed :
    (config : Mapping) (images : List GitLabCiImageReference)
    → normalize_ci_images config ≡ ok images
    → All IsFormed images
images-IsFormed config images h = elim (normalize_ci_images-IsValid config) [
  | inl (rs, (same, valid)) ↦
      valid-All images (subst (λ l. All IsValid l) (ok-injective (sym same ∙ h)) valid)
  | inr (x, (bad, e)) ↦ cc (bad, h)
]

-- an audit of a project with its normalized CI configuration
pub collected-evaluate_gitlab :
    (safe_load : Text → Result Yaml) (payload : Json) (collected_at : DateTime)
    (snapshot : GitLabProjectSnapshot) (ci : GitLabCiConfigSnapshot) (at : DateTime) (threshold : ℕ)
    → normalize_ci_lint_response safe_load payload snapshot.project.project_path collected_at
      ≡ ok ci
    → at.aware ≡ true
    → 1 ≤ threshold
    → (report : GitLabAuditReport) × (evaluate_gitlab snapshot ci at threshold ≡ ok report)
collected-evaluate_gitlab safe_load payload collected_at snapshot ci at threshold h aware positive =
    let (config, (normal, same)) =
      opened safe_load payload snapshot.project.project_path collected_at ci h in
    evaluate_gitlab_total snapshot ci at threshold aware same positive
      (images-IsFormed config ci.images normal)
