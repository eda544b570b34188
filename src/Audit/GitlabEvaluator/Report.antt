-- ===== src/Audit/GitlabEvaluator/Report.antt =====
-- engine/evaluator.py: what a GitLab report says of its own findings.
use cloudops_guard.Prelude.{
  ite, ◌≤◌, ◌+◌, length, sym, is_some, ◌||◌, suc, zero, All, Option-cases, ap, ◌∙◌, subst,
  if◌then◌else◌, ℕ, Option, none, some, List, [], ◌∷◌, ◌++◌, Bool, true, false, ◌≡◌, refl, arith,
  inl, inr,
}
use cloudops_guard.Prelude.Result.{ok, Result-cases}
use cloudops_guard.Prelude.Text.{Text}
use cloudops_guard.Audit.GitlabModels.{
  GitLabAuditReport, GitLabCiConfigSnapshot, GitLabCiImageReference, GitLabProtectedBranchRule,
  GitLabFinding, GitLabProjectSnapshot,
}
use cloudops_guard.Ingestion.Models.{DateTime}
use cloudops_guard.Audit.Gitlab.{
  any_developer, any_force_push, evaluate_protected_branch_checks, rules_findings,
}
use cloudops_guard.Audit.GitlabSettings.{
  project_setting_checks, check_unlimited_git_clone_depth, check_redundant_pipelines_not_cancelled,
  check_developer_pipeline_variable_override, check_job_token_repository_push_allowed,
  check_public_jobs_on_non_public_project, check_pipeline_success_not_required,
  build_project_setting_finding, evaluate_project_setting_checks, run_project_checks, ProjectCheck,
}
use cloudops_guard.Audit.GitlabImages.{
  evaluate_ci_image_check, build_dynamic_ci_image_finding, keep, build_static_ci_image_finding,
  images_findings, build_ci_image_finding,
}
use cloudops_guard.Audit.GitlabEvaluator.{
  report_of, gitlab_findings, evaluate_gitlab, summarize_gitlab, summarize_gitlab_from, optional,
}
use cloudops_guard.Audit.Models.{Severity, total, AuditSummary}
use cloudops_guard.Audit.Evaluator.{count_severity}
use cloudops_guard.Audit.Evaluator.Summary.{
  Severity-discrete, field_of, field-count_severity, total-count_severity,
}
use cloudops_guard.Audit.GitlabTimeout.{evaluate_job_timeout_check, validate_job_timeout_threshold}

-- What a finding of an audit of this project at this time has.
abbrev pub Stamped : Text → DateTime → GitLabFinding → Type 0
Stamped project_path audited_at f = (f.project_path ≡ project_path) × (f.audited_at ≡ audited_at)

All-append {ℓ κ} :
    {A : Type ℓ} (P : A → Type κ) (xs ys : List A) → All P xs → All P ys → All P (xs ++ ys)
All-append P [] ys none_there q = q
All-append P (x ∷ xs) ys (p, ps) q = (p, All-append P xs ys ps q)

module _ (snapshot : GitLabProjectSnapshot) (at : DateTime) where
  abbrev Good : GitLabFinding → Type 0
  Good = Stamped snapshot.project.project_path at

  one-Stamped : (b : Bool) (f : GitLabFinding) → Good f → All Good (if b then f ∷ [] else [])
  one-Stamped true f good = (good, tt)
  one-Stamped false f good = tt

  rules-Stamped :
      (rules : List GitLabProtectedBranchRule) → All Good (rules_findings snapshot at rules)
  unfolding rules_findings
  rules-Stamped [] = ((refl, refl), tt)
  rules-Stamped (r ∷ rules) =
      All-append Good _ _ (one-Stamped (any_force_push (r ∷ rules)) _ (refl, refl))
        (one-Stamped (any_developer (r ∷ rules)) _ (refl, refl))

  branches-Stamped : All Good (evaluate_protected_branch_checks snapshot at)
  unfolding evaluate_protected_branch_checks
  branches-Stamped = rules-Stamped _

  abbrev IsStamping : ProjectCheck → Type 0
  IsStamping check = (f : GitLabFinding) → check snapshot at ≡ some f → Good f

  checks-Stamped :
      (checks : List ProjectCheck)
      → All IsStamping checks
      → All Good (run_project_checks checks snapshot at)
  unfolding run_project_checks
  checks-Stamped [] stamping = tt
  checks-Stamped (check ∷ checks) (now, later) = elim (Option-cases (check snapshot at)) [
    | inl none_eq ↦ rw (none_eq, run_project_checks) (checks-Stamped checks later)
    | inr (f, some_eq) ↦
        rw (some_eq, run_project_checks) (now f some_eq, checks-Stamped checks later)
  ]

  settings-Stamped : All Good (evaluate_project_setting_checks snapshot at)
  unfolding evaluate_project_setting_checks build_project_setting_finding
      check_pipeline_success_not_required check_public_jobs_on_non_public_project
      check_job_token_repository_push_allowed check_developer_pipeline_variable_override
      check_redundant_pipelines_not_cancelled check_unlimited_git_clone_depth
  settings-Stamped = checks-Stamped project_setting_checks (
    λ f e. ground (arith, e),
    (
      λ f e. ground (arith, e),
      (
        λ f e. ground (arith, e),
        (λ f e. ground (arith, e), (λ f e. ground (arith, e), (λ f e. ground (arith, e), tt))),
      ),
    ),
  )

  timeout-Stamped :
      (threshold : ℕ) (found : Option GitLabFinding)
      → evaluate_job_timeout_check snapshot at threshold ≡ ok found
      → All Good (optional found)
  unfolding evaluate_job_timeout_check build_project_setting_finding
  timeout-Stamped threshold none e = tt
  timeout-Stamped threshold (some f) e = (ground (arith, e), tt)

module _ (project_path : Text) (at : DateTime) where
  image-Stamped :
      (i : GitLabCiImageReference) (f : GitLabFinding)
      → build_ci_image_finding project_path i at ≡ ok (some f)
      → Stamped project_path at f
  unfolding build_ci_image_finding build_static_ci_image_finding build_dynamic_ci_image_finding
  image-Stamped i f e = ground (arith, e)

  keep-Stamped :
      (found : Option GitLabFinding) (rest : List GitLabFinding)
      → ((f : GitLabFinding) → found ≡ some f → Stamped project_path at f)
      → All (Stamped project_path at) rest
      → All (Stamped project_path at) (keep found rest)
  keep-Stamped none rest good all = all
  keep-Stamped (some f) rest good all = (good f refl, all)

  images-Stamped :
      (images : List GitLabCiImageReference) (fs : List GitLabFinding)
      → images_findings project_path images at ≡ ok fs
      → All (Stamped project_path at) fs
  unfolding images_findings
  images-Stamped [] fs e =
      let same : [] ≡ fs = ground (arith, e) in subst (All (Stamped project_path at)) same tt
  images-Stamped (i ∷ images) fs e =
      elim (Result-cases (build_ci_image_finding project_path i at)) [
        | inr (x, failed) ↦ ground (arith, e, failed)
        | inl (found, built) ↦ elim (Result-cases (images_findings project_path images at)) [
          | inr (x, failed) ↦ ground (arith, e, built, failed)
          | inl (rest, ok_rest) ↦
              let kept : keep found rest ≡ fs = ground (arith, e, built, ok_rest) in
              subst (All (Stamped project_path at)) kept (
                keep-Stamped found rest (λ f same. image-Stamped i f (built ∙ ap ok same))
                  (images-Stamped images rest ok_rest))
        ]
      ]

total-summarize_gitlab_from :
    (fs : List GitLabFinding) (a : AuditSummary)
    → total (summarize_gitlab_from a fs) ≡ total a + length fs
unfolding summarize_gitlab_from
total-summarize_gitlab_from [] a = omega arith
total-summarize_gitlab_from (f ∷ fs) a = omega (
  arith,
  total-summarize_gitlab_from fs (count_severity f.severity a),
  total-count_severity f.severity a,
)

total-summarize_gitlab : (fs : List GitLabFinding) → total (summarize_gitlab fs) ≡ length fs
unfolding summarize_gitlab
total-summarize_gitlab fs =
    omega (
      arith,
      total-summarize_gitlab_from fs (record { critical = 0; high = 0; medium = 0; low = 0 }),
    )

-- the findings of a severity
abbrev pub gitlab_of_severity : Severity → List GitLabFinding → ℕ
gitlab_of_severity s [] = 0
gitlab_of_severity s (f ∷ fs) = ite (Severity-discrete f.severity s) 1 0 + gitlab_of_severity s fs

field-summarize_gitlab_from :
    (s : Severity) (fs : List GitLabFinding) (a : AuditSummary)
    → field_of s (summarize_gitlab_from a fs) ≡ gitlab_of_severity s fs + field_of s a
unfolding summarize_gitlab_from
field-summarize_gitlab_from s [] a = omega arith
field-summarize_gitlab_from s (f ∷ fs) a = omega (
  arith,
  field-summarize_gitlab_from s fs (count_severity f.severity a),
  field-count_severity s f.severity a,
)

field-summarize_gitlab :
    (fs : List GitLabFinding) (s : Severity)
    → field_of s (summarize_gitlab fs) ≡ gitlab_of_severity s fs
unfolding summarize_gitlab
field-summarize_gitlab fs s = grind (
  arith,
  field-summarize_gitlab_from s fs (record { critical = 0; high = 0; medium = 0; low = 0 }),
)

-- The summary has for each severity the number of the findings of that severity, and their total.
abbrev pub Counts : AuditSummary → List GitLabFinding → Type 0
Counts summary fs =
    ((s : Severity) → field_of s summary ≡ gitlab_of_severity s fs) × (total summary ≡ length fs)

evaluate_gitlab-eq_ok :
    (snapshot : GitLabProjectSnapshot) (ci : GitLabCiConfigSnapshot) (at : DateTime) (threshold : ℕ)
    (report : GitLabAuditReport)
    → evaluate_gitlab snapshot ci at threshold ≡ ok report
    → (ci.project_path ≡ snapshot.project.project_path)
      × ((timeout : Option GitLabFinding) × ((images : List GitLabFinding)
            × ((evaluate_job_timeout_check snapshot at threshold ≡ ok timeout)
                × ((images_findings ci.project_path ci.images at ≡ ok images)
                    × (report
                        ≡ report_of snapshot at (
                            evaluate_protected_branch_checks snapshot at
                            ++ (evaluate_project_setting_checks snapshot at
                                ++ (optional timeout ++ images))))))))
unfolding evaluate_gitlab gitlab_findings evaluate_ci_image_check
evaluate_gitlab-eq_ok snapshot ci at threshold report e =
    elim (Result-cases (evaluate_job_timeout_check snapshot at threshold)) [
      | inr (x, failed) ↦ ground (arith, e, failed)
      | inl (timeout, timed) ↦ elim (Result-cases (images_findings ci.project_path ci.images at)) [
        | inr (x, failed) ↦ ground (arith, e, timed, failed)
        | inl (images, imaged) ↦ (
          ground (arith, e),
          (timeout, (images, (timed, (imaged, ground (arith, e, timed, imaged))))),
        )
      ]
    ]

-- A report that `evaluate_gitlab` returns is of one project at one time: the two snapshots name the same
-- project, every finding has its path and the given time, as the report has, and the summary
-- has for each severity the number of the findings of that severity, and in total their number.
pub evaluate_gitlab_lem :
    (snapshot : GitLabProjectSnapshot) (ci : GitLabCiConfigSnapshot) (at : DateTime) (threshold : ℕ)
    (report : GitLabAuditReport)
    → evaluate_gitlab snapshot ci at threshold ≡ ok report
    → (report.project_path ≡ ci.project_path)
      × ((report.generated_at ≡ at)
          × (All (Stamped report.project_path at) report.findings
              × Counts report.summary report.findings))
evaluate_gitlab_lem snapshot ci at threshold report e =
    let (same, (timeout, (images, (timed, (imaged, is))))) =
      evaluate_gitlab-eq_ok snapshot ci at threshold report e in
    let path = snapshot.project.project_path in
    let of_images : All (Stamped path at) images =
      subst (λ p. All (Stamped p at) images) same
        (images-Stamped ci.project_path at ci.images images imaged) in
    let all = All-append (Stamped path at) _ _ (branches-Stamped snapshot at) (
      All-append (Stamped path at) _ _ (settings-Stamped snapshot at) (
        All-append (Stamped path at) _ _ (timeout-Stamped snapshot at threshold timeout timed)
          of_images)) in
    subst
      (λ r.
        (r.project_path ≡ ci.project_path)
        × ((r.generated_at ≡ at)
            × (All (Stamped r.project_path at) r.findings × Counts r.summary r.findings)))
      (sym is) (sym same, (refl, (all, (field-summarize_gitlab _, total-summarize_gitlab _))))

-- A static reference has an image, as `GitLabCiImageReference` checks.
abbrev pub IsFormed : GitLabCiImageReference → Type 0
IsFormed i = i.dynamic || is_some i.image ≡ true

images_findings-total :
    (path : Text) (at : DateTime) (images : List GitLabCiImageReference)
    → All IsFormed images
    → (fs : List GitLabFinding) × (images_findings path images at ≡ ok fs)
unfolding images_findings build_ci_image_finding build_static_ci_image_finding
images_findings-total path at [] formed = ([], refl)
images_findings-total path at (i ∷ images) (now, later) =
    let (fs, rest) = images_findings-total path at images later in
    elim (Result-cases (build_ci_image_finding path i at)) [
      | inl (found, built) ↦ (keep found fs, ground (arith, built, rest))
      | inr (x, failed) ↦ ground (arith, now, failed)
    ]

timeout-total :
    (snapshot : GitLabProjectSnapshot) (at : DateTime) (n : ℕ)
    → (found : Option GitLabFinding) × (evaluate_job_timeout_check snapshot at (suc n) ≡ ok found)
unfolding evaluate_job_timeout_check validate_job_timeout_threshold
timeout-total snapshot at n = elim (Result-cases (evaluate_job_timeout_check snapshot at (suc n))) [
  | inl found ↦ found
  | inr (x, failed) ↦ ground (arith, failed)
]

-- With a timezone-aware time, two snapshots of the same project and a positive threshold,
-- `evaluate_gitlab` returns a report.
pub evaluate_gitlab_total :
    (snapshot : GitLabProjectSnapshot) (ci : GitLabCiConfigSnapshot) (at : DateTime) (threshold : ℕ)
    → at.aware ≡ true
    → ci.project_path ≡ snapshot.project.project_path
    → 1 ≤ threshold
    → All IsFormed ci.images
    → (report : GitLabAuditReport) × (evaluate_gitlab snapshot ci at threshold ≡ ok report)
unfolding evaluate_gitlab gitlab_findings evaluate_ci_image_check
evaluate_gitlab_total snapshot ci at zero aware same positive formed = ground (arith, positive)
evaluate_gitlab_total snapshot ci at (suc n) aware same positive formed =
    let (images, imaged) = images_findings-total ci.project_path at ci.images formed in
    let (timeout, timed) = timeout-total snapshot at n in
    (
      report_of snapshot at (
          evaluate_protected_branch_checks snapshot at
          ++ (evaluate_project_setting_checks snapshot at ++ (optional timeout ++ images))),
      ground (arith, aware, same, imaged, timed),
    )
