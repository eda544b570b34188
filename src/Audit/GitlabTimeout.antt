-- ===== src/Audit/GitlabTimeout.antt =====
-- checks/gitlab.py: the check of the job timeout of a project.
use Prim.Native.Nat.{◌/◌, ◌%◌}
use cloudops_guard.Prelude.{ℕ, zero, suc, Option, none, some, [], ◌++◌, leb, ◌==◌, if◌then◌else◌}
use cloudops_guard.Audit.Models.{medium}
use cloudops_guard.Audit.GitlabModels.{GitLabFinding, GitLabProjectSnapshot}
use cloudops_guard.Prelude.Text.{decimal, text, Text}
use cloudops_guard.Ingestion.Models.{DateTime}
use cloudops_guard.Prelude.Result.{ok, value_error, err, Result}
use cloudops_guard.Audit.GitlabSettings.{build_project_setting_finding}

-- A negative threshold is refused like 0.
unfoldable pub validate_job_timeout_threshold : ℕ → Result ℕ
validate_job_timeout_threshold zero = err value_error
validate_job_timeout_threshold (suc n) = ok (suc n)

abbrev counted : ℕ → Text → Text
counted n unit = decimal n ++ unit ++ (if n == 1 then [] else text "s")

unfoldable pub format_seconds_as_minutes : ℕ → Text
format_seconds_as_minutes total_seconds =
    let minutes = total_seconds / 60 in
    let seconds = total_seconds % 60 in
    if seconds == 0
    then counted minutes (text " minute")
    else counted minutes (text " minute") ++ text " " ++ counted seconds (text " second")

unfoldable pub evaluate_job_timeout_check :
    GitLabProjectSnapshot → DateTime → ℕ → Result (Option GitLabFinding)
evaluate_job_timeout_check snapshot audited_at job_timeout_threshold_seconds =
    elim (validate_job_timeout_threshold job_timeout_threshold_seconds) [
      | err e ↦ err e
      | ok threshold ↦
          if leb snapshot.project.build_timeout threshold
          then ok none
          else ok (
              some (
                build_project_setting_finding (text "GL-REL-001")
                  (text "Project job timeout exceeds a configurable threshold") medium snapshot
                  (text "Configured project job timeout: "
                    ++ decimal snapshot.project.build_timeout
                    ++ text " seconds ("
                    ++ format_seconds_as_minutes snapshot.project.build_timeout
                    ++ text "). Configured audit threshold: "
                    ++ decimal threshold
                    ++ text " seconds ("
                    ++ format_seconds_as_minutes threshold
                    ++ text ").")
                  (text "An excessively long job timeout lets a hung job occupy a runner "
                    ++ text "slot for longer, delaying feedback and potentially increasing "
                    ++ text "compute cost.")
                  (text "Lower the project's default job timeout to a value appropriate "
                    ++ text "for normal jobs, and use job-level timeout overrides only for "
                    ++ text "legitimately long-running work. Projects with intentionally "
                    ++ text "long builds may choose a higher threshold.")
                  audited_at))
    ]
