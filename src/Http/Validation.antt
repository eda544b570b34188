-- ===== src/Http/Validation.antt =====
-- ingestion_api/report_validation.py and limits.py: the validation of a report before it is stored.
use Prim.Native.Nat.{◌*◌}
use cloudops_guard.Prelude.{
  ℕ, ◌+◌, ltb, ◌==◌, Bool, false, ◌&&◌, ◌||◌, not, Option, some, List, [], ◌∷◌, if◌then◌else◌,
  length,
}
use cloudops_guard.Prelude.Text.{Text, text}
use cloudops_guard.Prelude.Codes.{Code}
use cloudops_guard.Prelude.Result.{Result, ok, err, validation_error}
use cloudops_guard.Prelude.Json.{Json, lookup_member, count_items}
use cloudops_guard.Audit.Models.{Severity, AuditSummary}
use cloudops_guard.Ingestion.Blobs.{Bytes}
use cloudops_guard.Http.{Environment}
use cloudops_guard.Http.Headers.{reject}
use cloudops_guard.Http.Envelope.{ReportEnvelope}

abbrev pub max_report_bytes : ℕ
max_report_bytes = 10 * 1_048_576

abbrev pub max_request_body_bytes : ℕ
max_request_body_bytes = max_report_bytes + 4096

abbrev pub max_findings_per_report : ℕ
max_findings_per_report = 10_000

-- `version in (1,)`, where `1.0` equals `1`; the two platforms have the same versions
unfoldable pub is_supported_version : Json → Bool
is_supported_version (Json.whole n) = n == 1
is_supported_version (Json.float below n d) = not below && n == 1 && d == 1
is_supported_version _ = false

unfoldable pub findings_field : Text
unfolding text
findings_field = text "findings"

-- `_assert_findings_count_within_limit`
unfoldable pub assert_findings_count_within_limit : Option Json → Result (Unit {0})
assert_findings_count_within_limit (some (Json.array xs)) =
    if ltb max_findings_per_report (count_items xs) then reject Code.invalid_report else ok tt
assert_findings_count_within_limit _ = ok tt

-- `_assert_report_bytes_within_limit`
unfoldable pub assert_report_bytes_within_limit : Result Bytes → Result (Unit {0})
assert_report_bytes_within_limit (err e) = err e
assert_report_bytes_within_limit (ok b) =
    if ltb max_report_bytes (length b) then reject Code.payload_too_large else ok tt

abbrev pub no_counts : AuditSummary
no_counts = record { critical = 0; high = 0; medium = 0; low = 0 }

abbrev count_one : Severity → AuditSummary → AuditSummary
count_one Severity.critical a = record a { critical = a.critical + 1 }
count_one Severity.high a = record a { high = a.high + 1 }
count_one Severity.medium a = record a { medium = a.medium + 1 }
count_one Severity.low a = record a { low = a.low + 1 }

-- `_severity_counts`
unfoldable pub severity_counts : AuditSummary → List Severity → AuditSummary
severity_counts a [] = a
severity_counts a (s ∷ ss) = severity_counts (count_one s a) ss

-- `_assert_summary_matches`
unfoldable pub assert_summary_matches : AuditSummary → List Severity → Result (Unit {0})
assert_summary_matches summary severities =
    let counts = severity_counts no_counts severities in
    if not (summary.critical == counts.critical)
      || not (summary.high == counts.high)
      || not (summary.medium == counts.medium)
      || not (summary.low == counts.low)
    then reject Code.invalid_report
    else ok tt

-- `except ValidationError`
abbrev parsed : Result (AuditSummary × List Severity) → Result (Unit {0})
parsed (ok (summary, severities)) = assert_summary_matches summary severities
parsed (err validation_error) = reject Code.invalid_report
parsed (err e) = err e

unfoldable pub validate_report : Environment → ReportEnvelope → Result (Unit {0})
validate_report env v =
    if not (is_supported_version v.report_schema_version)
    then reject Code.unsupported_report_schema_version
    else elim (assert_findings_count_within_limit (lookup_member findings_field v.report)) [
      | err e ↦ err e
      | ok u ↦ elim (assert_report_bytes_within_limit (env.compact_report v.report)) [
        | err e ↦ err e
        | ok w ↦ parsed (env.parse_report v.platform v.report)
      ]
    ]
