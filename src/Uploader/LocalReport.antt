-- ===== src/Uploader/LocalReport.antt =====
-- uploader/local_report.py and uploader/envelope.py: the report that is sent, and the request around it.
use cloudops_guard.Prelude.{ℕ, ◌+◌, ltb, Bool, not, Option, none, some, ite, if◌then◌else◌, length}
use cloudops_guard.Prelude.Text.{Text, text, ◌≟◌, text_eq}
use cloudops_guard.Prelude.Result.{
  Result, ok, err, ◌>>=◌, api_error, local_report_error, strict_json_rejected,
  report_fingerprint_error, value_error,
}
use cloudops_guard.Prelude.Json.{
  Json, Members, Items, member, no_members, lookup_member, count_items,
}
use cloudops_guard.Audit.Models.{AuditSummary}
use cloudops_guard.Ingestion.Blobs.{Bytes}
use cloudops_guard.Http.{Environment}
use cloudops_guard.Http.Envelope.{
  kubernetes, gitlab, platform_field, version_field, report_field, ReportEnvelope,
}
use cloudops_guard.Http.Validation.{
  max_report_bytes, max_request_body_bytes, findings_field, validate_report, no_counts,
}

-- How `path.open("rb")` and what is done with the handle end: a directory, no such file, another
-- `OSError`, or the kind and size that `fstat` tells, if it does, with the bytes that are read.
pub data Opened : Type 0 where
  is_directory not_found unreadable : Opened
  handle : Option (Bool × ℕ) → Result Bytes → Opened

-- `LocalReport`
pub record LocalReport : Type 0 where
  pub platform : Text
  pub report : Members
  pub file_size_bytes : ℕ
  pub finding_count : ℕ
  pub severity_counts : AuditSummary
  pub fingerprint : Text

abbrev unusable {ℓ} : {A : Type ℓ} → Result A
unusable = err local_report_error

abbrev marked : Option Json → Result Text
marked none = ok kubernetes
marked (some (Json.string t)) = ite (t ≟ gitlab) (ok gitlab) unusable
marked (some v) = unusable

-- `_dispatch_platform`, with the object that it found
unfoldable pub dispatch_platform : Json → Result (Text × Members)
dispatch_platform (Json.object ms) = marked (lookup_member platform_field ms) >>= (λ p. ok (p, ms))
dispatch_platform v = unusable

unfoldable pub severity_field : Text
unfolding text
severity_field = text "severity"

unfoldable pub count_text : Text → AuditSummary → AuditSummary
unfolding text
count_text t a =
    ite (t ≟ text "critical") (record a { critical = a.critical + 1 })
      (ite (t ≟ text "high") (record a { high = a.high + 1 })
        (ite (t ≟ text "medium") (record a { medium = a.medium + 1 })
          (ite (t ≟ text "low") (record a { low = a.low + 1 }) a)))

abbrev count_value : Option Json → AuditSummary → AuditSummary
count_value (some (Json.string t)) a = count_text t a
count_value _ a = a

abbrev count_finding : Json → AuditSummary → AuditSummary
count_finding (Json.object ms) a = count_value (lookup_member severity_field ms) a
count_finding v a = a

unfoldable pub count_findings : Items → AuditSummary → AuditSummary
count_findings Items.done a = a
count_findings (Items.item v vs) a = count_findings vs (count_finding v a)

-- `_severity_counts`
unfoldable pub severities_of : Option Json → AuditSummary
severities_of (some (Json.array vs)) = count_findings vs no_counts
severities_of _ = no_counts

abbrev findings_count : Option Json → ℕ
findings_count (some (Json.array vs)) = count_items vs
findings_count _ = 0

-- the bytes of the file
unfoldable pub read_report : Opened → Result Bytes
read_report is_directory = unusable
read_report not_found = unusable
read_report unreadable = unusable
read_report (handle none content) = unusable
read_report (handle (some (is_regular, size)) content) =
    if not is_regular
    then unusable
    else if ltb max_report_bytes size
    then unusable
    else elim content [
      | err e ↦ unusable
      | ok raw ↦ if ltb max_report_bytes (length raw) then unusable else ok raw
    ]

-- `except StrictJsonRejected`
abbrev decoded_or_unusable {ℓ} : {A : Type ℓ} → Result A → Result A
decoded_or_unusable (err strict_json_rejected) = unusable
decoded_or_unusable r = r

-- `except ApiError`
abbrev valid_or_unusable {ℓ} : {A : Type ℓ} → Result A → Result A
valid_or_unusable (err (api_error code allow)) = unusable
valid_or_unusable r = r

-- `except ReportFingerprintError`
abbrev printed_or_unusable {ℓ} : {A : Type ℓ} → Result A → Result A
printed_or_unusable (err report_fingerprint_error) = unusable
printed_or_unusable r = r

abbrev sent_as : Text → Members → ReportEnvelope
sent_as platform report = record {
  platform = platform;
  report_schema_version = Json.whole 1;
  report = report;
  idempotency_key = none;
}

-- the checks of the decoded report, and what they say about it
unfoldable pub local_report : Environment → Bytes → Text → Members → Result LocalReport
local_report env raw platform report =
    valid_or_unusable (validate_report env (sent_as platform report))
    >>= (λ u. printed_or_unusable (env.fingerprint platform (Json.whole 1) report))
    >>= (λ fingerprint. ok (record {
      platform = platform;
      report = report;
      file_size_bytes = length raw;
      finding_count = findings_count (lookup_member findings_field report);
      severity_counts = severities_of (lookup_member findings_field report);
      fingerprint = fingerprint;
    }))

unfoldable pub load_and_validate_local_report : Environment → Opened → Result LocalReport
load_and_validate_local_report env opened = read_report opened >>= (λ raw.
    decoded_or_unusable (env.strict_decode raw)
    >>= (λ decoded. dispatch_platform decoded)
    >>= (λ found. local_report env raw found.0 found.1))

-- `envelope` of `build_request_body`
unfoldable pub request_envelope : LocalReport → Members
request_envelope r =
    member platform_field (Json.string r.platform)
      (member version_field (Json.whole 1) (member report_field (Json.object r.report) no_members))

-- `build_request_body`; `dumps` is `json.dumps` with the encoding of its text, where the first raises
-- `ValueError`
unfoldable pub build_request_body : (Members → Result Bytes) → LocalReport → Result Bytes
build_request_body dumps r = elim (dumps (request_envelope r)) [
  | err value_error ↦ unusable
  | err e ↦ err e
  | ok body ↦ if ltb max_request_body_bytes (length body) then unusable else ok body
]
