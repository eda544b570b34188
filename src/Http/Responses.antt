-- ===== src/Http/Responses.antt =====
-- ingestion_api/responses.py, and the bodies that app.py builds.
use cloudops_guard.Prelude.{ℕ, Option, none, some, [], ◌∷◌, ite, true, false}
use cloudops_guard.Prelude.Text.{Text, text, ◌≟◌, text_eq}
use cloudops_guard.Prelude.Codes.{Code, http_status, code_text}
use cloudops_guard.Prelude.Result.{Result, ok, err, api_error, value_error, Exn}
use cloudops_guard.Prelude.Json.{Json, Items, Members, no_members, lookup_member, member}
use cloudops_guard.Ingestion.Models.{
  DateTime, IngestionStatus, received, retired, deleted, RetirementReason, customer_requested,
  retention_expired, IngestionRecord,
}
use cloudops_guard.Http.{Environment, Response}
use cloudops_guard.Http.Envelope.{kubernetes, gitlab}
use cloudops_guard.Http.Validation.{
  max_report_bytes, max_request_body_bytes, max_findings_per_report,
}

unfoldable pub ok_field : Text
unfolding text
ok_field = text "ok"

unfoldable pub error_field : Text
unfolding text
error_field = text "error"

unfoldable pub request_id_field : Text
unfolding text
request_id_field = text "request_id"

unfoldable pub ingestion_id_field : Text
unfolding text
ingestion_id_field = text "ingestion_id"

unfoldable pub received_at_field : Text
unfolding text
received_at_field = text "received_at"

unfoldable pub fingerprint_field : Text
unfolding text
fingerprint_field = text "report_fingerprint"

unfoldable pub status_field : Text
unfolding text
status_field = text "status"

-- `IngestionStatus.value`
unfoldable pub status_value : IngestionStatus → Text
unfolding text
status_value received = text "received"
status_value retired = text "retired"
status_value deleted = text "deleted"

-- `RetirementReason.value`
unfoldable pub reason_value : RetirementReason → Text
unfolding text
reason_value customer_requested = text "customer_requested"
reason_value retention_expired = text "retention_expired"

-- the code and the `Allow` header of an exception: any that is not an `ApiError` is an internal error
unfoldable pub error_of : Exn → Code × Option Text
error_of (api_error code allow) = (code, allow)
error_of e = (Code.internal_error, none)

-- `error_response`
unfoldable pub error_response : Exn → Text → Response
error_response e request_id =
    let (code, allow) = error_of e in
    record {
      status = http_status code;
      allow = allow;
      body = member ok_field (Json.boolean false) (
          member error_field (Json.string (code_text code))
            (member request_id_field (Json.string request_id) no_members));
    }

-- `ok_response`
unfoldable pub ok_response : Members → ℕ → Result Response
ok_response body status_code = elim (lookup_member ok_field body) [
  | some v ↦ err value_error
  | none ↦ ok (record {
    status = status_code;
    allow = none;
    body = member ok_field (Json.boolean true) body;
  })
]

unfoldable pub utc_offset : Text
unfolding text
utc_offset = text "+00:00"

-- `text[:-len("+00:00")] + "Z"`, if the text has this end
unfoldable pub zulu : Text → Text
zulu [] = []
zulu (c ∷ t) = let rest = zulu t in ite ((c ∷ t) ≟ utc_offset) (90 ∷ []) (c ∷ rest)

-- `_format_timestamp`
unfoldable pub format_timestamp : Environment → DateTime → Text
format_timestamp env t = zulu (env.isoformat t)

-- the body of a submission and of a read
unfoldable pub record_body : Environment → IngestionRecord → Members
record_body env r = member ingestion_id_field (Json.string r.ingestion_id) (
    member request_id_field (Json.string env.request_id) (
      member received_at_field (Json.string (format_timestamp env r.received_at)) (
        member fingerprint_field (Json.string r.report_fingerprint)
          (member status_field (Json.string (status_value r.status)) no_members))))

abbrev time_or_null : Environment → Option DateTime → Json
time_or_null env none = Json.null
time_or_null env (some t) = Json.string (format_timestamp env t)

abbrev reason_or_null : Option RetirementReason → Json
reason_or_null none = Json.null
reason_or_null (some why) = Json.string (reason_value why)

-- the body of a deletion
unfoldable pub deletion_body : Environment → IngestionRecord → Members
unfolding text
deletion_body env r = member ingestion_id_field (Json.string r.ingestion_id) (
    member request_id_field (Json.string env.request_id) (
      member status_field (Json.string (status_value r.status)) (
        member (text "reason") (reason_or_null r.reason) (
          member (text "retired_at") (time_or_null env r.retired_at)
            (member (text "deleted_at") (time_or_null env r.deleted_at) no_members)))))

abbrev only_one : Json
only_one = Json.array (Items.item (Json.whole 1) Items.done)

-- the body of the capabilities
unfoldable pub capabilities_body : Environment → Members
unfolding text
capabilities_body env = member (text "api_version") (Json.string (text "v1")) (
    member request_id_field (Json.string env.request_id) (
      member (text "supported_report_schema_versions")
        (Json.object (member kubernetes only_one (member gitlab only_one no_members)))
        (member (text "max_report_bytes") (Json.whole max_report_bytes) (
          member (text "max_request_body_bytes") (Json.whole max_request_body_bytes) (
            member (text "max_findings_per_report") (Json.whole max_findings_per_report)
              no_members)))))
