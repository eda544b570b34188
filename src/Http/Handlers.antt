-- ===== src/Http/Handlers.antt =====
-- ingestion_api/app.py: authentication of a request, and the handlers.
use cloudops_guard.Prelude.{Bool, Option, none, some, if◌then◌else◌}
use cloudops_guard.Prelude.Text.{drop_prefix, Text, text, text_eq, Key}
use cloudops_guard.Prelude.Codes.{Code}
use cloudops_guard.Prelude.Utf8.{decode_utf8}
use cloudops_guard.Prelude.Result.{
  Result, ok, err, ◌>>=◌, authentication_failed, authorization_failed, rate_limited,
  idempotency_key_conflict, strict_json_rejected, report_fingerprint_error,
}
use cloudops_guard.Prelude.Json.{Members}
use cloudops_guard.Ingestion.Models.{
  TokenScope, reports_write, reports_read, reports_delete, customer_requested, IngestionRecord,
}
use cloudops_guard.Ingestion.Blobs.{Bytes}
use cloudops_guard.Ingestion.Limits.{
  check_capabilities_allowed, check_and_record_capabilities_request,
}
use cloudops_guard.Ingestion.Auth.{Principal, authenticate, authorize}
use cloudops_guard.Ingestion.Metadata
use cloudops_guard.Ingestion.Metadata.Lifecycle.{mark_retired}
use cloudops_guard.Api.Coordinator.{create_ingestion}
use cloudops_guard.Http.{HttpRequest, Response, Server, Environment, Step}
use cloudops_guard.Http.Headers.{
  reject, require_exactly_one_header, assert_exact_json_content_type, assert_no_content_encoding,
  assert_content_length_singleton, validate_declared_content_length, read_bounded_body,
}
use cloudops_guard.Http.Envelope.{ReportEnvelope, parse_envelope}
use cloudops_guard.Http.Validation.{max_request_body_bytes, validate_report}
use cloudops_guard.Http.Responses.{ok_response, record_body, deletion_body, capabilities_body}

unfoldable pub authorization_name : Bytes
unfolding text
authorization_name = text "authorization"

unfoldable pub bearer : Text
unfolding text
bearer = text "Bearer "

unfoldable pub unknown : Text
unfolding text
unknown = text "unknown"

abbrev host : Option Text → Text
host none = unknown
host (some h) = h

-- `_peer_source_identifier`
unfoldable pub peer_source_identifier : Environment → HttpRequest → Text
peer_source_identifier env q = elim env.source_identifier_resolver [
  | none ↦ host q.client
  | some resolve ↦ resolve q
]

abbrev bearer_token : Option Text → Result Text
bearer_token none = reject Code.unauthorized
bearer_token (some header) = elim (drop_prefix bearer header) [
  | none ↦ reject Code.unauthorized
  | some token ↦ ok token
]

-- the token of the one `Authorization` header
unfoldable pub presented_token : HttpRequest → Result Text
presented_token q = elim (require_exactly_one_header q authorization_name Code.unauthorized) [
  | err e ↦ err e
  | ok header ↦ bearer_token (decode_utf8 header)
]

-- the two `except` clauses of `_authenticate`
unfoldable pub mapped {ℓ} : {A : Type ℓ} → Result A → Result A
mapped (err authentication_failed) = reject Code.unauthorized
mapped (err rate_limited) = reject Code.too_many_requests
mapped r = r

-- `_authenticate`
unfoldable pub authenticate_request : Environment → HttpRequest → Server → Step Principal
authenticate_request env q s = elim (presented_token q) [
  | err e ↦ (err e, s)
  | ok token ↦
      let (r, c) = authenticate env.verify token (peer_source_identifier env q) s.auth in
      (mapped r, record s { auth = c })
]

abbrev forbid : Result (Unit {0}) → Result (Unit {0})
forbid (err authorization_failed) = reject Code.forbidden
forbid r = r

-- `_authorize`
unfoldable pub authorize_request : Principal → TokenScope → Result (Unit {0})
authorize_request p required_scope = forbid (authorize p required_scope)

abbrev granted : TokenScope → Result Principal → Result Principal
granted required_scope (err e) = err e
granted required_scope (ok p) = authorize_request p required_scope >>= (λ u. ok p)

-- `_authenticate`, then `_authorize`, as each protected handler calls them
unfoldable pub admit_request : Environment → HttpRequest → TokenScope → Server → Step Principal
admit_request env q required_scope s =
    let (r, s') = authenticate_request env q s in (granted required_scope r, s')

-- `_check_capabilities_rate_limits_blocking`
unfoldable pub check_capabilities_rate_limits : Environment → HttpRequest → Server → Step (Unit {0})
check_capabilities_rate_limits env q s =
    let source = peer_source_identifier env q in
    elim (check_capabilities_allowed source s.auth.source_limiter) [
      | err e ↦ (mapped (err e), s)
      | ok u ↦
          let (r, limiter) =
            check_and_record_capabilities_request source s.capabilities_rate_limiter in
          (mapped r, record s { capabilities_rate_limiter = limiter })
    ]

-- `_handle_capabilities`, past its method
unfoldable pub capabilities : Environment → HttpRequest → Server → Step Response
capabilities env q s =
    let (r, s') = check_capabilities_rate_limits env q s in
    (r >>= (λ u. ok_response (capabilities_body env) 200), s')

-- the `ApiError` that stands for the exception of the strict decoder and of the fingerprint
abbrev pub refused {ℓ} : {A : Type ℓ} → Result A → Result A
refused (err strict_json_rejected) = reject Code.invalid_request
refused (err report_fingerprint_error) = reject Code.invalid_request
refused r = r

-- `except IdempotencyKeyConflict`, then the body and the status
unfoldable pub submitted : Environment → Result (IngestionRecord × Bool) → Result Response
submitted env (err idempotency_key_conflict) = reject Code.invalid_request
submitted env (err e) = err e
submitted env (ok (r, created)) = ok_response (record_body env r) (if created then 201 else 200)

-- decoding and validation: the envelope with the bytes that are stored
unfoldable pub validated : Environment → Bytes → Result (ReportEnvelope × Bytes)
validated env raw_body =
    refused (env.strict_decode raw_body)
    >>= (λ decoded. parse_envelope decoded)
    >>= (λ v. validate_report env v >>= (λ u. env.compact_report v.report >>= (λ b. ok (v, b))))

-- `create_ingestion` of a validated envelope
unfoldable pub store_report :
    Environment → Principal → ReportEnvelope × Bytes → Server → Step (IngestionRecord × Bool)
store_report env p (v, b) s =
    let fingerprint = refused (env.fingerprint v.platform v.report_schema_version v.report) in
    let (r, w) =
      create_ingestion env.attempts p.tenant_id fingerprint b v.idempotency_key s.world in
    (r, record s { world = w })

-- `_ingest_report_blocking`
unfoldable pub ingest_report : Environment → Principal → Bytes → Server → Step Response
ingest_report env p raw_body s = elim (validated env raw_body) [
  | err e ↦ (err e, s)
  | ok v ↦ let (r, s') = store_report env p v s in (submitted env r, s')
]

-- the checks of `_handle_reports_collection` that read the headers alone
unfoldable pub check_headers : HttpRequest → Result (Unit {0})
check_headers q =
    assert_exact_json_content_type q
    >>= (λ u. assert_no_content_encoding q)
    >>= (λ u. assert_content_length_singleton q)
    >>= (λ u. validate_declared_content_length q max_request_body_bytes)

-- the body is read, then stored
unfoldable pub receive_report : Environment → HttpRequest → Principal → Server → Step Response
receive_report env q p s =
    let (r, s') = read_bounded_body q max_request_body_bytes s in
    elim r [ err e ↦ (err e, s') | ok raw_body ↦ ingest_report env p raw_body s' ]

-- `_handle_reports_collection`, past its method
unfoldable pub reports_collection : Environment → HttpRequest → Server → Step Response
reports_collection env q s = elim (check_headers q) [
  | err e ↦ (err e, s)
  | ok u ↦
      let (r, s') = admit_request env q reports_write s in
      elim r [ err e ↦ (err e, s') | ok p ↦ receive_report env q p s' ]
]

abbrev found : (IngestionRecord → Members) → Option IngestionRecord → Result Response
found body none = reject Code.not_found
found body (some r) = ok_response (body r) 200

-- `config.metadata_store.get` for a principal
unfoldable pub read_record : Environment → Key → Server → Step Response
read_record env key s =
    let (r, m) = Metadata.get env.later key s.world.metadata in
    (r >>= found (record_body env), record s { world = record s.world { metadata = m } })

-- `config.clock()`, then `config.metadata_store.mark_retired` for a principal
unfoldable pub retire_record : Environment → Key → Server → Step Response
retire_record env key s = elim env.clock [
  | err e ↦ (err e, s)
  | ok now ↦
      let (r, m) = mark_retired env.later key now customer_requested s.world.metadata in
      (r >>= found (deletion_body env), record s { world = record s.world { metadata = m } })
]

-- `_get_report_item_blocking`
unfoldable pub get_report_item : Environment → HttpRequest → Text → Server → Step Response
get_report_item env q ingestion_id s =
    let (r, s') = admit_request env q reports_read s in
    elim r [ err e ↦ (err e, s') | ok p ↦ read_record env (p.tenant_id, ingestion_id) s' ]

-- `_delete_report_item_blocking`
unfoldable pub delete_report_item : Environment → HttpRequest → Text → Server → Step Response
delete_report_item env q ingestion_id s =
    let (r, s') = admit_request env q reports_delete s in
    elim r [ err e ↦ (err e, s') | ok p ↦ retire_record env (p.tenant_id, ingestion_id) s' ]
