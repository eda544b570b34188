-- ===== src/Tests/Uploader.antt =====
-- The theorems on uploader/ at concrete inputs.
use cloudops_guard.Prelude.{inl, false, ℕ_discrete, true, none, some, [], ◌∷◌, ◌++◌, ◌≡◌, refl, ite}
use cloudops_guard.Prelude.Text.{Text, text, ◌≟◌, text_eq, Text-discrete, drop_prefix}
use cloudops_guard.Prelude.Codes.{Code, code_text}
use cloudops_guard.Prelude.Result.{
  ok, err, api_error, upload_transport_error, fingerprint_mismatch_error,
}
use cloudops_guard.Prelude.Json.{no_members, Json, Members, member}
use cloudops_guard.Ingestion.Models.{IngestionRecord, received}
use cloudops_guard.Http.{Environment}
use cloudops_guard.Http.Responses.{error_response, error_of, ok_field, record_body}
use cloudops_guard.Uploader.Timestamp.{fits, is_calendar, number, skip, days_in_month, is_leap}
use cloudops_guard.Uploader.Response.{
  interpret_response, is_tagged, all_hex, ingestion_tag, request_tag, sha256_tag, received_value,
}
use cloudops_guard.Uploader.Response.RoundTrip.{success_understood, error_understood, submitted-ok}
use cloudops_guard.Prelude.Text.{has_char}
use cloudops_guard.Prelude.Json.{lookup_member}
use cloudops_guard.Prelude.Result.{other}
use cloudops_guard.Ingestion.Tokens.{
  split, parse_token, two_parts, matches_url_safe, matches_rest, is_url_safe, print_token,
}
use cloudops_guard.Ingestion.Tokens
use cloudops_guard.Uploader.Endpoint
use cloudops_guard.Uploader.Hostname.{
  SplitResult, Parsers, validate_hostname, validate_dns_hostname, is_digits_and_dots,
  looks_like_legacy_numeric_ipv4, is_legacy_component, check_labels, is_dns_label,
}
use cloudops_guard.Uploader.Endpoint.{
  https, http, required_path, validate_endpoint, has_forbidden, endpoint_of, check_port, build_url,
  scheme_mark, authority_of,
}
use cloudops_guard.Uploader.Endpoint.Sound.{IsEndpoint, validate_endpoint_sound}
use cloudops_guard.Uploader.Transport.{post}
use cloudops_guard.Uploader.LocalReport.{
  handle, load_and_validate_local_report, read_report, dispatch_platform, local_report,
  build_request_body,
}
use cloudops_guard.Http.Validation.{
  validate_report, is_supported_version, assert_findings_count_within_limit,
  assert_report_bytes_within_limit, assert_summary_matches, severity_counts,
}
use cloudops_guard.Uploader.Upload.{
  Client, run_upload, confirmation_phrase, validated_upload, confirmed, request_confirmation,
  check_answer, with_credential, load_ingestion_token, is_space, send,
}
use cloudops_guard.Uploader.Upload.Order.{Sent, sends, sends_only_agreed}
use cloudops_guard.Tests.Auth.{parsed}
use cloudops_guard.Tests.Metadata.{acme, at_time}
use cloudops_guard.Tests.Http.{environment}

abbrev eight : Text
eight = 48 ∷ 49 ∷ 50 ∷ 51 ∷ 97 ∷ 98 ∷ 99 ∷ 100 ∷ []

abbrev digits_32 : Text
digits_32 = eight ++ eight ++ eight ++ eight

abbrev request_id : Text
unfolding request_tag
request_id = request_tag ++ digits_32

abbrev ingestion_id : Text
unfolding ingestion_tag
ingestion_id = ingestion_tag ++ digits_32

abbrev fingerprint : Text
unfolding sha256_tag
fingerprint = sha256_tag ++ digits_32 ++ digits_32

abbrev env : Environment
unfolding text
env = record environment {
  request_id = request_id;
  isoformat = λ t. text "2024-02-29T12:30:00+00:00";
}

abbrev stored : IngestionRecord
stored = record {
  tenant_id = acme;
  ingestion_id = ingestion_id;
  report_fingerprint = fingerprint;
  received_at = at_time 100;
  status = received;
  reason = none;
  retired_at = none;
  deleted_at = none;
}

abbrev success_body : Members
success_body = member ok_field (Json.boolean true) (record_body env stored)

success_understood_example :
    interpret_response
      (λ b. ok (Json.object success_body))
      (record { status = 201; body = [] })
      fingerprint
    ≡ ite
        (fingerprint ≟ fingerprint)
        (ok (record {
          created = true;
          ingestion_id = ingestion_id;
          request_id = request_id;
          status = received_value;
          report_fingerprint = fingerprint;
        }))
        (err fingerprint_mismatch_error)
unfolding ingestion_tag request_tag sha256_tag all_hex fits is_calendar number skip days_in_month
    is_leap text
success_understood_example =
    success_understood env stored true (record { status = 201; allow = none; body = success_body })
      (λ b. ok (Json.object success_body)) [] fingerprint digits_32 digits_32
      (digits_32 ++ digits_32) (text "2024-02-29T12:30:00") (submitted-ok env stored true) refl refl
      refl (refl, refl) refl (refl, refl) refl (inl refl, refl) refl (refl, refl)

error_understood_example :
    interpret_response
      (λ b. ok (Json.object (error_response (api_error Code.not_found none) request_id).body))
      (record {
        status = (error_response (api_error Code.not_found none) request_id).status;
        body = [];
      })
      fingerprint
    ≡ err (
        upload_transport_error
          (some (code_text (error_of (api_error Code.not_found none)).0, request_id)))
unfolding is_tagged drop_prefix all_hex request_tag
error_understood_example =
    error_understood (api_error Code.not_found none) request_id
      (λ b. ok (Json.object (error_response (api_error Code.not_found none) request_id).body)) []
      fingerprint refl refl

abbrev parts : SplitResult
unfolding https required_path
parts = record {
  scheme = https;
  netloc = 104 ∷ [];
  path = required_path;
  query = [];
  fragment = [];
  username = none;
  password = none;
  hostname = ok (some (104 ∷ []));
  port = ok none;
}

abbrev parsers : Parsers
parsers = record { urlsplit = λ t. ok parts; ip_address = λ t. none }

abbrev endpoint : Text
unfolding text
endpoint = text "https://h/api/v1/reports"

abbrev client : Client
unfolding confirmation_phrase
client = record {
  lib = parsers;
  env = record env { strict_decode = λ b. ok (Json.object no_members) };
  endpoint_raw = endpoint;
  dry_run = false;
  yes_flag = false;
  opened = handle (some (true, 2)) (ok (123 ∷ 125 ∷ []));
  interactive = true;
  line = ok confirmation_phrase;
  variable = some (print_token parsed);
  dumps = λ ms. ok (123 ∷ 125 ∷ []);
  transport = λ url value body. post (err other);
}

validate_endpoint_sound_example : IsEndpoint parsers endpoint endpoint
unfolding validate_endpoint has_forbidden Endpoint.check_parts endpoint_of validate_hostname
    has_char validate_dns_hostname is_digits_and_dots looks_like_legacy_numeric_ipv4 split
    is_legacy_component check_labels is_dns_label check_port build_url scheme_mark authority_of http
    https required_path Text-discrete ℕ_discrete
validate_endpoint_sound_example = validate_endpoint_sound parsers endpoint endpoint refl

sends_only_agreed_example : Sent client (run_upload client).0
unfolding run_upload sends validate_endpoint has_forbidden Endpoint.check_parts endpoint_of
    validate_hostname has_char validate_dns_hostname is_digits_and_dots
    looks_like_legacy_numeric_ipv4 split is_legacy_component check_labels is_dns_label check_port
    build_url scheme_mark authority_of http https required_path Text-discrete ℕ_discrete
    load_and_validate_local_report read_report dispatch_platform lookup_member local_report
    validate_report is_supported_version assert_findings_count_within_limit
    assert_report_bytes_within_limit assert_summary_matches severity_counts validated_upload
    confirmed request_confirmation check_answer confirmation_phrase with_credential
    load_ingestion_token is_space parse_token two_parts Tokens.check_parts matches_url_safe
    matches_rest is_url_safe send build_request_body
sends_only_agreed_example = sends_only_agreed client refl
