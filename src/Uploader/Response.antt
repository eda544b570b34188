-- ===== src/Uploader/Response.antt =====
-- uploader/response.py: what the client takes from a response.
pub mod Understood
pub mod Written
pub mod RoundTrip
use cloudops_guard.Prelude.{
  ℕ, ltb, leb, ◌==◌, Bool, true, false, ◌&&◌, ◌||◌, not, Option, none, some, List, [], ◌∷◌, ite,
  if◌then◌else◌, length,
}
use cloudops_guard.Prelude.Text.{Text, text, ◌≟◌, text_eq, drop_prefix}
use cloudops_guard.Prelude.Codes.{Code, status_of_text, http_status, all_codes}
use cloudops_guard.Prelude.Result.{
  Result, ok, err, Exn, strict_json_rejected, upload_transport_error, fingerprint_mismatch_error,
}
use cloudops_guard.Prelude.Json.{Json, Members, lookup_member, member_names, subset}
use cloudops_guard.Ingestion.Blobs.{Bytes}
use cloudops_guard.Http.Responses.{
  ok_field, error_field, request_id_field, ingestion_id_field, received_at_field, fingerprint_field,
  status_field,
}
use cloudops_guard.Uploader.Timestamp.{is_received_at}

-- `TransportResponse`
pub record TransportResponse : Type 0 where
  pub status : ℕ
  pub body : Bytes

-- `UploadOutcome`
pub record UploadOutcome : Type 0 where
  pub created : Bool
  pub ingestion_id : Text
  pub request_id : Text
  pub status : Text
  pub report_fingerprint : Text

-- `_EnvelopeRejected`, or the mismatch that passes through
pub data Envelope {ℓ} (A : Type ℓ) : Type ℓ where
  accepted : A → Envelope A
  rejected mismatch : Envelope A

infixl 5 ◌then◌
abbrev pub ◌then◌ {ℓ κ} : {A : Type ℓ} {B : Type κ} → Envelope A → (A → Envelope B) → Envelope B
accepted a then next = next a
rejected then next = rejected
mismatch then next = mismatch

abbrev pub require : Bool → Envelope (Unit {0})
require true = accepted tt
require false = rejected

-- `_require_exact_fields`
unfoldable pub require_exact_fields : Json → List Text → Envelope Members
require_exact_fields (Json.object ms) names =
    if subset (member_names ms) names && subset names (member_names ms)
    then accepted ms
    else rejected
require_exact_fields _ names = rejected

abbrev pub nonempty_string : Option Json → Envelope Text
nonempty_string (some (Json.string (c ∷ t))) = accepted (c ∷ t)
nonempty_string _ = rejected

-- `_require_str_field`
unfoldable pub require_str_field : Members → Text → Envelope Text
require_str_field ms name = nonempty_string (lookup_member name ms)

abbrev same_bool : Bool → Bool → Bool
same_bool true b = b
same_bool false b = not b

abbrev pub expected_bool : Bool → Option Json → Envelope (Unit {0})
expected_bool expected (some (Json.boolean b)) = require (same_bool b expected)
expected_bool expected _ = rejected

-- `_require_bool_field`
unfoldable pub require_bool_field : Members → Text → Bool → Envelope (Unit {0})
require_bool_field ms name expected = expected_bool expected (lookup_member name ms)

-- `any(ord(ch) < 0x20 or ord(ch) == 0x7F for ch in value)`
unfoldable pub has_control : Text → Bool
has_control [] = false
has_control (c ∷ t) = ltb c 32 || c == 127 || has_control t

-- `[0-9a-f]*`
unfoldable pub all_hex : Text → Bool
all_hex [] = true
all_hex (c ∷ t) = (leb 48 c && leb c 57 || leb 97 c && leb c 102) && all_hex t

-- `fullmatch` of a prefix with this number of hexadecimal digits
unfoldable pub is_tagged : Text → ℕ → Text → Bool
is_tagged tag digits t = elim (drop_prefix tag t) [
  | none ↦ false
  | some rest ↦ length rest == digits && all_hex rest
]

unfoldable pub ingestion_tag : Text
unfolding text
ingestion_tag = text "ing_"

unfoldable pub request_tag : Text
unfolding text
request_tag = text "req_"

unfoldable pub sha256_tag : Text
unfolding text
sha256_tag = text "sha256:"

-- `_validate_ingestion_id`
unfoldable pub validate_ingestion_id : Text → Envelope (Unit {0})
validate_ingestion_id value = require (not (has_control value) && is_tagged ingestion_tag 32 value)

-- `_validate_request_id`
unfoldable pub validate_request_id : Text → Envelope (Unit {0})
validate_request_id value = require (not (has_control value) && is_tagged request_tag 32 value)

-- `_MAX_RECEIVED_AT_LENGTH`
abbrev pub max_received_at_length : ℕ
max_received_at_length = 40

-- `_validate_received_at`
unfoldable pub validate_received_at : Text → Envelope (Unit {0})
validate_received_at value = require (
    not (ltb max_received_at_length (length value))
    && not (has_control value)
    && is_received_at value)

-- `_validate_report_fingerprint`
unfoldable pub validate_report_fingerprint : Text → Text → Envelope (Unit {0})
validate_report_fingerprint value expected_fingerprint =
    require (not (has_control value) && is_tagged sha256_tag 64 value)
    then (λ u. ite (value ≟ expected_fingerprint) (accepted tt) mismatch)

unfoldable pub received_value : Text
unfolding text
received_value = text "received"

-- `_parse_success_envelope`
unfoldable pub parse_success_envelope : Json → Text → Bool → Envelope UploadOutcome
parse_success_envelope body expected_fingerprint created =
    require_exact_fields body (
      ok_field ∷ ingestion_id_field ∷ request_id_field ∷ received_at_field ∷ fingerprint_field
      ∷ status_field ∷ [])
    then (λ ms. require_bool_field ms ok_field true then (λ u.
        require_str_field ms ingestion_id_field then (λ ingestion_id.
          require_str_field ms request_id_field then (λ request_id.
            require_str_field ms received_at_field then (λ received_at.
              require_str_field ms fingerprint_field then (λ fingerprint.
                require_str_field ms status_field then (λ status.
                  validate_ingestion_id ingestion_id
                  then (λ u. validate_request_id request_id)
                  then (λ u. validate_received_at received_at)
                  then (λ u. require (ite (status ≟ received_value) true false))
                  then (λ u. validate_report_fingerprint fingerprint expected_fingerprint)
                  then (λ u. accepted (record {
                    created = created;
                    ingestion_id = ingestion_id;
                    request_id = request_id;
                    status = status;
                    report_fingerprint = fingerprint;
                  })))))))))

-- `_parse_error_envelope`: the error code and the request id
unfoldable pub parse_error_envelope : Json → ℕ → Envelope (Text × Text)
parse_error_envelope body status =
    require_exact_fields body (ok_field ∷ error_field ∷ request_id_field ∷ []) then (λ ms.
      require_bool_field ms ok_field false then (λ u.
        require_str_field ms error_field then (λ error_code.
          require_str_field ms request_id_field then (λ request_id.
            validate_request_id request_id then (λ u. elim (status_of_text error_code) [
              | none ↦ rejected
              | some expected ↦
                  if expected == status then accepted (error_code, request_id) else rejected
            ])))))

abbrev is_status_of : ℕ → List Code → Bool
is_status_of status [] = false
is_status_of status (c ∷ cs) = http_status c == status || is_status_of status cs

-- `_SUCCESS_STATUSES`
unfoldable pub is_success : ℕ → Bool
is_success status = status == 200 || status == 201

-- `_DOCUMENTED_ERROR_STATUSES`
unfoldable pub is_documented_error : ℕ → Bool
is_documented_error status = is_status_of status all_codes

-- `except _EnvelopeRejected`, of both kinds of envelope
abbrev pub success_of : Envelope UploadOutcome → Result UploadOutcome
success_of (accepted o) = ok o
success_of rejected = err (upload_transport_error none)
success_of mismatch = err fingerprint_mismatch_error

abbrev pub failure_of : Envelope (Text × Text) → Result UploadOutcome
failure_of (accepted named) = err (upload_transport_error (some named))
failure_of rejected = err (upload_transport_error none)
failure_of mismatch = err fingerprint_mismatch_error

-- the decoded body, by the status
unfoldable pub interpret_body : Json → ℕ → Text → Result UploadOutcome
interpret_body body status expected_fingerprint =
    if is_success status
    then success_of (parse_success_envelope body expected_fingerprint (status == 201))
    else failure_of (parse_error_envelope body status)

abbrev undecodable : Exn → Exn
undecodable strict_json_rejected = upload_transport_error none
undecodable e = e

-- `interpret_response`; `strict_decode` is `strict_decode_json`
unfoldable pub interpret_response :
    (Bytes → Result Json) → TransportResponse → Text → Result UploadOutcome
interpret_response strict_decode response expected_fingerprint =
    if not (is_success response.status || is_documented_error response.status)
    then err (upload_transport_error none)
    else elim (strict_decode response.body) [
      | err e ↦ err (undecodable e)
      | ok body ↦ interpret_body body response.status expected_fingerprint
    ]
