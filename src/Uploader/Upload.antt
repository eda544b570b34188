-- ===== src/Uploader/Upload.antt =====
-- uploader/service.py, confirmation.py and credentials.py: one upload, with what it does outside in the
-- order in which it does it.
pub mod Order
use cloudops_guard.Prelude.{
  ℕ, leb, ◌==◌, Bool, true, false, ◌&&◌, ◌||◌, not, Option, none, some, List, [], ◌∷◌, ◌++◌, ite,
  if◌then◌else◌,
}
use cloudops_guard.Prelude.Text.{Text, text, ◌≟◌, text_eq}
use cloudops_guard.Prelude.Result.{
  Result, ok, err, Exn, confirmation_aborted, non_interactive_confirmation_required,
  credential_error, token_format_error, end_of_input, keyboard_interrupt, other,
}
use cloudops_guard.Prelude.Json.{Members}
use cloudops_guard.Ingestion.Blobs.{Bytes}
use cloudops_guard.Ingestion.Tokens.{parse_token}
use cloudops_guard.Http.{Environment}
use cloudops_guard.Uploader.Hostname.{Parsers}
use cloudops_guard.Uploader.Endpoint.{validate_endpoint}
use cloudops_guard.Uploader.LocalReport.{
  Opened, LocalReport, load_and_validate_local_report, build_request_body,
}
use cloudops_guard.Uploader.Response.{TransportResponse, UploadOutcome, interpret_response}

-- The summary is printed, a line is asked for, the credential is read, a request is sent with its URL,
-- its `Authorization` value and its body.
pub data Event : Type 0 where
  printed asked credential_read : Event
  posted : Text → Text → Bytes → Event

-- The command line, and what the outside says: the file, the terminal, the environment variable and the
-- transport.
pub record Client : Type 0 where
  pub lib : Parsers
  pub env : Environment
  pub endpoint_raw : Text
  pub dry_run : Bool
  pub yes_flag : Bool
  pub opened : Opened
  pub interactive : Bool
  pub line : Result Text
  pub variable : Option Text
  pub dumps : Members → Result Bytes
  pub transport : Text → Text → Bytes → Result TransportResponse

-- `UploadResult`
pub record UploadResult : Type 0 where
  pub was_dry_run : Bool
  pub report : LocalReport
  pub outcome : Option UploadOutcome

unfoldable pub confirmation_phrase : Text
unfolding text
confirmation_phrase = text "UPLOAD"

abbrev aborted : Exn → Exn
aborted end_of_input = confirmation_aborted
aborted keyboard_interrupt = confirmation_aborted
aborted e = e

-- the answer to the prompt
unfoldable pub check_answer : Result Text → Result (Unit {0})
check_answer (err e) = err (aborted e)
check_answer (ok answer) = ite (answer ≟ confirmation_phrase) (ok tt) (err confirmation_aborted)

-- `request_confirmation`: whether it asks, and how it ends
unfoldable pub request_confirmation : Client → List Event × Result (Unit {0})
request_confirmation c =
    if not c.interactive
    then ([], err non_interactive_confirmation_required)
    else (asked ∷ [], check_answer c.line)

-- what `str.strip` takes off
unfoldable pub is_space : ℕ → Bool
is_space c =
    leb 9 c && leb c 13
    || leb 28 c && leb c 32
    || c == 133
    || c == 160
    || c == 5760
    || leb 8192 c && leb c 8202
    || c == 8232
    || c == 8233
    || c == 8239
    || c == 8287
    || c == 12288

abbrev all_space : Text → Bool
all_space [] = true
all_space (c ∷ t) = is_space c && all_space t

-- `except TokenFormatError`
abbrev structured {ℓ} : {A : Type ℓ} → Text → Result A → Result Text
structured value (ok p) = ok value
structured value (err token_format_error) = err credential_error
structured value (err e) = err e

-- `load_ingestion_token`
unfoldable pub load_ingestion_token : Option Text → Result Text
load_ingestion_token none = err credential_error
load_ingestion_token (some value) =
    if all_space value then err credential_error else structured value (parse_token value)

unfoldable pub bearer_value : Text → Text
unfolding text
bearer_value token = text "Bearer " ++ token

-- what happened before, then what comes next
abbrev pub after {ℓ} : {A : Type ℓ} → List Event → List Event × Result A → List Event × Result A
after events (more, r) = (events ++ more, r)

abbrev finished : LocalReport → Result UploadOutcome → Result UploadResult
finished report (err e) = err e
finished report (ok o) = ok (record { was_dry_run = false; report = report; outcome = some o })

-- the response of the transport
unfoldable pub interpreted : Client → LocalReport → Result TransportResponse → Result UploadResult
interpreted c report (err e) = err e
interpreted c report (ok response) =
    finished report (interpret_response c.env.strict_decode response report.fingerprint)

-- the request, once the body is built
unfoldable pub send : Client → Text → LocalReport → Text → List Event × Result UploadResult
send c endpoint report token = elim (build_request_body c.dumps report) [
  | err e ↦ ([], err e)
  | ok body ↦ (
    posted endpoint (bearer_value token) body ∷ [],
    interpreted c report (c.transport endpoint (bearer_value token) body),
  )
]

-- from the credential on
unfoldable pub with_credential : Client → Text → LocalReport → List Event × Result UploadResult
with_credential c endpoint report = elim (load_ingestion_token c.variable) [
  | err e ↦ (credential_read ∷ [], err e)
  | ok token ↦ after (credential_read ∷ []) (send c endpoint report token)
]

-- from the confirmation on
unfoldable pub confirmed : Client → Text → LocalReport → List Event × Result UploadResult
confirmed c endpoint report =
    if c.yes_flag
    then with_credential c endpoint report
    else let (events, answer) = request_confirmation c in
      elim answer [
        | err e ↦ (events, err e)
        | ok u ↦ after events (with_credential c endpoint report)
      ]

-- after both validations
unfoldable pub validated_upload : Client → Text → LocalReport → List Event × Result UploadResult
validated_upload c endpoint report = after (printed ∷ []) (
    if c.dry_run
    then ([], ok (record { was_dry_run = true; report = report; outcome = none }))
    else confirmed c endpoint report)

-- `run_upload`; the two flags are never both set, and the assertion says so
unfoldable pub run_upload : Client → List Event × Result UploadResult
run_upload c =
    if c.dry_run && c.yes_flag
    then ([], err other)
    else elim (validate_endpoint c.lib c.endpoint_raw) [
      | err e ↦ ([], err e)
      | ok endpoint ↦ elim (load_and_validate_local_report c.env c.opened) [
        | err e ↦ ([], err e)
        | ok report ↦ validated_upload c endpoint report
      ]
    ]
