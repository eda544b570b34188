-- ===== src/Prelude/Codes.antt =====
-- ingestion_api/errors.py: the error codes of the HTTP contract, with the status of each.
use cloudops_guard.Prelude.Text.{◌≟◌, text_eq, Text, text}
use Prim.Native.Nat.{ℕ}
use mathlib.Core.List.{List, [], ◌∷◌}
use mathlib.Core.Logic.{ite}
use mathlib.Core.Option.{Option, none, some}

-- the constants, in the order of `HTTP_STATUS_BY_CODE`
pub data Code : Type 0 where
  invalid_request invalid_report unsupported_report_schema_version : Code
  unsupported_api_version unauthorized forbidden not_found method_not_allowed : Code
  unsupported_content_type unsupported_content_encoding payload_too_large : Code
  too_many_requests internal_error : Code

-- `HTTP_STATUS_BY_CODE`
unfoldable pub http_status : Code → ℕ
http_status invalid_request = 400
http_status invalid_report = 400
http_status unsupported_report_schema_version = 400
http_status unsupported_api_version = 404
http_status unauthorized = 401
http_status forbidden = 403
http_status not_found = 404
http_status method_not_allowed = 405
http_status unsupported_content_type = 415
http_status unsupported_content_encoding = 415
http_status payload_too_large = 413
http_status too_many_requests = 429
http_status internal_error = 500

-- the text of each constant; `too_many_requests` is `RATE_LIMITED`
unfoldable pub code_text : Code → Text
unfolding text
code_text invalid_request = text "invalid_request"
code_text invalid_report = text "invalid_report"
code_text unsupported_report_schema_version = text "unsupported_report_schema_version"
code_text unsupported_api_version = text "unsupported_api_version"
code_text unauthorized = text "unauthorized"
code_text forbidden = text "forbidden"
code_text not_found = text "not_found"
code_text method_not_allowed = text "method_not_allowed"
code_text unsupported_content_type = text "unsupported_content_type"
code_text unsupported_content_encoding = text "unsupported_content_encoding"
code_text payload_too_large = text "payload_too_large"
code_text too_many_requests = text "rate_limited"
code_text internal_error = text "internal_error"

-- the keys of `HTTP_STATUS_BY_CODE`
abbrev pub all_codes : List Code
all_codes =
    invalid_request ∷ invalid_report ∷ unsupported_report_schema_version ∷ unsupported_api_version
    ∷ unauthorized ∷ forbidden ∷ not_found ∷ method_not_allowed ∷ unsupported_content_type
    ∷ unsupported_content_encoding ∷ payload_too_large ∷ too_many_requests ∷ internal_error ∷ []

abbrev find_status : Text → List Code → Option ℕ
find_status t [] = none
find_status t (c ∷ cs) = ite (code_text c ≟ t) (some (http_status c)) (find_status t cs)

-- `HTTP_STATUS_BY_CODE.get`
unfoldable pub status_of_text : Text → Option ℕ
status_of_text t = find_status t all_codes
