-- ===== src/Http/Envelope.antt =====
-- ingestion_api/envelope.py: the closed envelope of a submitted report.
use cloudops_guard.Prelude.{ℕ, ltb, ◌==◌, not, Option, none, some, [], ◌∷◌, if◌then◌else◌, length}
use cloudops_guard.Prelude.Text.{Text, text, text_eq}
use cloudops_guard.Prelude.Codes.{Code}
use cloudops_guard.Prelude.Result.{Result, ok, err}
use cloudops_guard.Prelude.Json.{subset, one_of, Json, Members, lookup_member, member_names}
use cloudops_guard.Http.Headers.{reject}

-- `_MAX_IDEMPOTENCY_KEY_LENGTH`
abbrev pub max_idempotency_key_length : ℕ
max_idempotency_key_length = 200

unfoldable pub platform_field : Text
unfolding text
platform_field = text "platform"

unfoldable pub version_field : Text
unfolding text
version_field = text "report_schema_version"

unfoldable pub report_field : Text
unfolding text
report_field = text "report"

unfoldable pub key_field : Text
unfolding text
key_field = text "idempotency_key"

unfoldable pub kubernetes : Text
unfolding text
kubernetes = text "kubernetes"

unfoldable pub gitlab : Text
unfolding text
gitlab = text "gitlab"

-- `ReportEnvelope`; the version is an `int` or a `float`
pub record ReportEnvelope : Type 0 where
  pub platform : Text
  pub report_schema_version : Json
  pub report : Members
  pub idempotency_key : Option Text

-- `isinstance(value, str) and value in _ALLOWED_PLATFORMS`
unfoldable pub platform_of : Option Json → Result Text
platform_of (some (Json.string t)) =
    if one_of t (kubernetes ∷ gitlab ∷ []) then ok t else reject Code.invalid_request
platform_of _ = reject Code.invalid_request

-- an `int`, or a `float` that is an integer
unfoldable pub version_of : Option Json → Result Json
version_of (some (Json.whole n)) = ok (Json.whole n)
version_of (some (Json.negative n)) = ok (Json.negative n)
version_of (some (Json.float below n d)) =
    if d == 1 then ok (Json.float below n d) else reject Code.invalid_request
version_of _ = reject Code.invalid_request

unfoldable pub report_of : Option Json → Result Members
report_of (some (Json.object ms)) = ok ms
report_of _ = reject Code.invalid_request

-- a missing key and `null` are both `None`
unfoldable pub key_of : Option Json → Result (Option Text)
key_of none = ok none
key_of (some Json.null) = ok none
key_of (some (Json.string t)) =
    if ltb max_idempotency_key_length (length t) then reject Code.invalid_request else ok (some t)
key_of (some _) = reject Code.invalid_request

-- the four fields, in the order of their checks
unfoldable pub parse_fields : Members → Result ReportEnvelope
parse_fields ms = elim (platform_of (lookup_member platform_field ms)) [
  | err e ↦ err e
  | ok platform ↦ elim (version_of (lookup_member version_field ms)) [
    | err e ↦ err e
    | ok version ↦ elim (report_of (lookup_member report_field ms)) [
      | err e ↦ err e
      | ok report ↦ elim (key_of (lookup_member key_field ms)) [
        | err e ↦ err e
        | ok key ↦ ok (record {
          platform = platform;
          report_schema_version = version;
          report = report;
          idempotency_key = key;
        })
      ]
    ]
  ]
]

-- the checks of the set of the keys
unfoldable pub parse_object : Members → Result ReportEnvelope
parse_object ms =
    if not
      (subset (member_names ms) (platform_field ∷ version_field ∷ report_field ∷ key_field ∷ []))
    then reject Code.invalid_request
    else if not (subset (platform_field ∷ version_field ∷ report_field ∷ []) (member_names ms))
    then reject Code.invalid_request
    else parse_fields ms

unfoldable pub parse_envelope : Json → Result ReportEnvelope
parse_envelope (Json.object ms) = parse_object ms
parse_envelope _ = reject Code.invalid_request
