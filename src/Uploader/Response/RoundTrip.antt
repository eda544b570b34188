-- ===== src/Uploader/Response/RoundTrip.antt =====
-- What the server writes for a submission, read by the client.
use cloudops_guard.Prelude.{
  ◌++◌, none, ◌==◌, if◌then◌else◌, Bool, true, false, some, [], ◌∷◌, ◌≡◌, ◌≢◌, refl, ◌∙◌, ap, arith,
  ite, ℕ_discrete,
}
use cloudops_guard.Prelude.Text.{text, Text, ◌≟◌, text_eq, Text-discrete}
use cloudops_guard.Prelude.Codes.{Code, http_status, code_text, status_of_text}
use cloudops_guard.Prelude.Json.{member_names, Json, Members, member, no_members, lookup_member}
use cloudops_guard.Http.Responses.{
  error_of, error_response, status_value, format_timestamp, status_field, fingerprint_field,
  received_at_field, ingestion_id_field, record_body, ok_response, ok_field, error_field,
  request_id_field,
}
use cloudops_guard.Uploader.Timestamp.{is_received_at}
use cloudops_guard.Uploader.Response.{
  interpret_body, interpret_response, UploadOutcome, success_of, accepted, mismatch,
  require_str_field, require_bool_field, parse_success_envelope, parse_error_envelope, is_tagged,
  ingestion_tag, request_tag, sha256_tag, received_value, is_success, is_documented_error,
  require_exact_fields, nonempty_string,
}
use cloudops_guard.Uploader.Response.Written.{IsHex, IsMoment, hex-is_tagged, written-read}
use cloudops_guard.Uploader.Response.Understood.{
  success_members, exact_success, success_ids, ingestion_id-valid, request_id-valid,
  received_at-valid, fingerprint-valid, nonempty,
}
use cloudops_guard.Http.Handlers.{submitted}
use cloudops_guard.Prelude.Result.{
  upload_transport_error, Exn, Result, fingerprint_mismatch_error, err, ok,
}
use cloudops_guard.Http.{Response, Environment}
use cloudops_guard.Ingestion.Models.{received, IngestionRecord}
use cloudops_guard.Ingestion.Blobs.{Bytes}

string_field :
    (ms : Members) (name t : Text)
    → lookup_member name ms ≡ some (Json.string t)
    → t ≢ []
    → require_str_field ms name ≡ accepted t
unfolding require_str_field
string_field ms name t e h = ap nonempty_string e ∙ nonempty t h

received_nonempty : received_value ≢ []
unfolding received_value
received_nonempty = ground arith

module _ (i q t f u : Text) (created : Bool) (i_ok : is_tagged ingestion_tag 32 i ≡ true)
    (q_ok : is_tagged request_tag 32 q ≡ true) (t_ok : is_received_at t ≡ true)
    (f_ok : is_tagged sha256_tag 64 f ≡ true) where
  parse_success :
      parse_success_envelope (Json.object (success_members i q t f received_value)) u created
      ≡ ite
          (f ≟ u)
          (accepted (record {
            created = created;
            ingestion_id = i;
            request_id = q;
            status = received_value;
            report_fingerprint = f;
          }))
          mismatch
  unfolding parse_success_envelope require_bool_field
  parse_success =
      let (found_ok, (found_i, (found_q, (found_t, (found_f, found_s))))) =
        success_ids i q t f received_value in
      let (i_valid, i_some) = ingestion_id-valid i i_ok in
      let (q_valid, q_some) = request_id-valid q q_ok in
      let (t_valid, t_some) = received_at-valid t t_ok in
      let (f_valid, f_some) = fingerprint-valid f u f_ok in
      let ms = success_members i q t f received_value in
      rw
        (
          exact_success i q t f received_value,
          found_ok,
          string_field ms _ i found_i i_some,
          string_field ms _ q found_q q_some,
          string_field ms _ t found_t t_some,
          string_field ms _ f found_f f_some,
          string_field ms _ received_value found_s received_nonempty,
          i_valid,
          q_valid,
          t_valid,
          f_valid,
        )
        (ground arith)

code_known :
    (c : Code)
    → (status_of_text (code_text c) ≡ some (http_status c))
      × ((is_documented_error (http_status c) ≡ true) × (is_success (http_status c) ≡ false))
unfolding status_of_text code_text http_status is_documented_error is_success Text-discrete
    ℕ_discrete
code_known Code.invalid_request = (refl, (refl, refl))
code_known Code.invalid_report = (refl, (refl, refl))
code_known Code.unsupported_report_schema_version = (refl, (refl, refl))
code_known Code.unsupported_api_version = (refl, (refl, refl))
code_known Code.unauthorized = (refl, (refl, refl))
code_known Code.forbidden = (refl, (refl, refl))
code_known Code.not_found = (refl, (refl, refl))
code_known Code.method_not_allowed = (refl, (refl, refl))
code_known Code.unsupported_content_type = (refl, (refl, refl))
code_known Code.unsupported_content_encoding = (refl, (refl, refl))
code_known Code.payload_too_large = (refl, (refl, refl))
code_known Code.too_many_requests = (refl, (refl, refl))
code_known Code.internal_error = (refl, (refl, refl))

code_nonempty : (c : Code) → code_text c ≢ []
unfolding code_text
code_nonempty c = ground arith

abbrev error_members : Text → Text → Members
error_members error_code q = member ok_field (Json.boolean false) (
    member error_field (Json.string error_code)
      (member request_id_field (Json.string q) no_members))

module _ (e q : Text) where
  exact_error :
      require_exact_fields
        (Json.object (error_members e q))
        (ok_field ∷ error_field ∷ request_id_field ∷ [])
      ≡ accepted (error_members e q)
  unfolding require_exact_fields member_names ok_field error_field request_id_field Text-discrete
      ℕ_discrete
  exact_error = refl

  error_fields :
      (lookup_member ok_field (error_members e q) ≡ some (Json.boolean false))
      × ((lookup_member error_field (error_members e q) ≡ some (Json.string e))
          × (lookup_member request_id_field (error_members e q) ≡ some (Json.string q)))
  unfolding lookup_member ok_field error_field request_id_field Text-discrete ℕ_discrete
  error_fields = (refl, (refl, refl))

parse_error :
    (c : Code) (q : Text)
    → is_tagged request_tag 32 q ≡ true
    → parse_error_envelope (Json.object (error_members (code_text c) q)) (http_status c)
      ≡ accepted (code_text c, q)
unfolding parse_error_envelope require_bool_field
parse_error c q q_ok =
    let (found_ok, (found_e, found_q)) = error_fields (code_text c) q in
    let (q_valid, q_some) = request_id-valid q q_ok in
    let ms = error_members (code_text c) q in
    rw
      (
        exact_error (code_text c) q,
        found_ok,
        string_field ms _ (code_text c) found_e (code_nonempty c),
        string_field ms _ q found_q q_some,
        q_valid,
        (code_known c).0,
      )
      (ground arith)

pub submitted-ok :
    (env : Environment) (r : IngestionRecord) (created : Bool)
    → submitted env (ok (r, created))
      ≡ ok (record {
        status = if created then 201 else 200;
        allow = none;
        body = member ok_field (Json.boolean true) (record_body env r);
      })
unfolding submitted ok_response record_body lookup_member ok_field request_id_field
    ingestion_id_field received_at_field fingerprint_field status_field Text-discrete ℕ_discrete
submitted-ok env r created = refl

outcome_of :
    (o : UploadOutcome) (t u : Text)
    → success_of (ite (t ≟ u) (accepted o) mismatch)
      ≡ ite (t ≟ u) (ok o) (err fingerprint_mismatch_error)
outcome_of o t u = ground arith

status_created :
    (created : Bool)
    → (is_success (if created then 201 else 200) ≡ true)
      × (((if created then 201 else 200) == 201) ≡ created)
unfolding is_success
status_created true = (refl, refl)
status_created false = (refl, refl)

body_of :
    (env : Environment) (r : IngestionRecord)
    → r.status ≡ received
    → member ok_field (Json.boolean true) (record_body env r)
      ≡ success_members r.ingestion_id env.request_id
          (format_timestamp env r.received_at)
          r.report_fingerprint
          received_value
unfolding record_body status_value received_value
body_of env r fresh =
    ap
      (λ s.
        success_members r.ingestion_id env.request_id (format_timestamp env r.received_at)
          r.report_fingerprint (status_value s))
      fresh

interpret_success :
    (decode : Bytes → Result Json) (b : Bytes) (body : Json) (created : Bool) (u : Text)
    → decode b ≡ ok body
    → interpret_response decode (record { status = if created then 201 else 200; body = b }) u
      ≡ success_of (parse_success_envelope body u created)
unfolding interpret_response interpret_body is_success
interpret_success decode b body true u e = rw e refl
interpret_success decode b body false u e = rw e refl

answered :
    (env : Environment) (r : IngestionRecord) (created : Bool) (response : Response)
    → submitted env (ok (r, created)) ≡ ok response
    → response ≡ record {
      status = if created then 201 else 200;
      allow = none;
      body = member ok_field (Json.boolean true) (record_body env r);
    }
answered env r created response sent = ground (arith, sent, submitted-ok env r created)

-- with the client's own checks of what was written
understood :
    (env : Environment) (r : IngestionRecord) (created : Bool) (response : Response)
    (strict_decode : Bytes → Result Json) (b : Bytes) (expected : Text)
    → submitted env (ok (r, created)) ≡ ok response
    → strict_decode b ≡ ok (Json.object response.body)
    → r.status ≡ received
    → is_tagged ingestion_tag 32 r.ingestion_id ≡ true
    → is_tagged request_tag 32 env.request_id ≡ true
    → is_received_at (format_timestamp env r.received_at) ≡ true
    → is_tagged sha256_tag 64 r.report_fingerprint ≡ true
    → interpret_response strict_decode (record { status = response.status; body = b }) expected
      ≡ ite
          (r.report_fingerprint ≟ expected)
          (ok (record {
            created = created;
            ingestion_id = r.ingestion_id;
            request_id = env.request_id;
            status = received_value;
            report_fingerprint = r.report_fingerprint;
          }))
          (err fingerprint_mismatch_error)
understood env r created response decode b expected sent decoded fresh i_ok q_ok t_ok f_ok =
    let answer = answered env r created response sent in
    ap
      (λ (x : Response).
        interpret_response decode (record { status = x.status; body = b }) expected)
      answer
    ∙ interpret_success decode b _ created expected (
        decoded
        ∙ ap (λ (x : Response). ok (Json.object x.body)) answer
        ∙ ap (λ ms. ok (Json.object ms)) (body_of env r fresh))
    ∙ ap success_of (
        parse_success r.ingestion_id env.request_id (format_timestamp env r.received_at)
          r.report_fingerprint expected created i_ok q_ok t_ok f_ok)
    ∙ outcome_of _ r.report_fingerprint expected

-- A submission that the server accepted with a received record is understood by the client, whichever way
-- the body is written as long as it decodes to what the server meant: the outcome names the record and
-- whether it is new, or, where the server stored another fingerprint than the client expected, the
-- mismatch is raised. The identifiers and the fingerprint are a prefix and hexadecimal digits, and
-- `isoformat` gives a moment in UTC in its documented form.
pub success_understood :
    (env : Environment) (r : IngestionRecord) (created : Bool) (response : Response)
    (strict_decode : Bytes → Result Json) (b : Bytes) (expected i q f moment : Text)
    → submitted env (ok (r, created)) ≡ ok response
    → strict_decode b ≡ ok (Json.object response.body)
    → r.status ≡ received
    → r.ingestion_id ≡ text "ing_" ++ i
    → IsHex 32 i
    → env.request_id ≡ text "req_" ++ q
    → IsHex 32 q
    → env.isoformat r.received_at ≡ moment ++ text "+00:00"
    → IsMoment moment
    → r.report_fingerprint ≡ text "sha256:" ++ f
    → IsHex 64 f
    → interpret_response strict_decode (record { status = response.status; body = b }) expected
      ≡ ite
          (r.report_fingerprint ≟ expected)
          (ok (record {
            created = created;
            ingestion_id = r.ingestion_id;
            request_id = env.request_id;
            status = received_value;
            report_fingerprint = r.report_fingerprint;
          }))
          (err fingerprint_mismatch_error)
unfolding ingestion_tag request_tag sha256_tag
success_understood env r created response decode b expected i q f moment sent decoded fresh named
      hex asked hex' iso dated printed hex'' =
    understood env r created response decode b expected sent decoded fresh
      (ap (is_tagged ingestion_tag 32) named ∙ hex-is_tagged ingestion_tag 32 i hex)
      (ap (is_tagged request_tag 32) asked ∙ hex-is_tagged request_tag 32 q hex')
      (written-read env r.received_at moment iso dated)
      (ap (is_tagged sha256_tag 64) printed ∙ hex-is_tagged sha256_tag 64 f hex'')

-- Every error response of the server is understood by the client: the transport error that it raises
-- names exactly the code and the request id of the server.
pub error_understood :
    (e : Exn) (request_id : Text) (strict_decode : Bytes → Result Json) (b : Bytes)
    (expected : Text)
    → is_tagged request_tag 32 request_id ≡ true
    → strict_decode b ≡ ok (Json.object (error_response e request_id).body)
    → interpret_response strict_decode
        (record { status = (error_response e request_id).status; body = b })
        expected
      ≡ err (upload_transport_error (some (code_text (error_of e).0, request_id)))
unfolding error_response interpret_response interpret_body
error_understood e q decode b expected q_ok decoded =
    let c = (error_of e).0 in
    rw ((code_known c).1.1, (code_known c).1.0, decoded, (code_known c).1.1, parse_error c q q_ok)
      refl
