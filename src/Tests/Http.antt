-- ===== src/Tests/Http.antt =====
-- The theorems on ingestion_api/app.py at concrete inputs: a report is submitted with a token.
use cloudops_guard.Prelude.{◌≤◌, ◌<◌, true, false, none, some, [], ◌∷◌, ◌++◌, ◌≡◌, ◌⊎◌, ◌↔◌, length}
use cloudops_guard.Prelude.Text.{Text, has_char, text_eq, key_eq}
use cloudops_guard.Prelude.Dict
use cloudops_guard.Prelude.Codes.{Code}
use cloudops_guard.Prelude.Result.{ok}
use cloudops_guard.Prelude.Json.{Json, Members, member, no_members}
use cloudops_guard.Api.Requests.{new_world}
use cloudops_guard.Api.Tenants.{Untouched}
use cloudops_guard.Ingestion.Auth.{Principal}
use cloudops_guard.Ingestion.Models.{TokenScope}
use cloudops_guard.Ingestion.Tokens.{print_token, split}
use cloudops_guard.Http.{Environment, HttpRequest, Server}
use cloudops_guard.Http.Headers.{content_type_name, application_json, read_chunks, reject}
use cloudops_guard.Http.Envelope.{kubernetes, platform_field, version_field, report_field}
use cloudops_guard.Http.Validation.{no_counts}
use cloudops_guard.Http.Handlers.{authorization_name, bearer, admit_request}
use cloudops_guard.Http.Dispatch.{
  app, post_method, route_of, to_capabilities, to_reports, to_item, is_empty,
}
use cloudops_guard.Http.Access.{app_refines, Performed}
use cloudops_guard.Http.Isolation.{tenant_isolation}
use cloudops_guard.Http.Body.{body_unread, MayBeRead, joined, read_chunks_lem}
use cloudops_guard.Http.Routes.{routes_exact, reports_path, capabilities_path}
use cloudops_guard.Tests.Auth.{coordinator, parsed}
use cloudops_guard.Tests.Metadata.{acme, id_a, print_1, at_time}
use cloudops_guard.Tests.Service.{source}

abbrev pub envelope : Members
unfolding platform_field version_field report_field kubernetes
envelope =
    member platform_field (Json.string kubernetes) (
      member version_field (Json.whole 1) (member report_field (Json.object no_members) no_members))

abbrev pub environment : Environment
environment = record {
  verify = λ s h. ok true;
  source_identifier_resolver = none;
  strict_decode = λ b. ok (Json.object envelope);
  parse_report = λ platform report. ok (no_counts, []);
  compact_report = λ report. ok (123 ∷ 125 ∷ []);
  fingerprint = λ platform version report. ok print_1;
  isoformat = λ t. [];
  attempts = source;
  clock = ok (at_time 100);
  later = 100;
  request_id = 114 ∷ [];
}

abbrev submission : HttpRequest
unfolding post_method reports_path content_type_name application_json authorization_name bearer
submission = record {
  method = post_method;
  path = reports_path;
  headers =
      (content_type_name, application_json)
      ∷ (authorization_name, bearer ++ print_token parsed)
      ∷ [];
  client = some (49 ∷ []);
}

abbrev server : Server
server = record {
  world = new_world 1000;
  auth = coordinator;
  capabilities_rate_limiter = record { threshold = 1; request_counts = Dict.empty };
  pending = (123 ∷ []) ∷ (125 ∷ []) ∷ [];
}

app_refines_example :
    ((app environment submission server).1.world ≡ server.world)
    ⊎ Performed environment submission server (app environment submission server).1
app_refines_example = app_refines environment submission server

tenant_isolation_example :
    Untouched (acme, id_a) server.world (app environment submission server).1.world
    ⊎ ((scope : TokenScope) × ((p : Principal) × (((admit_request environment submission scope
                server).0
              ≡ ok p)
            × (p.tenant_id ≡ acme))))
tenant_isolation_example = tenant_isolation environment submission server (acme, id_a)

body_unread_example :
    ((app environment submission server).1.pending ≡ server.pending)
    ⊎ MayBeRead environment submission server
body_unread_example = body_unread environment submission server

read_chunks_lem_example :
    ((length (joined server.pending) ≤ 2)
      × (read_chunks 2 0 [] server.pending ≡ (ok (joined server.pending), [])))
    ⊎ ((2 < length (joined server.pending))
        × ((read_chunks 2 0 [] server.pending).0 ≡ reject Code.payload_too_large))
read_chunks_lem_example = read_chunks_lem 2 server.pending

routes_exact_example :
    ((route_of (split b'/' reports_path) ≡ to_capabilities) ↔ (reports_path ≡ capabilities_path))
    × (((route_of (split b'/' reports_path) ≡ to_reports) ↔ (reports_path ≡ reports_path))
        × ((i : Text)
            → (route_of (split b'/' reports_path) ≡ to_item i) ↔ (
                (reports_path ≡ reports_path ++ b'/' ∷ i)
                × ((is_empty i ≡ false) × (has_char b'/' i ≡ false)))))
routes_exact_example = routes_exact reports_path
