-- ===== src/Http/Dispatch.antt =====
-- ingestion_api/app.py: `_dispatch` and the application.
use cloudops_guard.Prelude.{Bool, true, false, ◌&&◌, not, some, List, [], ◌∷◌, ite, if◌then◌else◌}
use cloudops_guard.Prelude.Text.{Text, text, ◌≟◌, text_eq}
use cloudops_guard.Prelude.Codes.{Code}
use cloudops_guard.Prelude.Result.{ok, err, api_error}
use cloudops_guard.Ingestion.Tokens.{split}
use cloudops_guard.Http.{HttpRequest, Response, Server, Environment, Step}
use cloudops_guard.Http.Headers.{reject}
use cloudops_guard.Http.Handlers.{
  capabilities, reports_collection, get_report_item, delete_report_item,
}
use cloudops_guard.Http.Responses.{error_response}

unfoldable pub api : Text
unfolding text
api = text "api"

unfoldable pub v1 : Text
unfolding text
v1 = text "v1"

unfoldable pub capabilities_segment : Text
unfolding text
capabilities_segment = text "capabilities"

unfoldable pub reports_segment : Text
unfolding text
reports_segment = text "reports"

unfoldable pub get_method : Text
unfolding text
get_method = text "GET"

unfoldable pub post_method : Text
unfolding text
post_method = text "POST"

unfoldable pub delete_method : Text
unfolding text
delete_method = text "DELETE"

-- what the segments of a path name
pub data Route : Type 0 where
  to_capabilities to_reports : Route
  to_item : Text → Route
  unsupported_version no_route : Route

abbrev pub is_empty : Text → Bool
is_empty [] = true
is_empty (c ∷ t) = false

abbrev pub same : Text → Text → Bool
same t u = ite (t ≟ u) true false

-- `if segments[2] != "v1"`, for a segment that is not empty
abbrev pub other_version : Text → Route
other_version v =
    if is_empty v then no_route else if same v v1 then no_route else unsupported_version

-- the segments after `["", "api", "v1"]`
abbrev pub under_v1 : List Text → Route
under_v1 (last ∷ []) =
    if same last capabilities_segment
    then to_capabilities
    else if same last reports_segment
    then to_reports
    else no_route
under_v1 (name ∷ ingestion_id ∷ []) =
    if same name reports_segment && not (is_empty ingestion_id)
    then to_item ingestion_id
    else no_route
under_v1 _ = no_route

unfoldable pub route_of : List Text → Route
route_of (root ∷ name ∷ version ∷ rest) =
    if is_empty root && same name api
    then if same version v1 then under_v1 rest else other_version version
    else no_route
route_of _ = no_route

unfoldable pub handle_capabilities : Environment → HttpRequest → Server → Step Response
handle_capabilities env q s =
    if same q.method get_method
    then capabilities env q s
    else (err (api_error Code.method_not_allowed (some get_method)), s)

unfoldable pub handle_reports_collection : Environment → HttpRequest → Server → Step Response
handle_reports_collection env q s =
    if same q.method post_method
    then reports_collection env q s
    else (err (api_error Code.method_not_allowed (some post_method)), s)

unfoldable pub get_or_delete : Text
unfolding text
get_or_delete = text "GET, DELETE"

unfoldable pub handle_report_item : Environment → HttpRequest → Text → Server → Step Response
handle_report_item env q ingestion_id s =
    if same q.method get_method
    then get_report_item env q ingestion_id s
    else if same q.method delete_method
    then delete_report_item env q ingestion_id s
    else (err (api_error Code.method_not_allowed (some get_or_delete)), s)

unfoldable pub dispatch_route : Route → Environment → HttpRequest → Server → Step Response
dispatch_route to_capabilities env q s = handle_capabilities env q s
dispatch_route to_reports env q s = handle_reports_collection env q s
dispatch_route (to_item ingestion_id) env q s = handle_report_item env q ingestion_id s
dispatch_route unsupported_version env q s = (reject Code.unsupported_api_version, s)
dispatch_route no_route env q s = (reject Code.not_found, s)

-- `_dispatch`
unfoldable pub dispatch : Environment → HttpRequest → Server → Step Response
dispatch env q s = dispatch_route (route_of (split b'/' q.path)) env q s

-- one HTTP request: the response that is sent, and the server after it
unfoldable pub app : Environment → HttpRequest → Server → Response × Server
app env q s =
    let (r, s') = dispatch env q s in
    elim r [ ok response ↦ (response, s') | err e ↦ (error_response e env.request_id, s') ]
