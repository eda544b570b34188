-- ===== src/Http/Access.antt =====
-- ingestion_api/app.py: what a request does to the stores and to its body, and on whose behalf.
use cloudops_guard.Prelude.{
  true, [], ◌∷◌, subst, Option, some, none, Bool-cases, arith, ◌≡◌, ℕ, refl, ◌∙◌, ap, ◌⊎◌, inl, inr,
  List,
}
use cloudops_guard.Prelude.Text.{Text, text_eq}
use mathlib.Core.List.{Memᴰ}
use mathlib.Core.List.Memᴰ.{head, tail}
use cloudops_guard.Prelude.Result.{ok, err, Result-cases}
use cloudops_guard.Ingestion.Models.{
  Scope-discrete, TokenScope, reports_write, reports_read, reports_delete,
}
use cloudops_guard.Ingestion.Auth.{Principal, has_scope, authorize}
use cloudops_guard.Api.Requests.{retain, purge, Request, submit, read, remove, serve}
use cloudops_guard.Http.{ℕ, HttpRequest, Response, Server, Environment, Step}
use cloudops_guard.Http.Headers.{read_bounded_body}
use cloudops_guard.Http.Handlers.{
  authorize_request, refused, admit_request, authenticate_request, capabilities,
  check_capabilities_rate_limits, check_headers, reports_collection, receive_report, ingest_report,
  store_report, get_report_item, delete_report_item, read_record, retire_record, validated,
}
use cloudops_guard.Http.Dispatch.{
  no_route, unsupported_version, to_reports, to_capabilities, to_item, post_method, Route,
  handle_reports_collection, route_of, handle_capabilities, dispatch, app, dispatch_route,
  delete_method, get_method, same, handle_report_item,
}
use cloudops_guard.Http.Validation.{max_request_body_bytes}
use cloudops_guard.Ingestion.Tokens.{split}

-- The scope that an operation of the service needs and the tenant that it runs in. No request runs the
-- scheduled ones.
abbrev pub served_for : Request → Option (TokenScope × Text)
served_for (submit source tenant_id fingerprint b key) = some (reports_write, tenant_id)
served_for (read later key) = some (reports_read, key.0)
served_for (remove later key at) = some (reports_delete, key.0)
served_for (retain period at later) = none
served_for (purge later later' fault key at) = none

-- An operation that a principal with this scope may run.
abbrev pub Allowed : Principal → TokenScope → Request → Type 0
Allowed p scope r = served_for r ≡ some (scope, p.tenant_id)

-- The request was authenticated as a principal that has the scope, and the stores made the step of one
-- operation that is allowed.
pub record Performed (env : Environment) (q : HttpRequest) (s s' : Server) : Type 0 where
  pub scope : TokenScope
  pub principal : Principal
  pub admitted : (admit_request env q scope s).0 ≡ ok principal
  pub authenticated : (authenticate_request env q s).0 ≡ ok principal
  pub scoped : Memᴰ scope principal.scopes
  pub operation : Request
  pub allowed : Allowed principal scope operation
  pub effect : s'.world ≡ serve operation s.world

-- the stores as they are, or after one operation that is allowed
abbrev Effect : Principal → TokenScope → Server → Server → Type 0
Effect p scope s s' =
    (s'.world ≡ s.world) ⊎ ((r : Request) × (Allowed p scope r × (s'.world ≡ serve r s.world)))

-- what each protected handler does: admit the request, then run as its principal
abbrev protected :
    Environment
    → HttpRequest
    → TokenScope
    → (Principal → Server → Step Response)
    → Server
    → Step Response
protected env q scope handle s =
    let (r, s') = admit_request env q scope s in elim r [ err e ↦ (err e, s') | ok p ↦ handle p s' ]

has_scope-Mem : (s : TokenScope) (l : List TokenScope) → has_scope s l ≡ true → Memᴰ s l
unfolding has_scope
has_scope-Mem s [] h = ground (arith, h)
has_scope-Mem s (t ∷ ts) h = elim (Scope-discrete s t) [
  | yes same ↦ head same
  | no other ↦ tail (has_scope-Mem s ts (ground (arith, other, h)))
]

module _ (env : Environment) (q : HttpRequest) where
  pub admit_request-world :
      (scope : TokenScope) (s : Server)
      → ((admit_request env q scope s).1.world ≡ s.world)
        × ((admit_request env q scope s).1.pending ≡ s.pending)
  unfolding admit_request authenticate_request
  admit_request-world scope s = ground arith

  admitted-scoped :
      (scope : TokenScope) (p : Principal) (s : Server)
      → (admit_request env q scope s).0 ≡ ok p
      → ((authenticate_request env q s).0 ≡ ok p) × Memᴰ scope p.scopes
  unfolding admit_request authorize_request authorize
  admitted-scoped scope p s h = elim (Result-cases (authenticate_request env q s).0) [
    | inr (e, bad) ↦ ground (arith, bad, h)
    | inl (other, good) ↦ elim (Bool-cases (has_scope scope other.scopes)) [
      | inr lacks ↦ ground (arith, good, lacks, h)
      | inl has ↦
          let same : other ≡ p = ground (arith, good, has, h) in
          (
            good ∙ ap ok same,
            subst (λ (x : Principal). Memᴰ scope x.scopes) same
                (has_scope-Mem scope other.scopes has),
          )
    ]
  ]

  protected_performs :
      (scope : TokenScope) (handle : Principal → Server → Step Response) (s : Server)
      → ((p : Principal) (t : Server) → Effect p scope t (handle p t).1)
      → ((protected env q scope handle s).1.world ≡ s.world)
        ⊎ Performed env q s (protected env q scope handle s).1
  protected_performs scope handle s does =
      let t = (admit_request env q scope s).1 in
      let same : t.world ≡ s.world = (admit_request-world scope s).0 in
      elim (Result-cases (admit_request env q scope s).0) [
        | inr (e, bad) ↦ inl (rw (bad, protected) same)
        | inl (p, good) ↦ elim (does p t) [
          | inl kept ↦ inl (rw (good, protected) (kept ∙ same))
          | inr (r, (allowed, moved)) ↦ inr (record {
            scope = scope;
            principal = p;
            admitted = good;
            authenticated = (admitted-scoped scope p s good).0;
            scoped = (admitted-scoped scope p s good).1;
            operation = r;
            allowed = allowed;
            effect = rw (good, protected) (moved ∙ ap (serve r) same);
          })
        ]
      ]

  ingest_report-Effect :
      (p : Principal) (b : List ℕ) (s : Server)
      → Effect p reports_write s (ingest_report env p b s).1
  unfolding ingest_report store_report serve
  ingest_report-Effect p b s = elim (Result-cases (validated env b)) [
    | inr (e, bad) ↦ inl (rw (bad, ingest_report) refl)
    | inl ((v, bytes), good) ↦ inr (
      submit env.attempts p.tenant_id
          (refused (env.fingerprint v.platform v.report_schema_version v.report)) bytes
          v.idempotency_key,
      (refl, rw (good, ingest_report) refl),
    )
  ]

  read_bounded_body-world : (n : ℕ) (s : Server) → (read_bounded_body q n s).1.world ≡ s.world
  unfolding read_bounded_body
  read_bounded_body-world n s = ground arith

  receive_report-Effect :
      (p : Principal) (s : Server) → Effect p reports_write s (receive_report env q p s).1
  unfolding receive_report
  receive_report-Effect p s =
      let t = (read_bounded_body q max_request_body_bytes s).1 in
      let same : t.world ≡ s.world = read_bounded_body-world max_request_body_bytes s in
      elim (Result-cases (read_bounded_body q max_request_body_bytes s).0) [
        | inr (e, bad) ↦ inl (rw (bad, receive_report) same)
        | inl (raw_body, good) ↦ elim (ingest_report-Effect p raw_body t) [
          | inl kept ↦ inl (rw (good, receive_report) (kept ∙ same))
          | inr (r, (allowed, moved)) ↦
              inr (r, (allowed, rw (good, receive_report) (moved ∙ ap (serve r) same)))
        ]
      ]

  read_record-Effect :
      (p : Principal) (ingestion_id : Text) (s : Server)
      → Effect p reports_read s (read_record env (p.tenant_id, ingestion_id) s).1
  unfolding read_record serve
  read_record-Effect p ingestion_id s =
      inr (read env.later (p.tenant_id, ingestion_id), (refl, refl))

  retire_record-Effect :
      (p : Principal) (ingestion_id : Text) (s : Server)
      → Effect p reports_delete s (retire_record env (p.tenant_id, ingestion_id) s).1
  unfolding retire_record serve
  retire_record-Effect p ingestion_id s = elim (Result-cases env.clock) [
    | inr (e, bad) ↦ inl (rw (bad) refl)
    | inl (now, good) ↦
        inr (remove env.later (p.tenant_id, ingestion_id) now, (refl, rw (good) refl))
  ]

  capabilities-world : (s : Server) → (capabilities env q s).1.world ≡ s.world
  unfolding capabilities check_capabilities_rate_limits
  capabilities-world s = ground arith

  reports_collection_performs :
      (s : Server)
      → ((reports_collection env q s).1.world ≡ s.world)
        ⊎ Performed env q s (reports_collection env q s).1
  unfolding reports_collection
  reports_collection_performs s = elim (Result-cases (check_headers q)) [
    | inr (e, bad) ↦ inl (rw (bad, reports_collection) refl)
    | inl (u, good) ↦
        rw (good, reports_collection)
          (protected_performs reports_write (receive_report env q) s receive_report-Effect)
  ]

  report_item_performs :
      (ingestion_id : Text) (s : Server)
      → ((handle_report_item env q ingestion_id s).1.world ≡ s.world)
        ⊎ Performed env q s (handle_report_item env q ingestion_id s).1
  unfolding handle_report_item get_report_item delete_report_item
  report_item_performs ingestion_id s = elim (Bool-cases (same q.method get_method)) [
    | inl is_get ↦ rw (is_get) (
        protected_performs reports_read (λ p. read_record env (p.tenant_id, ingestion_id)) s
          (λ p t. read_record-Effect p ingestion_id t))
    | inr not_get ↦ elim (Bool-cases (same q.method delete_method)) [
      | inl is_delete ↦
          rw (not_get, is_delete)
            (protected_performs reports_delete (λ p. retire_record env (p.tenant_id, ingestion_id))
              s (λ p t. retire_record-Effect p ingestion_id t))
      | inr not_delete ↦ inl (rw (not_get, not_delete) refl)
    ]
  ]

  dispatch_performs :
      (r : Route) (s : Server)
      → ((dispatch_route r env q s).1.world ≡ s.world)
        ⊎ Performed env q s (dispatch_route r env q s).1
  unfolding dispatch_route handle_capabilities handle_reports_collection
  dispatch_performs to_capabilities s = elim (Bool-cases (same q.method get_method)) [
    | inl is_get ↦ inl (rw (is_get) (capabilities-world s))
    | inr not_get ↦ inl (rw (not_get) refl)
  ]
  dispatch_performs to_reports s = elim (Bool-cases (same q.method post_method)) [
    | inl is_post ↦ rw (is_post) (reports_collection_performs s)
    | inr not_post ↦ inl (rw (not_post) refl)
  ]
  dispatch_performs (to_item ingestion_id) s = report_item_performs ingestion_id s
  dispatch_performs unsupported_version s = inl refl
  dispatch_performs no_route s = inl refl

  pub app-dispatch : (s : Server) → (app env q s).1 ≡ (dispatch env q s).1
  unfolding app
  app-dispatch s = elim (Result-cases (dispatch env q s).0) [
    | inl (a, good) ↦ rw (good, app) refl
    | inr (e, bad) ↦ rw (bad, app) refl
  ]

  -- One HTTP request leaves both stores as they are, or it was authenticated as a principal, and the
  -- stores make the step of exactly one operation of the service, in the tenant of that principal, whose
  -- scopes have the one that the operation needs.
  pub app_refines :
      (s : Server) → ((app env q s).1.world ≡ s.world) ⊎ Performed env q s (app env q s).1
  unfolding dispatch
  app_refines s = rw (app-dispatch s) (dispatch_performs (route_of (split b'/' q.path)) s)
