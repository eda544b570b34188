-- ===== src/Http.antt =====
-- ingestion_api/: a request, a response, and what one run of the application has around it.
pub mod Headers
pub mod Envelope
pub mod Validation
pub mod Responses
pub mod Handlers
pub mod Dispatch
pub mod Access
pub mod Isolation
pub mod Body
pub mod Routes
use cloudops_guard.Prelude.{ℕ, Bool, Option, List}
use cloudops_guard.Prelude.Text.{Text}
use cloudops_guard.Prelude.Result.{Result}
use cloudops_guard.Prelude.Json.{Json, Members}
use cloudops_guard.Ingestion.Models.{DateTime}
use cloudops_guard.Ingestion.Blobs.{Bytes}
use cloudops_guard.Ingestion.Limits.{RequestRateLimiter}
use cloudops_guard.Ingestion.Auth.{Coordinator, Verifier}
use cloudops_guard.Audit.Models.{Severity, AuditSummary}
use cloudops_guard.Api.{World}
use cloudops_guard.Api.Coordinator.{Attempt}

-- The parts of an ASGI scope that the application reads: `request.method`, `request.url.path`, the raw
-- header list and `request.client.host`.
pub record HttpRequest : Type 0 where
  pub method : Text
  pub path : Text
  pub headers : List (Bytes × Bytes)
  pub client : Option Text

-- `JSONResponse`, before it is written out: its status, its `Allow` header and its members
pub record Response : Type 0 where
  pub status : ℕ
  pub allow : Option Text
  pub body : Members

-- The objects of `IngestionApiConfig` that change: the two stores, the tokens with the limiters of
-- authentication, and the limiter of the capabilities endpoint. `pending` are the chunks of the body
-- of this request that no call of `receive()` has taken yet.
pub record Server : Type 0 where
  pub world : World
  pub auth : Coordinator
  pub capabilities_rate_limiter : RequestRateLimiter
  pub pending : List Bytes

-- What comes from outside: the verifier of secrets, `source_identifier_resolver`, the strict decoder of
-- JSON, the pydantic models of a report with the severities of its findings, `json.dumps` with the
-- encoding of its text, the RFC 8785 fingerprint, `isoformat` of a time in UTC, and the readings of
-- clocks and generators in this run.
pub record Environment : Type 0 where
  pub verify : Verifier
  pub source_identifier_resolver : Option (HttpRequest → Text)
  pub strict_decode : Bytes → Result Json
  pub parse_report : Text → Members → Result (AuditSummary × List Severity)
  pub compact_report : Members → Result Bytes
  pub fingerprint : Text → Json → Members → Result Text
  pub isoformat : DateTime → Text
  pub attempts : ℕ → Attempt
  pub clock : Result DateTime
  pub later : ℕ
  pub request_id : Text

-- a step that may raise after it changed the server, and what comes after it
abbrev pub Step {ℓ} : Type ℓ → Type ℓ
Step A = Result A × Server
