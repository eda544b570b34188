-- ===== src/Ingestion/Auth.antt =====
-- ingestion/authenticator.py, and `InMemoryTokenStore` of ingestion/reference.py.
-- The verifier of a secret is the argument `verify`: what `SecretVerifier` returns or raises.
pub mod Attempts
pub mod Abuse
use cloudops_guard.Prelude.Dict
use cloudops_guard.Prelude.Text.{text_eq, key_eq, Text}
use cloudops_guard.Prelude.Dict.{Dict}
use cloudops_guard.Ingestion.Models.{Scope-discrete, TokenScope, TokenRecord}
use cloudops_guard.Ingestion.Tokens.{parse_token, ParsedToken}
use cloudops_guard.Prelude.Result.{
  authorization_failed, rate_limited, authentication_failed, ok, err, Result,
}
use cloudops_guard.Ingestion.Limits.{
  is_blocked, token_scope_key, check_and_record_request, lookup_scope_key, source_scope_key,
  RequestRateLimiter, record_failure, AttemptLimiter,
}
use cloudops_guard.Prelude.{ite, ◌∷◌, false, if◌then◌else◌, true, Option, Bool, List, some, none}
use mathlib.Core.List.{[]}

-- `AuthenticatedPrincipal`
pub record Principal : Type 0 where
  pub lookup_id : Text
  pub tenant_id : Text
  pub scopes : List TokenScope

abbrev pub Verifier : Type 0
Verifier = Text → Text → Result Bool

-- `AuthenticationCoordinator`, with the tokens of its store
pub record Coordinator : Type 0 where
  pub tokens : Dict Text TokenRecord
  pub lookup_limiter : AttemptLimiter
  pub source_limiter : AttemptLimiter
  pub token_rate_limiter : RequestRateLimiter

-- `register_for_testing`
unfoldable pub register : TokenRecord → Coordinator → Coordinator
register r c = record c { tokens = Dict.put c.tokens r.lookup_id r }

-- `lookup`
unfoldable pub lookup_token : Coordinator → Text → Option TokenRecord
lookup_token c lookup_id = Dict.get c.tokens lookup_id

unfoldable pub mark_revoked : Text → Coordinator → Coordinator
mark_revoked lookup_id c = elim (Dict.get c.tokens lookup_id) [
  | none ↦ c
  | some r ↦ record c { tokens = Dict.put c.tokens lookup_id (record r { revoked = true }) }
]

abbrev pub fail_source : Text → Coordinator → Coordinator
fail_source source c = record c {
  source_limiter = record_failure c.source_limiter (source_scope_key source);
}

abbrev pub fail_lookup : Text → Coordinator → Coordinator
fail_lookup lookup_id c = record c {
  lookup_limiter = record_failure c.lookup_limiter (lookup_scope_key lookup_id);
}

abbrev pub principal_of : TokenRecord → Principal
principal_of r = record { lookup_id = r.lookup_id; tenant_id = r.tenant_id; scopes = r.scopes }

-- steps 10 to 13, after the secret was verified
unfoldable pub admit : TokenRecord → Coordinator → Result Principal × Coordinator
admit r c =
    let (allowed, limiter) =
      check_and_record_request c.token_rate_limiter (token_scope_key r.lookup_id) in
    (
      if allowed then ok (principal_of r) else err rate_limited,
      record c { token_rate_limiter = limiter },
    )

-- steps 8 and 9
unfoldable pub verify_and_admit :
    Verifier → ParsedToken → TokenRecord → Text → Coordinator → Result Principal × Coordinator
verify_and_admit verify parsed r source c = elim (verify parsed.secret r.secret_hash) [
  | err e ↦ (err e, c)
  | ok false ↦ (err authentication_failed, fail_source source (fail_lookup parsed.lookup_id c))
  | ok true ↦ admit r c
]

-- steps 3 to 7
unfoldable pub authenticate_parsed :
    Verifier → ParsedToken → Text → Coordinator → Result Principal × Coordinator
authenticate_parsed verify parsed source c = elim (lookup_token c parsed.lookup_id) [
  | none ↦ (err authentication_failed, fail_source source c)
  | some r ↦
      if r.revoked
      then (err authentication_failed, c)
      else if is_blocked c.lookup_limiter (lookup_scope_key parsed.lookup_id)
      then (err authentication_failed, c)
      else verify_and_admit verify parsed r source c
]

unfoldable pub authenticate : Verifier → Text → Text → Coordinator → Result Principal × Coordinator
authenticate verify presented_token source c =
    if is_blocked c.source_limiter (source_scope_key source)
    then (err authentication_failed, c)
    else elim (parse_token presented_token) [
      | err e ↦ (err authentication_failed, fail_source source c)
      | ok parsed ↦ authenticate_parsed verify parsed source c
    ]

-- `required_scope in principal.scopes`
unfoldable pub has_scope : TokenScope → List TokenScope → Bool
has_scope s [] = false
has_scope s (t ∷ ts) = ite (Scope-discrete s t) true (has_scope s ts)

unfoldable pub authorize : Principal → TokenScope → Result (Unit {0})
authorize p required_scope =
    if has_scope required_scope p.scopes then ok tt else err authorization_failed
