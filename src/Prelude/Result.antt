-- ===== src/Prelude/Result.antt =====
-- Exceptions as values. A method that mutates an object and may raise returns the object beside the
-- outcome, since what was written before a raise stays written.

use mathlib.Core.Logic.{◌⊎◌, inl, inr}
use mathlib.Core.Option.{Option}
use cloudops_guard.Prelude.Codes.{Code}
use cloudops_guard.Prelude.Text.{Text}
use mathlib.Core.Path.{◌≡◌, refl}

-- The exceptions that the modelled code raises or tells apart.
pub data Exn : Type 0 where
  value_error type_error key_error : Exn
  -- pydantic's `ValidationError`, a `ValueError`
  validation_error : Exn
  idempotency_key_conflict ingestion_id_conflict : Exn
  invalid_identifier : Exn
  authentication_failed authorization_failed rate_limited token_format_error : Exn
  -- `ApiError`, with its code and the `Allow` header it brings
  api_error : Code → Option Text → Exn
  -- of strict JSON and of the fingerprint
  strict_json_rejected report_fingerprint_error : Exn
  -- of the uploader
  local_report_error endpoint_validation_error : Exn
  confirmation_aborted non_interactive_confirmation_required credential_error : Exn
  fingerprint_mismatch_error : Exn
  -- with the error code and the request id that its message names, where it does
  upload_transport_error : Option (Text × Text) → Exn
  end_of_input keyboard_interrupt : Exn
  -- `GitLabClientError`, and `yaml.YAMLError`
  gitlab_client_error yaml_error : Exn
  -- any other exception of a component behind an interface
  other : Exn

pub data Result {ℓ} (A : Type ℓ) : Type ℓ where
  ok : A → Result A
  err : Exn → Result A

-- the call that may raise, and what comes after it
infixl 5 ◌>>=◌
abbrev pub ◌>>=◌ {ℓ κ} : {A : Type ℓ} {B : Type κ} → Result A → (A → Result B) → Result B
err raised >>= rest = err raised
ok value >>= rest = rest value

pub Result-cases {ℓ} :
    {A : Type ℓ} (r : Result A) → ((a : A) × (r ≡ ok a)) ⊎ ((x : Exn) × (r ≡ err x))
Result-cases (ok a) = inl (a, refl)
Result-cases (err x) = inr (x, refl)

-- A chain that returns has its first call return.
pub bind_ok {ℓ κ} :
    {A : Type ℓ} {B : Type κ} (r : Result A) (f : A → Result B) (b : B)
    → r >>= f ≡ ok b
    → (a : A) × ((r ≡ ok a) × (f a ≡ ok b))
bind_ok (ok a) f b h = (a, (refl, h))
bind_ok (err x) f b h = cc h
