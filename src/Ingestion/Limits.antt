-- ===== src/Ingestion/Limits.antt =====
-- ingestion/reference.py: `InMemoryAttemptLimiter` and `InMemoryRequestRateLimiter`;
-- ingestion/abuse_protection.py: the scope keys and the checks of a request without a credential.
-- Each method runs under its object's lock and is one step here.
use cloudops_guard.Prelude.Dict
use cloudops_guard.Prelude.Dict.{empty, Dict}
use cloudops_guard.Prelude.Text.{◌≟◌, text_eq, key_eq, text, Text}
use cloudops_guard.Prelude.Result.{rate_limited, value_error, ok, err, Result}
use cloudops_guard.Prelude.{
  arith, ite, ◌≡◌, some, none, ◌+◌, true, false, leb, ltb, if◌then◌else◌, Bool, ℕ, ◌++◌,
}

abbrev pub count : Dict Text ℕ → Text → ℕ
count d k = elim (Dict.get d k) [ none ↦ 0 | some n ↦ n ]

pub record AttemptLimiter : Type 0 where
  pub threshold : ℕ
  pub failure_counts : Dict Text ℕ

pub record RequestRateLimiter : Type 0 where
  pub threshold : ℕ
  pub request_counts : Dict Text ℕ

unfoldable pub attempt_limiter : ℕ → Result AttemptLimiter
attempt_limiter threshold =
    if ltb threshold 1
    then err value_error
    else ok (record { threshold = threshold; failure_counts = empty })

unfoldable pub record_failure : AttemptLimiter → Text → AttemptLimiter
record_failure l scope_key = record l {
  failure_counts = Dict.put l.failure_counts scope_key (count l.failure_counts scope_key + 1);
}

unfoldable pub is_blocked : AttemptLimiter → Text → Bool
is_blocked l scope_key = leb l.threshold (count l.failure_counts scope_key)

-- `reset_for_testing` of the attempt limiter
unfoldable pub reset_failures : AttemptLimiter → Text → AttemptLimiter
reset_failures l scope_key = record l { failure_counts = Dict.remove l.failure_counts scope_key }

unfoldable pub request_rate_limiter : ℕ → Result RequestRateLimiter
request_rate_limiter threshold =
    if ltb threshold 1
    then err value_error
    else ok (record { threshold = threshold; request_counts = empty })

unfoldable pub check_and_record_request : RequestRateLimiter → Text → Bool × RequestRateLimiter
check_and_record_request l scope_key =
    let counted = count l.request_counts scope_key in
    if leb l.threshold counted
    then (false, l)
    else (true, record l { request_counts = Dict.put l.request_counts scope_key (counted + 1) })

-- `reset_for_testing` of the request limiter
unfoldable pub reset_requests : RequestRateLimiter → Text → RequestRateLimiter
reset_requests l scope_key = record l { request_counts = Dict.remove l.request_counts scope_key }

unfoldable pub lookup_scope_key : Text → Text
unfolding text
lookup_scope_key lookup_id = text "lookup_id:" ++ lookup_id

unfoldable pub source_scope_key : Text → Text
unfolding text
source_scope_key source_identifier = text "source:" ++ source_identifier

unfoldable pub token_scope_key : Text → Text
unfolding text
token_scope_key lookup_id = text "token:" ++ lookup_id

unfoldable pub check_capabilities_allowed : Text → AttemptLimiter → Result (Unit {0})
check_capabilities_allowed source_identifier l =
    if is_blocked l (source_scope_key source_identifier) then err rate_limited else ok tt

unfoldable pub check_and_record_capabilities_request :
    Text → RequestRateLimiter → Result (Unit {0}) × RequestRateLimiter
check_and_record_capabilities_request source_identifier l =
    let (allowed, l') = check_and_record_request l (source_scope_key source_identifier) in
    (if allowed then ok tt else err rate_limited, l')

pub count-put :
    (d : Dict Text ℕ) (k j : Text)
    → count (Dict.put d k (count d k + 1)) j ≡ count d j + ite (k ≟ j) 1 0
count-put d k j = ground (arith, Dict.get-put d k j (count d k + 1))
