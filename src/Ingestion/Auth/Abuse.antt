-- ===== src/Ingestion/Auth/Abuse.antt =====
-- ingestion/authenticator.py: the layers of the protection against abuse, over any sequence of calls.
use cloudops_guard.Prelude.Dict
use cloudops_guard.Ingestion.Limits.{
  check_and_record_request, count-put, is_blocked, count, record_failure, token_scope_key,
  lookup_scope_key,
}
use cloudops_guard.Ingestion.Auth.{
  lookup_token, authenticate_parsed, authenticate, verify_and_admit, admit, ite, ◌∷◌, fail_lookup,
  Principal, List, Bool, Coordinator,
}
use cloudops_guard.Prelude.Result.{other, value_error, Result-cases, err, ok, Result}
use cloudops_guard.Prelude.Text.{DecEq, text_eq, key_eq, ◌≟◌, text, Text}
use cloudops_guard.Ingestion.Auth.Attempts.{next-Kept, outcome, next, Try}
use cloudops_guard.Prelude.{
  ◌≤◌, Option-cases, inl, inr, arith, ◌∙◌, true, if◌then◌else◌, suc, ◌+◌, ap, ℕ, ◌≡◌,
}
use Prim.Native.Nat.{zero}
use mathlib.Core.Bool.{false}
use mathlib.Core.List.{[]}
use cloudops_guard.Ingestion.Tokens.{ParsedToken, parse_token}
use cloudops_guard.Ingestion.Models.{TokenRecord}

drop : ℕ → Text → Text
drop zero t = t
drop (suc n) [] = []
drop (suc n) (c ∷ t) = drop n t

lookup_scope_key-injective : (a b : Text) → lookup_scope_key a ≡ lookup_scope_key b → a ≡ b
unfolding lookup_scope_key text drop
lookup_scope_key-injective a b e = ap (drop 10) e

token_scope_key-injective : (a b : Text) → token_scope_key a ≡ token_scope_key b → a ≡ b
unfolding token_scope_key text drop
token_scope_key-injective a b e = ap (drop 6) e

-- the failures counted against a `lookup_id`, and the requests counted against its token
abbrev pub failures : Coordinator → Text → ℕ
failures c id = count c.lookup_limiter.failure_counts (lookup_scope_key id)

abbrev pub requests : Coordinator → Text → ℕ
requests c id = count c.token_rate_limiter.request_counts (token_scope_key id)

-- A verifier that tells, by raising, when a secret is wrong: it changes nothing before it is asked.
abbrev pub telling : Result Bool → Result Bool
telling (ok false) = err other
telling r = err value_error

abbrev pub told : Result Principal → ℕ
told (err other) = 1
told r = 0

abbrev pub presents : Text → Result ParsedToken → Bool
presents id (err e) = false
presents id (ok p) = ite (p.lookup_id ≟ id) true false

-- Whether a call is a guess at the secret of `id` that reaches the verifier and that it finds wrong, as 1
-- or 0: `authenticate` is run with the verifier of the call made to tell.
unfoldable pub guess : Text → Try → Coordinator → ℕ
guess id t c =
    if presents id (parse_token t.presented_token)
    then told
        (authenticate (λ secret hash. telling (t.verify secret hash)) t.presented_token t.source
          c).0
    else 0

-- the wrong guesses of a sequence of calls
unfoldable pub guesses : Text → List Try → Coordinator → ℕ
guesses id [] c = 0
guesses id (t ∷ ts) c = guess id t c + guesses id ts (next t c)

-- whether a call is accepted for `id`, as 1 or 0
unfoldable pub accepted : Text → Result Principal → ℕ
accepted id (err e) = 0
accepted id (ok p) = ite (p.lookup_id ≟ id) 1 0

unfoldable pub acceptances : Text → List Try → Coordinator → ℕ
acceptances id [] c = 0
acceptances id (t ∷ ts) c = accepted id (outcome t c) + acceptances id ts (next t c)

ite-same :
    {A B : Type 0} ⦃e : DecEq A⦄ ⦃f : DecEq B⦄ (k : A → B)
    → ((a b : A) → k a ≡ k b → a ≡ b)
    → (a b : A) → ite {C = ℕ} (k a ≟ k b) 1 0 ≡ ite (a ≟ b) 1 0
ite-same k inj a b = ground (arith, inj a b)

fail_lookup-failures :
    (c : Coordinator) (j id : Text)
    → failures (fail_lookup j c) id ≡ failures c id + ite (j ≟ id) 1 0
unfolding record_failure
fail_lookup-failures c j id =
    count-put c.lookup_limiter.failure_counts (lookup_scope_key j) (lookup_scope_key id)
    ∙ ap (λ n. failures c id + n) (ite-same lookup_scope_key lookup_scope_key-injective j id)

admit-requests :
    (r : TokenRecord) (c : Coordinator) (id : Text)
    → requests (admit r c).1 id ≡ requests c id + accepted id (admit r c).0
unfolding admit check_and_record_request accepted
admit-requests r c id = ground (
  arith,
  count-put c.token_rate_limiter.request_counts (token_scope_key r.lookup_id) (token_scope_key id),
  ite-same token_scope_key token_scope_key-injective r.lookup_id id,
)

verify_and_admit-failures :
    (t : Try) (p : ParsedToken) (r : TokenRecord) (c : Coordinator) (id : Text)
    → failures (verify_and_admit t.verify p r t.source c).1 id
      ≡ failures c id
        + (if presents id (ok p)
            then told
                (verify_and_admit (λ secret hash. telling (t.verify secret hash)) p r t.source c).0
            else 0)
unfolding verify_and_admit admit
verify_and_admit-failures t p r c id = elim (Result-cases (t.verify p.secret r.secret_hash)) [
  | inr (x, e) ↦ ground (arith, e)
  | inl (verdict, e) ↦ ground (arith, e, fail_lookup-failures c p.lookup_id id)
]

verify_and_admit-requests :
    (t : Try) (p : ParsedToken) (r : TokenRecord) (c : Coordinator) (id : Text)
    → requests (verify_and_admit t.verify p r t.source c).1 id
      ≡ requests c id + accepted id (verify_and_admit t.verify p r t.source c).0
unfolding verify_and_admit accepted
verify_and_admit-requests t p r c id = ground (arith, admit-requests r c id)

next-failures :
    (t : Try) (c : Coordinator) (id : Text) → failures (next t c) id ≡ failures c id + guess id t c
unfolding next authenticate authenticate_parsed lookup_token guess
next-failures t c id = elim (Result-cases (parse_token t.presented_token)) [
  | inr (x, e) ↦ ground (arith, e)
  | inl (p, e) ↦ elim (Option-cases (Dict.get c.tokens p.lookup_id)) [
    | inl none_eq ↦ ground (arith, e, none_eq)
    | inr (r, some_eq) ↦ ground (arith, e, some_eq, verify_and_admit-failures t p r c id)
  ]
]

next-requests :
    (t : Try) (c : Coordinator) (id : Text)
    → requests (next t c) id ≡ requests c id + accepted id (outcome t c)
unfolding next outcome authenticate authenticate_parsed lookup_token accepted
next-requests t c id = elim (Result-cases (parse_token t.presented_token)) [
  | inr (x, e) ↦ ground (arith, e)
  | inl (p, e) ↦ elim (Option-cases (Dict.get c.tokens p.lookup_id)) [
    | inl none_eq ↦ ground (arith, e, none_eq)
    | inr (r, some_eq) ↦ ground (arith, e, some_eq, verify_and_admit-requests t p r c id)
  ]
]

guess-bounded :
    (t : Try) (c : Coordinator) (id : Text)
    → failures c id ≤ c.lookup_limiter.threshold
    → failures c id + guess id t c ≤ c.lookup_limiter.threshold
unfolding guess is_blocked authenticate authenticate_parsed lookup_token verify_and_admit admit
guess-bounded t c id bound = elim (Result-cases (parse_token t.presented_token)) [
  | inr (x, e) ↦ ground (arith, e)
  | inl (p, e) ↦ elim (Option-cases (Dict.get c.tokens p.lookup_id)) [
    | inl none_eq ↦ ground (arith, e, none_eq)
    | inr (r, some_eq) ↦ ground (arith, e, some_eq)
  ]
]

admit-bounded :
    (r : TokenRecord) (c : Coordinator) (id : Text)
    → requests c id ≤ c.token_rate_limiter.threshold
    → requests c id + accepted id (admit r c).0 ≤ c.token_rate_limiter.threshold
unfolding admit check_and_record_request accepted
admit-bounded r c id bound = elim (r.lookup_id ≟ id) [
  | yes same ↦ ground (arith, ap token_scope_key same, same)
  | no distinct ↦ ground (arith, distinct)
]

verify_and_admit-bounded :
    (t : Try) (p : ParsedToken) (r : TokenRecord) (c : Coordinator) (id : Text)
    → requests c id ≤ c.token_rate_limiter.threshold
    → requests c id + accepted id (verify_and_admit t.verify p r t.source c).0
      ≤ c.token_rate_limiter.threshold
unfolding verify_and_admit accepted
verify_and_admit-bounded t p r c id bound = ground (arith, admit-bounded r c id bound)

outcome-bounded :
    (t : Try) (c : Coordinator) (id : Text)
    → requests c id ≤ c.token_rate_limiter.threshold
    → requests c id + accepted id (outcome t c) ≤ c.token_rate_limiter.threshold
unfolding outcome authenticate authenticate_parsed lookup_token accepted
outcome-bounded t c id bound = elim (Result-cases (parse_token t.presented_token)) [
  | inr (x, e) ↦ ground (arith, e)
  | inl (p, e) ↦ elim (Option-cases (Dict.get c.tokens p.lookup_id)) [
    | inl none_eq ↦ ground (arith, e, none_eq)
    | inr (r, some_eq) ↦ ground (arith, e, some_eq, verify_and_admit-bounded t p r c id bound)
  ]
]

-- Over any calls one after another, from any sources and with any tokens, the failures counted against a
-- `lookup_id` at the start and the guesses at its secret that the verifier finds wrong are together at
-- most the threshold of the first layer, when the failures at the start are.
pub guesses-bounded :
    (id : Text) (ts : List Try) (c : Coordinator)
    → failures c id ≤ c.lookup_limiter.threshold
    → failures c id + guesses id ts c ≤ c.lookup_limiter.threshold
unfolding guesses
guesses-bounded id [] c bound = omega (arith, bound)
guesses-bounded id (t ∷ ts) c bound = ground (
  arith,
  next-failures t c id,
  guess-bounded t c id bound,
  (next-Kept t c).lookup_threshold,
  guesses-bounded id ts (next t c),
)

-- Over any sequence of calls, the requests counted against a token at the start and the calls that are
-- accepted for it are together at most the threshold of the third layer, when the requests at the
-- start are.
pub acceptances-bounded :
    (id : Text) (ts : List Try) (c : Coordinator)
    → requests c id ≤ c.token_rate_limiter.threshold
    → requests c id + acceptances id ts c ≤ c.token_rate_limiter.threshold
unfolding acceptances
acceptances-bounded id [] c bound = omega (arith, bound)
acceptances-bounded id (t ∷ ts) c bound = ground (
  arith,
  next-requests t c id,
  outcome-bounded t c id bound,
  (next-Kept t c).rate_threshold,
  acceptances-bounded id ts (next t c),
)
