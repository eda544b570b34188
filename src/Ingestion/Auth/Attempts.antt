-- ===== src/Ingestion/Auth/Attempts.antt =====
-- ingestion/authenticator.py: what a sequence of calls of `authenticate` does to the coordinator, and
-- what an accepted call rests on.
use cloudops_guard.Prelude.Dict
use cloudops_guard.Ingestion.Auth.{
  principal_of, true, some, ◌∷◌, Principal, lookup_token, List, mark_revoked, authenticate,
  authenticate_parsed, verify_and_admit, admit, Coordinator, Verifier,
}
use cloudops_guard.Prelude.Dict.{Dict}
use cloudops_guard.Prelude.Text.{text_eq, key_eq, Text}
use cloudops_guard.Prelude.Result.{authentication_failed, err, Result-cases, ok, Result}
use cloudops_guard.Ingestion.Limits.{
  lookup_scope_key, source_scope_key, is_blocked, record_failure, check_and_record_request,
}
use cloudops_guard.Ingestion.Models.{TokenRecord}
use cloudops_guard.Prelude.{
  false, true, sym, subst, inr, ◌∙◌, arith, refl, inl, Bool-cases, ◌≡◌, Option-cases,
}
use cloudops_guard.Ingestion.Tokens.{parse_token, ParsedToken}
use mathlib.Core.List.{[]}

-- One call: what is presented, from where, and the verifier at that time.
pub record Try : Type 0 where
  pub verify : Verifier
  pub presented_token : Text
  pub source : Text

unfoldable pub outcome : Try → Coordinator → Result Principal
outcome t c = (authenticate t.verify t.presented_token t.source c).0

unfoldable pub next : Try → Coordinator → Coordinator
next t c = (authenticate t.verify t.presented_token t.source c).1

unfoldable pub run : List Try → Coordinator → Coordinator
run [] c = c
run (t ∷ ts) c = run ts (next t c)

-- What a call leaves as it is.
pub record Kept (c c' : Coordinator) : Type 0 where
  pub tokens : c'.tokens ≡ c.tokens
  pub lookup_threshold : c'.lookup_limiter.threshold ≡ c.lookup_limiter.threshold
  pub rate_threshold : c'.token_rate_limiter.threshold ≡ c.token_rate_limiter.threshold

abbrev pub kept_refl : (c : Coordinator) → Kept c c
kept_refl c = record { tokens = refl; lookup_threshold = refl; rate_threshold = refl }

admit-Kept : (r : TokenRecord) (c : Coordinator) → Kept c (admit r c).1
unfolding admit check_and_record_request
admit-Kept r c = record {
  tokens = ground arith;
  lookup_threshold = ground arith;
  rate_threshold = ground arith;
}

verify_and_admit-Kept :
    (verify : Verifier) (p : ParsedToken) (r : TokenRecord) (s : Text) (c : Coordinator)
    → Kept c (verify_and_admit verify p r s c).1
unfolding verify_and_admit record_failure
verify_and_admit-Kept verify p r s c = elim (Result-cases (verify p.secret r.secret_hash)) [
  | inl (true, e) ↦ rw (e, verify_and_admit) (admit-Kept r c)
  | inl (false, e) ↦
      rw (e, verify_and_admit)
        (record { tokens = refl; lookup_threshold = refl; rate_threshold = refl })
  | inr (x, e) ↦ rw (e, verify_and_admit) (kept_refl c)
]

authenticate_parsed-Kept :
    (verify : Verifier) (p : ParsedToken) (s : Text) (c : Coordinator)
    → Kept c (authenticate_parsed verify p s c).1
unfolding authenticate_parsed record_failure verify_and_admit admit
authenticate_parsed-Kept verify p s c = elim (Option-cases (lookup_token c p.lookup_id)) [
  | inl e ↦
      rw (e, authenticate_parsed)
        (record { tokens = refl; lookup_threshold = refl; rate_threshold = refl })
  | inr (r, e) ↦ elim (Bool-cases r.revoked) [
    | inl revoked ↦ rw (e, revoked, authenticate_parsed) (kept_refl c)
    | inr live ↦ elim (Bool-cases (is_blocked c.lookup_limiter (lookup_scope_key p.lookup_id))) [
      | inl blocked ↦ rw (e, live, blocked, authenticate_parsed) (kept_refl c)
      | inr free ↦ rw (e, live, free, authenticate_parsed) (verify_and_admit-Kept verify p r s c)
    ]
  ]
]

pub next-Kept : (t : Try) (c : Coordinator) → Kept c (next t c)
unfolding next authenticate record_failure
next-Kept t c = elim (Bool-cases (is_blocked c.source_limiter (source_scope_key t.source))) [
  | inl blocked ↦ rw (next, authenticate, blocked) (kept_refl c)
  | inr free ↦ elim (Result-cases (parse_token t.presented_token)) [
    | inl (p, e) ↦ rw (next, authenticate, free, e) (authenticate_parsed-Kept t.verify p t.source c)
    | inr (x, e) ↦
        rw (next, authenticate, free, e)
          (record { tokens = refl; lookup_threshold = refl; rate_threshold = refl })
  ]
]

pub run-tokens : (ts : List Try) (c : Coordinator) → (run ts c).tokens ≡ c.tokens
unfolding run
run-tokens [] c = refl
run-tokens (t ∷ ts) c = run-tokens ts (next t c) ∙ (next-Kept t c).tokens

-- A token that is not there, or is revoked.
abbrev pub IsDead : Dict Text TokenRecord → Text → Type 0
IsDead tokens id = (r : TokenRecord) → Dict.get tokens id ≡ some r → r.revoked ≡ true

mark_revoked-IsDead : (id : Text) (c : Coordinator) → IsDead (mark_revoked id c).tokens id
unfolding mark_revoked
mark_revoked-IsDead id c r e = elim (Option-cases (Dict.get c.tokens id)) [
  | inl none_eq ↦ ground (arith, none_eq, e)
  | inr (q, some_eq) ↦
      ground (arith, some_eq, e, Dict.get-put_self c.tokens id (record q { revoked = true }))
]

dead_fails :
    (t : Try) (c : Coordinator) (p : ParsedToken)
    → parse_token t.presented_token ≡ ok p
    → IsDead c.tokens p.lookup_id
    → outcome t c ≡ err authentication_failed
unfolding outcome authenticate authenticate_parsed lookup_token
dead_fails t c p e dead = elim (Option-cases (Dict.get c.tokens p.lookup_id)) [
  | inl none_eq ↦ ground (arith, e, none_eq)
  | inr (r, some_eq) ↦ ground (arith, e, some_eq, dead r some_eq)
]

-- After `mark_revoked`, whatever calls of `authenticate` come between, a call with a token of this
-- `lookup_id` fails with the generic error, whatever its secret and its verifier.
pub revoked_for_good :
    (id : Text) (c : Coordinator) (ts : List Try) (t : Try) (p : ParsedToken)
    → parse_token t.presented_token ≡ ok p
    → p.lookup_id ≡ id
    → outcome t (run ts (mark_revoked id c)) ≡ err authentication_failed
revoked_for_good id c ts t p e same =
    let before : IsDead (mark_revoked id c).tokens p.lookup_id =
      subst (IsDead (mark_revoked id c).tokens) (sym same) (mark_revoked-IsDead id c) in
    dead_fails t (run ts (mark_revoked id c)) p e
      (subst (λ d. IsDead d p.lookup_id) (sym (run-tokens ts (mark_revoked id c))) before)

-- An accepted call presented a token that parses, of a `lookup_id` that is registered and not revoked,
-- with a secret that the verifier found right; neither the source nor the `lookup_id` was blocked; the
-- principal has the identity of the stored record, and the tokens and both limiters of failures stay
-- as they were.
pub authenticate_sound :
    (t : Try) (c : Coordinator) (who : Principal)
    → outcome t c ≡ ok who
    → (p : ParsedToken) × ((r : TokenRecord) × ((parse_token t.presented_token ≡ ok p)
          × ((Dict.get c.tokens p.lookup_id ≡ some r)
              × ((r.revoked ≡ false)
                  × ((t.verify p.secret r.secret_hash ≡ ok true)
                      × ((is_blocked c.source_limiter (source_scope_key t.source) ≡ false)
                          × ((is_blocked c.lookup_limiter (lookup_scope_key p.lookup_id) ≡ false)
                              × ((who ≡ principal_of r)
                                  × (((next t c).lookup_limiter ≡ c.lookup_limiter)
                                      × ((next t c).source_limiter ≡ c.source_limiter))))))))))
unfolding outcome next authenticate authenticate_parsed lookup_token verify_and_admit admit
authenticate_sound t c who accepted = elim (Result-cases (parse_token t.presented_token)) [
  | inr (x, e) ↦ ground (arith, e, accepted)
  | inl (p, e) ↦ elim (Option-cases (Dict.get c.tokens p.lookup_id)) [
    | inl none_eq ↦ ground (arith, e, none_eq, accepted)
    | inr (r, some_eq) ↦ (p, (r, (e, (some_eq, ground (arith, e, some_eq, accepted)))))
  ]
]
