-- ===== src/Tests/Auth.antt =====
-- The theorems on ingestion/authenticator.py and ingestion/token_format.py at concrete inputs.
use cloudops_guard.Prelude.{
  ℕ_discrete, arith, ◌≤◌, ◌+◌, [], ◌∷◌, ◌++◌, ◌≡◌, refl, true, false, some,
}
use cloudops_guard.Prelude.Dict
use cloudops_guard.Prelude.Text.{Text-discrete, text, text_eq, key_eq, Text}
use cloudops_guard.Ingestion.Tokens.{
  print-parse, all_url_safe, IsPartOrLine, split, parse-print, print_token, check_parts,
  is_url_safe, two_parts, matches_rest, parse_token, matches_url_safe, ParsedToken,
}
use cloudops_guard.Ingestion.Models.{reports_write, TokenRecord}
use cloudops_guard.Ingestion.Auth.{
  admit, principal_of, verify_and_admit, lookup_token, authenticate_parsed, mark_revoked,
  authenticate, Coordinator,
}
use cloudops_guard.Ingestion.Auth.Attempts.{
  authenticate_sound, next, revoked_for_good, run, outcome, Try,
}
use cloudops_guard.Ingestion.Auth.Abuse.{
  acceptances-bounded, guesses-bounded, acceptances, guesses, requests, failures,
}
use cloudops_guard.Prelude.Result.{authentication_failed, err, ok}
use cloudops_guard.Ingestion.Limits.{
  token_scope_key, check_and_record_request, lookup_scope_key, source_scope_key, is_blocked,
}

-- a `lookup_id` of 22 letters and a secret of 43
abbrev pub known : Text
known =
    97 ∷ 97 ∷ 97 ∷ 97 ∷ 97 ∷ 97 ∷ 97 ∷ 97 ∷ 97 ∷ 97 ∷ 97 ∷ 97 ∷ 97 ∷ 97 ∷ 97 ∷ 97 ∷ 97 ∷ 97 ∷ 97
    ∷ 97 ∷ 97 ∷ 97 ∷ []

abbrev pub hidden : Text
hidden =
    98 ∷ 98 ∷ 98 ∷ 98 ∷ 98 ∷ 98 ∷ 98 ∷ 98 ∷ 98 ∷ 98 ∷ 98 ∷ 98 ∷ 98 ∷ 98 ∷ 98 ∷ 98 ∷ 98 ∷ 98 ∷ 98
    ∷ 98 ∷ 98 ∷ 98 ∷ 98 ∷ 98 ∷ 98 ∷ 98 ∷ 98 ∷ 98 ∷ 98 ∷ 98 ∷ 98 ∷ 98 ∷ 98 ∷ 98 ∷ 98 ∷ 98 ∷ 98 ∷ 98
    ∷ 98 ∷ 98 ∷ 98 ∷ 98 ∷ 98 ∷ []

abbrev pub parsed : ParsedToken
parsed = record { lookup_id = known; secret = hidden }

parse-print_example : parse_token (print_token parsed) ≡ ok parsed
unfolding all_url_safe is_url_safe
parse-print_example = parse-print parsed (refl, refl) (refl, refl)

print-parse_example :
    (print_token parsed ≡ known ++ b'.' ∷ hidden) × (IsPartOrLine 22 known × IsPartOrLine 43 hidden)
unfolding parse_token two_parts check_parts split matches_url_safe matches_rest is_url_safe
print-parse_example = print-parse (known ++ b'.' ∷ hidden) parsed refl

abbrev newline_secret : Text
newline_secret =
    98 ∷ 98 ∷ 98 ∷ 98 ∷ 98 ∷ 98 ∷ 98 ∷ 98 ∷ 98 ∷ 98 ∷ 98 ∷ 98 ∷ 98 ∷ 98 ∷ 98 ∷ 98 ∷ 98 ∷ 98 ∷ 98
    ∷ 98 ∷ 98 ∷ 98 ∷ 98 ∷ 98 ∷ 98 ∷ 98 ∷ 98 ∷ 98 ∷ 98 ∷ 98 ∷ 98 ∷ 98 ∷ 98 ∷ 98 ∷ 98 ∷ 98 ∷ 98 ∷ 98
    ∷ 98 ∷ 98 ∷ 98 ∷ 98 ∷ 10 ∷ []

-- a newline at the end of a part passes
newline_passes :
    parse_token (known ++ b'.' ∷ newline_secret)
    ≡ ok (record { lookup_id = known; secret = newline_secret })
unfolding parse_token two_parts check_parts split matches_url_safe matches_rest is_url_safe
newline_passes = refl

abbrev granted : TokenRecord
granted = record {
  lookup_id = known;
  secret_hash = 104 ∷ [];
  tenant_id = 97 ∷ [];
  scopes = reports_write ∷ [];
  revoked = false;
  created_at = record { micros = 0; aware = true };
}

abbrev pub coordinator : Coordinator
coordinator = record {
  tokens = Dict.put Dict.empty known granted;
  lookup_limiter = record { threshold = 2; failure_counts = Dict.empty };
  source_limiter = record { threshold = 5; failure_counts = Dict.empty };
  token_rate_limiter = record { threshold = 1; request_counts = Dict.empty };
}

abbrev right_try : Try
right_try = record {
  verify = λ s h. ok true;
  presented_token = print_token parsed;
  source = 49 ∷ [];
}

abbrev wrong_try : Try
wrong_try = record {
  verify = λ s h. ok false;
  presented_token = print_token parsed;
  source = 49 ∷ [];
}

guesses-bounded_example :
    failures coordinator known + guesses known (wrong_try ∷ wrong_try ∷ wrong_try ∷ []) coordinator
    ≤ 2
unfolding Dict.get Dict.lookup
guesses-bounded_example =
    guesses-bounded known (wrong_try ∷ wrong_try ∷ wrong_try ∷ []) coordinator (omega arith)

acceptances-bounded_example :
    requests coordinator known + acceptances known (right_try ∷ right_try ∷ []) coordinator ≤ 1
unfolding Dict.get Dict.lookup
acceptances-bounded_example =
    acceptances-bounded known (right_try ∷ right_try ∷ []) coordinator (omega arith)

parsed-eq_ok : parse_token (print_token parsed) ≡ ok parsed
unfolding parse_token two_parts check_parts split matches_url_safe matches_rest is_url_safe
parsed-eq_ok = refl

revoked_for_good_example :
    outcome right_try (run (wrong_try ∷ []) (mark_revoked known coordinator))
    ≡ err authentication_failed
revoked_for_good_example =
    revoked_for_good known coordinator (wrong_try ∷ []) right_try parsed parsed-eq_ok refl

abbrev Explained : Type 0
Explained =
    (p : ParsedToken) × ((r : TokenRecord) × ((parse_token right_try.presented_token ≡ ok p)
        × ((Dict.get coordinator.tokens p.lookup_id ≡ some r)
            × ((r.revoked ≡ false)
                × ((right_try.verify p.secret r.secret_hash ≡ ok true)
                    × ((is_blocked coordinator.source_limiter (source_scope_key right_try.source)
                          ≡ false)
                        × ((is_blocked coordinator.lookup_limiter (lookup_scope_key p.lookup_id)
                              ≡ false)
                            × ((principal_of granted ≡ principal_of r)
                                × (((next right_try coordinator).lookup_limiter
                                      ≡ coordinator.lookup_limiter)
                                    × ((next right_try coordinator).source_limiter
                                        ≡ coordinator.source_limiter))))))))))

authenticate_sound_example : Explained
unfolding outcome authenticate authenticate_parsed lookup_token verify_and_admit admit is_blocked
    check_and_record_request lookup_scope_key source_scope_key token_scope_key text parse_token
    two_parts check_parts split matches_url_safe matches_rest is_url_safe Dict.get Dict.put
    Dict.lookup Dict.insert Text-discrete ℕ_discrete
authenticate_sound_example = authenticate_sound right_try coordinator (principal_of granted) refl
