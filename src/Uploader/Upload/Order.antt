-- ===== src/Uploader/Upload/Order.antt =====
-- What has happened when a request is sent.
use cloudops_guard.Prelude.{
  Option, none, subst, Option, Bool, true, false, some, List, [], ◌∷◌, ◌++◌, ◌≡◌, refl, ◌⊎◌, inl,
  inr, arith, Bool-cases, ap, sym, ◌∙◌,
}
use cloudops_guard.Prelude.Text.{Text, text_eq}
use cloudops_guard.Prelude.Result.{Exn, Result, ok, err, Result-cases}
use cloudops_guard.Ingestion.Blobs.{Bytes}
use cloudops_guard.Ingestion.Tokens.{ParsedToken, parse_token}
use cloudops_guard.Uploader.Endpoint.{validate_endpoint}
use cloudops_guard.Uploader.LocalReport.{
  LocalReport, load_and_validate_local_report, build_request_body,
}
use cloudops_guard.Uploader.Upload.{
  run_upload, validated_upload, Event, printed, asked, credential_read, posted, Client,
  confirmation_phrase, request_confirmation, check_answer, load_ingestion_token, bearer_value,
  after, send, with_credential, confirmed,
}
use mathlib.Core.Option.{none}

-- whether a request was sent
unfoldable pub sends : List Event → Bool
sends [] = false
sends (posted url value body ∷ events) = true
sends (printed ∷ events) = sends events
sends (asked ∷ events) = sends events
sends (credential_read ∷ events) = sends events

-- a well-formed credential was read, and the one request carries it
pub record SentWith (c : Client) (url : Text) (report : LocalReport) (events : List Event)
    : Type 0 where
  pub token : Text
  pub parsed : ParsedToken
  pub body : Bytes
  pub variable : c.variable ≡ some token
  pub structure : parse_token token ≡ ok parsed
  pub built : build_request_body c.dumps report ≡ ok body
  pub trace : events ≡ credential_read ∷ posted url (bearer_value token) body ∷ []

-- the flag, or the phrase at a terminal, with the question before the request
abbrev pub Agreed : Client → List Event → Type 0
Agreed c asking =
    ((c.yes_flag ≡ true) × (asking ≡ []))
    ⊎ ((c.yes_flag ≡ false)
        × ((c.interactive ≡ true) × ((c.line ≡ ok confirmation_phrase) × (asking ≡ asked ∷ []))))

pub record Sent (c : Client) (events : List Event) : Type 0 where
  pub url : Text
  pub report : LocalReport
  pub asking : List Event
  pub sending : List Event
  pub no_dry_run : c.dry_run ≡ false
  pub endpoint : validate_endpoint c.lib c.endpoint_raw ≡ ok url
  pub valid : load_and_validate_local_report c.env c.opened ≡ ok report
  pub agreed : Agreed c asking
  pub sent : SentWith c url report sending
  pub trace : events ≡ printed ∷ asking ++ sending

load-parses :
    (v : Option Text) (token : Text)
    → load_ingestion_token v ≡ ok token
    → (v ≡ some token) × ((p : ParsedToken) × (parse_token token ≡ ok p))
unfolding load_ingestion_token
load-parses none token e = ground (arith, e)
load-parses (some value) token e = elim (Result-cases (parse_token value)) [
  | inl (p, good) ↦
      let same : value ≡ token = ground (arith, e, good) in
      (ap some same, (p, subst (λ x. parse_token x ≡ ok p) same good))
  | inr (x, bad) ↦ ground (arith, e, bad)
]

with_credential-sends :
    (c : Client) (url : Text) (report : LocalReport)
    → sends (with_credential c url report).0 ≡ true
    → SentWith c url report (with_credential c url report).0
unfolding with_credential send sends
with_credential-sends c url report h = elim (Result-cases (load_ingestion_token c.variable)) [
  | inr (e, bad) ↦ ground (arith, h, bad)
  | inl (token, good) ↦ elim (Result-cases (build_request_body c.dumps report)) [
    | inr (e, bad) ↦ ground (arith, h, good, bad)
    | inl (body, built) ↦
        let (variable, (p, structure)) = load-parses c.variable token good in
        record {
          token = token;
          parsed = p;
          body = body;
          variable = variable;
          structure = structure;
          built = built;
          trace = rw (good, with_credential, built, send) refl;
        }
  ]
]

abbrev Confirmed : Client → Text → LocalReport → List Event → Type 0
Confirmed c url report events =
    (asking : List Event) × ((sending : List Event) × (Agreed c asking
        × (SentWith c url report sending × (events ≡ asking ++ sending))))

answer-phrase : (line : Result Text) → check_answer line ≡ ok tt → line ≡ ok confirmation_phrase
unfolding check_answer
answer-phrase (err e) h = ground (arith, h)
answer-phrase (ok answer) h = ground (arith, h)

module _ (c : Client) (url : Text) (report : LocalReport) where
  confirmed-flag : c.yes_flag ≡ true → confirmed c url report ≡ with_credential c url report
  unfolding confirmed
  confirmed-flag flag = ground (arith, flag)

  confirmed-asks :
      c.yes_flag ≡ false
      → c.interactive ≡ true
      → check_answer c.line ≡ ok tt
      → confirmed c url report ≡ after (asked ∷ []) (with_credential c url report)
  unfolding confirmed request_confirmation
  confirmed-asks no_flag terminal good = ground (arith, no_flag, terminal, good)

  confirmed-silent :
      c.yes_flag ≡ false
      → (c.interactive ≡ false) ⊎ ((e : Exn) × (check_answer c.line ≡ err e))
      → sends (confirmed c url report).0 ≡ false
  unfolding confirmed request_confirmation sends
  confirmed-silent no_flag (inl batch) = ground (arith, no_flag, batch)
  confirmed-silent no_flag (inr (e, bad)) = ground (arith, no_flag, bad)

  confirmed-sends :
      sends (confirmed c url report).0 ≡ true → Confirmed c url report (confirmed c url report).0
  unfolding sends
  confirmed-sends h = elim (Bool-cases c.yes_flag) [
    | inl flag ↦
        let same = ap (λ (x : _). x.0) (confirmed-flag flag) in
        let sent = with_credential-sends c url report (ap sends (sym same) ∙ h) in
        ([], (_, (inl (flag, refl), (sent, same))))
    | inr no_flag ↦ elim (Bool-cases c.interactive) [
      | inr batch ↦ ground (arith, h, confirmed-silent no_flag (inl batch))
      | inl terminal ↦ elim (Result-cases (check_answer c.line)) [
        | inr (e, bad) ↦ ground (arith, h, confirmed-silent no_flag (inr (e, bad)))
        | inl (u, good) ↦
            let same = ap (λ (x : _). x.0) (confirmed-asks no_flag terminal good) in
            let sent = with_credential-sends c url report (ap sends (sym same) ∙ h) in
            (
              asked ∷ [],
              (_, (inr (no_flag, (terminal, (answer-phrase c.line good, refl))), (sent, same))),
            )
      ]
    ]
  ]

module _ (c : Client) where
  dry_run-silent :
      (url : Text) (report : LocalReport)
      → c.dry_run ≡ true
      → sends (validated_upload c url report).0 ≡ false
  unfolding validated_upload sends
  dry_run-silent url report dry = ground (arith, dry)

  validated-confirmed :
      (url : Text) (report : LocalReport)
      → c.dry_run ≡ false
      → (validated_upload c url report).0 ≡ printed ∷ (confirmed c url report).0
  unfolding validated_upload
  validated-confirmed url report real = ground (arith, real)

  run_upload-early :
      (e : Exn) → validate_endpoint c.lib c.endpoint_raw ≡ err e → sends (run_upload c).0 ≡ false
  unfolding run_upload sends
  run_upload-early e bad = ground (arith, bad)

  run_upload-no_report :
      (url : Text) (e : Exn)
      → validate_endpoint c.lib c.endpoint_raw ≡ ok url
      → load_and_validate_local_report c.env c.opened ≡ err e
      → sends (run_upload c).0 ≡ false
  unfolding run_upload sends
  run_upload-no_report url e good bad = ground (arith, good, bad)

  run_upload-validated :
      (url : Text) (report : LocalReport)
      → validate_endpoint c.lib c.endpoint_raw ≡ ok url
      → load_and_validate_local_report c.env c.opened ≡ ok report
      → (sends (run_upload c).0 ≡ false) ⊎ (run_upload c ≡ validated_upload c url report)
  unfolding run_upload sends
  run_upload-validated url report good valid = ground (arith, good, valid)

  -- If a request is sent at all, it is the only one and the last that happens: the run is no dry run, the
  -- endpoint and the report passed their validation, the upload was agreed by the flag or by exactly the
  -- phrase at a terminal, and what happened is the summary, then the question where it was asked, then
  -- the reading of the credential, which is a well-formed token, then the request, which carries it to
  -- the validated endpoint.
  pub sends_only_agreed : sends (run_upload c).0 ≡ true → Sent c (run_upload c).0
  unfolding sends
  sends_only_agreed h = elim (Result-cases (validate_endpoint c.lib c.endpoint_raw)) [
    | inr (e, bad) ↦ ground (arith, h, run_upload-early e bad)
    | inl (url, good) ↦ elim (Result-cases (load_and_validate_local_report c.env c.opened)) [
      | inr (e, bad) ↦ ground (arith, h, run_upload-no_report url e good bad)
      | inl (report, valid) ↦ elim (run_upload-validated url report good valid) [
        | inl silent ↦ ground (arith, h, silent)
        | inr same ↦ elim (Bool-cases c.dry_run) [
          | inl dry ↦
              ground (arith, sym h ∙ ap (λ (x : _). sends x.0) same, dry_run-silent url report dry)
          | inr real ↦
              let trace = ap (λ (x : _). x.0) same ∙ validated-confirmed url report real in
              let (asking, (sending, (agreed, (sent, parts)))) =
                confirmed-sends c url report (ap sends (sym trace) ∙ h) in
              record {
                url = url;
                report = report;
                asking = asking;
                sending = sending;
                no_dry_run = real;
                endpoint = good;
                valid = valid;
                agreed = agreed;
                sent = sent;
                trace = trace ∙ ap (λ x. printed ∷ x) parts;
              }
        ]
      ]
    ]
  ]
