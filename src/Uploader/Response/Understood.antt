-- ===== src/Uploader/Response/Understood.antt =====
-- The server's answers to a submission, as the client takes them.
use cloudops_guard.Prelude.{
  ite, ◌≢◌, inr, Bool-cases, inl, ◌≤◌, Option-cases, length, ℕ, true, false, some, [], ◌∷◌, ◌≡◌,
  refl, arith, ℕ_discrete,
}
use cloudops_guard.Prelude.Text.{◌≟◌, drop_prefix, Text, text_eq, Text-discrete}
use cloudops_guard.Prelude.Json.{Json, Members, member, no_members, lookup_member, member_names}
use cloudops_guard.Http.Responses.{
  ok_field, request_id_field, ingestion_id_field, received_at_field, fingerprint_field,
  status_field,
}
use cloudops_guard.Uploader.Response.{
  mismatch, sha256_tag, request_tag, ingestion_tag, nonempty_string, validate_report_fingerprint,
  validate_received_at, validate_request_id, validate_ingestion_id, is_tagged, accepted,
  require_exact_fields, has_control, all_hex,
}
use cloudops_guard.Uploader.Timestamp.{
  number, is_calendar, is_received_at, micros_shape, seconds_shape, fits,
}

abbrev pub success_members : Text → Text → Text → Text → Text → Members
success_members i q t f s = member ok_field (Json.boolean true) (
    member ingestion_id_field (Json.string i) (
      member request_id_field (Json.string q) (
        member received_at_field (Json.string t) (
          member fingerprint_field (Json.string f)
            (member status_field (Json.string s) no_members)))))

module _ (i q t f s : Text) where
  pub exact_success :
      require_exact_fields (Json.object (success_members i q t f s)) (
        ok_field ∷ ingestion_id_field ∷ request_id_field ∷ received_at_field ∷ fingerprint_field
        ∷ status_field ∷ [])
      ≡ accepted (success_members i q t f s)
  unfolding require_exact_fields member_names ok_field ingestion_id_field request_id_field
      received_at_field fingerprint_field status_field Text-discrete ℕ_discrete
  exact_success = refl

  pub success_ids :
      (lookup_member ok_field (success_members i q t f s) ≡ some (Json.boolean true))
      × ((lookup_member ingestion_id_field (success_members i q t f s) ≡ some (Json.string i))
          × ((lookup_member request_id_field (success_members i q t f s) ≡ some (Json.string q))
              × ((lookup_member received_at_field (success_members i q t f s)
                    ≡ some (Json.string t))
                  × ((lookup_member fingerprint_field (success_members i q t f s)
                        ≡ some (Json.string f))
                      × (lookup_member status_field (success_members i q t f s)
                          ≡ some (Json.string s))))))
  unfolding lookup_member ok_field ingestion_id_field request_id_field received_at_field
      fingerprint_field status_field Text-discrete ℕ_discrete
  success_ids = (refl, (refl, (refl, (refl, (refl, refl)))))

hex-control : (t : Text) → all_hex t ≡ true → has_control t ≡ false
unfolding all_hex has_control
hex-control [] h = refl
hex-control (c ∷ t) h = ground (arith, h, hex-control t)

prefix-control :
    (p t rest : Text)
    → drop_prefix p t ≡ some rest
    → has_control p ≡ false
    → has_control rest ≡ false
    → has_control t ≡ false
unfolding drop_prefix has_control
prefix-control [] t rest e h k = ground (arith, e, k)
prefix-control (c ∷ p) [] rest e h k = refl
prefix-control (c ∷ p) (d ∷ t) rest e h k = ground (arith, e, h, k, prefix-control p t rest)

tagged-control :
    (tag : Text) (n : ℕ) (t : Text)
    → has_control tag ≡ false
    → is_tagged tag n t ≡ true
    → has_control t ≡ false
unfolding is_tagged
tagged-control tag n t h e = elim (Option-cases (drop_prefix tag t)) [
  | inl other ↦ ground (arith, other, e)
  | inr (rest, some_eq) ↦
      prefix-control tag t rest some_eq h (hex-control rest (ground (arith, some_eq, e)))
]

fits-control :
    (p t : Text)
    → has_control p ≡ false
    → fits p t ≡ true
    → (has_control t ≡ false) × (length t ≡ length p)
unfolding fits has_control
fits-control [] [] h e = (refl, refl)
fits-control [] (d ∷ t) h e = ground (arith, e)
fits-control (c ∷ p) [] h e = ground (arith, e)
fits-control (c ∷ p) (d ∷ t) h e = ground (arith, h, e, fits-control p t)

seconds_clean : has_control seconds_shape ≡ false
unfolding has_control seconds_shape
seconds_clean = refl

micros_clean : has_control micros_shape ≡ false
unfolding has_control micros_shape
micros_clean = refl

seconds_length : length seconds_shape ≡ 20
unfolding seconds_shape
seconds_length = refl

micros_length : length micros_shape ≡ 27
unfolding micros_shape
micros_length = refl

received_at-control :
    (t : Text) → is_received_at t ≡ true → (has_control t ≡ false) × (length t ≤ 27)
unfolding is_received_at
received_at-control t e = elim (Bool-cases (fits seconds_shape t)) [
  | inl short ↦ ground (arith, fits-control seconds_shape t seconds_clean short, seconds_length)
  | inr long ↦ ground (arith, e, long, fits-control micros_shape t micros_clean, micros_length)
]

pub nonempty : (t : Text) → t ≢ [] → nonempty_string (some (Json.string t)) ≡ accepted t
nonempty [] h = ground (arith, h)
nonempty (c ∷ t) h = refl

tagged-ne-nil : (c : ℕ) (p : Text) (n : ℕ) (t : Text) → is_tagged (c ∷ p) n t ≡ true → t ≢ []
unfolding is_tagged drop_prefix
tagged-ne-nil c p n [] e = ground (arith, e)
tagged-ne-nil c p n (d ∷ t) e = ground arith

received_at-ne-nil : (t : Text) → is_received_at t ≡ true → t ≢ []
unfolding is_received_at is_calendar number
received_at-ne-nil [] e = ground (arith, e)
received_at-ne-nil (d ∷ t) e = ground arith

pub ingestion_id-valid :
    (t : Text)
    → is_tagged ingestion_tag 32 t ≡ true
    → (validate_ingestion_id t ≡ accepted tt) × (t ≢ [])
unfolding validate_ingestion_id ingestion_tag has_control
ingestion_id-valid t e =
    (ground (arith, e, tagged-control ingestion_tag 32 t refl), tagged-ne-nil _ _ 32 t e)

pub request_id-valid :
    (t : Text)
    → is_tagged request_tag 32 t ≡ true
    → (validate_request_id t ≡ accepted tt) × (t ≢ [])
unfolding validate_request_id request_tag has_control
request_id-valid t e =
    (ground (arith, e, tagged-control request_tag 32 t refl), tagged-ne-nil _ _ 32 t e)

pub received_at-valid :
    (t : Text) → is_received_at t ≡ true → (validate_received_at t ≡ accepted tt) × (t ≢ [])
unfolding validate_received_at
received_at-valid t e = (ground (arith, e, received_at-control t e), received_at-ne-nil t e)

pub fingerprint-valid :
    (t u : Text)
    → is_tagged sha256_tag 64 t ≡ true
    → (validate_report_fingerprint t u ≡ ite (t ≟ u) (accepted tt) mismatch) × (t ≢ [])
unfolding validate_report_fingerprint sha256_tag has_control
fingerprint-valid t u e =
    (ground (arith, e, tagged-control sha256_tag 64 t refl), tagged-ne-nil _ _ 64 t e)
