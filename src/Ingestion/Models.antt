-- ===== src/Ingestion/Models.antt =====
-- ingestion/models.py: the records of the storage layer, with the validation that pydantic runs when
-- one is constructed.
use cloudops_guard.Prelude.{
  ℕ, ◌≤◌, leb, Bool, true, false, ◌&&◌, ◌||◌, not, Option, none, some, List, [], ◌∷◌, is_some,
  if◌then◌else◌, ◌≡◌, refl, ◌⊎◌, inl, inr, arith,
}
use cloudops_guard.Prelude.Text.{Text}
use cloudops_guard.Prelude.Result.{Result, ok, err, validation_error}

-- A `datetime`: the instant in microseconds since the start of year 1, UTC, and whether it has an
-- offset. Two instants are only ever compared after both were found to be timezone-aware.
pub record DateTime : Type 0 where
  pub micros : ℕ
  pub aware : Bool

pub data IngestionStatus : Type 0 where
  received retired deleted : IngestionStatus

pub data RetirementReason : Type 0 where
  customer_requested retention_expired : RetirementReason

pub data TokenScope : Type 0 where
  reports_write reports_read reports_delete : TokenScope

pub Status-discrete : Discrete IngestionStatus
Status-discrete = hlevel

pub Scope-discrete : Discrete TokenScope
Scope-discrete = hlevel

-- `status is IngestionStatus.RECEIVED`, and so on.
abbrev pub is_received : IngestionStatus → Bool
is_received received = true
is_received _ = false

abbrev pub is_retired : IngestionStatus → Bool
is_retired retired = true
is_retired _ = false

abbrev pub is_deleted : IngestionStatus → Bool
is_deleted deleted = true
is_deleted _ = false

pub status-cases : (s : IngestionStatus) → (s ≡ received) ⊎ ((s ≡ deleted) ⊎ (s ≡ retired))
status-cases received = inl refl
status-cases deleted = inr (inl refl)
status-cases retired = inr (inr refl)

pub record IngestionRecord : Type 0 where
  pub tenant_id : Text
  pub ingestion_id : Text
  pub report_fingerprint : Text
  pub received_at : DateTime
  pub status : IngestionStatus
  pub reason : Option RetirementReason
  pub retired_at : Option DateTime
  pub deleted_at : Option DateTime

-- `Field(min_length=1)`
abbrev pub is_nonempty : Text → Bool
is_nonempty [] = false
is_nonempty (c ∷ t) = true

-- `_timestamps_must_be_timezone_aware`
abbrev pub is_aware : Option DateTime → Bool
is_aware none = true
is_aware (some t) = t.aware

-- the branches of `_status_fields_are_internally_consistent` on the status
unfoldable pub status_fields_fit :
    IngestionStatus → Option RetirementReason → Option DateTime → Option DateTime → Bool
status_fields_fit received reason retired_at deleted_at =
    not (is_some reason || is_some retired_at || is_some deleted_at)
status_fields_fit retired reason retired_at deleted_at =
    (is_some reason && is_some retired_at) && not (is_some deleted_at)
status_fields_fit deleted reason retired_at deleted_at =
    is_some reason && is_some retired_at && is_some deleted_at

-- `b < a` is refused where both are given
abbrev pub not_before : Option DateTime → Option DateTime → Bool
not_before none b = true
not_before (some a) none = true
not_before (some a) (some b) = leb a.micros b.micros

unfoldable pub is_internally_consistent : IngestionRecord → Bool
unfolding status_fields_fit
is_internally_consistent r =
    status_fields_fit r.status r.reason r.retired_at r.deleted_at
    && not_before (some r.received_at) r.retired_at
    && not_before r.retired_at r.deleted_at

-- `IngestionRecord(...)`: the field validators, then the model validator.
unfoldable pub ingestion_record : IngestionRecord → Result IngestionRecord
unfolding is_internally_consistent
ingestion_record r =
    if is_nonempty r.tenant_id
      && is_nonempty r.ingestion_id
      && is_nonempty r.report_fingerprint
      && r.received_at.aware
      && is_aware r.retired_at
      && is_aware r.deleted_at
      && is_internally_consistent r
    then ok r
    else err validation_error

pub record Tombstone : Type 0 where
  pub tenant_id : Text
  pub ingestion_id : Text
  pub reason : RetirementReason
  pub retired_at : DateTime
  pub deleted_at : DateTime

-- `Tombstone(...)`
unfoldable pub tombstone : Tombstone → Result Tombstone
tombstone t =
    if is_nonempty t.tenant_id
      && is_nonempty t.ingestion_id
      && t.retired_at.aware
      && t.deleted_at.aware
      && leb t.retired_at.micros t.deleted_at.micros
    then ok t
    else err validation_error

pub record PurgeClaim : Type 0 where
  pub tenant_id : Text
  pub ingestion_id : Text
  pub generation : ℕ
  pub claim_id : ℕ

pub record TokenRecord : Type 0 where
  pub lookup_id : Text
  pub secret_hash : Text
  pub tenant_id : Text
  pub scopes : List TokenScope
  pub revoked : Bool
  pub created_at : DateTime

abbrev has_scopes : List TokenScope → Bool
has_scopes [] = false
has_scopes (x ∷ xs) = true

-- `TokenRecord(...)`
unfoldable pub token_record : TokenRecord → Result TokenRecord
token_record t =
    if is_nonempty t.lookup_id
      && is_nonempty t.secret_hash
      && is_nonempty t.tenant_id
      && has_scopes t.scopes
      && t.created_at.aware
    then ok t
    else err validation_error

-- The three lives of a record, described without the validators: when it was received, and, as far
-- as it has come, when and why it was retired and when it was deleted, in this order.
abbrev pub Life :
    IngestionStatus
    → Option RetirementReason
    → DateTime
    → Option DateTime
    → Option DateTime
    → Type 0
Life received none t none none = Unit
Life retired (some why) t (some u) none = t.micros ≤ u.micros
Life deleted (some why) t (some u) (some v) = (t.micros ≤ u.micros) × (u.micros ≤ v.micros)
Life _ _ _ _ _ = ⊥

pub record IsWellFormed (r : IngestionRecord) : Type 0 where
  pub tenant : is_nonempty r.tenant_id ≡ true
  pub ingestion : is_nonempty r.ingestion_id ≡ true
  pub fingerprint : is_nonempty r.report_fingerprint ≡ true
  pub received_aware : r.received_at.aware ≡ true
  pub retired_aware : is_aware r.retired_at ≡ true
  pub deleted_aware : is_aware r.deleted_at ≡ true
  pub life : Life r.status r.reason r.received_at r.retired_at r.deleted_at

module _ (t : DateTime) where
  consistent-Life :
      (s : IngestionStatus) (a : Option RetirementReason) (b c : Option DateTime)
      → (status_fields_fit s a b c && not_before (some t) b && not_before b c) ≡ true
      → Life s a t b c
  unfolding status_fields_fit
  consistent-Life received none none none h = tt
  consistent-Life retired (some why) (some u) none h = ground arith
  consistent-Life deleted (some why) (some u) (some v) h = ground arith
  consistent-Life received _ _ _ h = ground arith
  consistent-Life retired _ _ _ h = ground arith
  consistent-Life deleted _ _ _ h = ground arith

  Life-consistent :
      (s : IngestionStatus) (a : Option RetirementReason) (b c : Option DateTime)
      → Life s a t b c
      → (status_fields_fit s a b c && not_before (some t) b && not_before b c) ≡ true
  unfolding status_fields_fit
  Life-consistent received none none none h = refl
  Life-consistent retired (some why) (some u) none h = ground arith
  Life-consistent deleted (some why) (some u) (some v) h = ground arith
  Life-consistent received _ _ _ h = ground arith
  Life-consistent retired _ _ _ h = ground arith
  Life-consistent deleted _ _ _ h = ground arith

pub ingestion_record-eq_ok :
    (r s : IngestionRecord) → ingestion_record r ≡ ok s → (s ≡ r) × IsWellFormed r
unfolding ingestion_record
ingestion_record-eq_ok r s h =
    ground (arith, consistent-Life r.received_at r.status r.reason r.retired_at r.deleted_at)

ingestion_record-eq_self : (r : IngestionRecord) → IsWellFormed r → ingestion_record r ≡ ok r
unfolding ingestion_record
ingestion_record-eq_self r w =
    ground (arith, Life-consistent r.received_at r.status r.reason r.retired_at r.deleted_at w.life)

ingestion_record-cases :
    (r : IngestionRecord)
    → (ingestion_record r ≡ ok r) ⊎ (ingestion_record r ≡ err validation_error)
unfolding ingestion_record
ingestion_record-cases r = ground arith

-- The constructor accepts exactly the records with named fields, aware times and one of the three
-- lives, and returns them unchanged; it refuses all others with a validation error.
pub ingestion_record-IsWellFormed :
    (r : IngestionRecord)
    → (IsWellFormed r × (ingestion_record r ≡ ok r))
      ⊎ ((¬ IsWellFormed r) × (ingestion_record r ≡ err validation_error))
ingestion_record-IsWellFormed r = elim (ingestion_record-cases r) [
  | inl accepted ↦ inl ((ingestion_record-eq_ok r r accepted).1, accepted)
  | inr refused ↦ inr (λ w. cc (ingestion_record-eq_self r w), refused)
]
