-- ===== src/Ingestion/Metadata.antt =====
-- ingestion/reference.py, `InMemoryMetadataStore`. Each method is one step under the store's lock. It
-- returns the store beside its outcome, also where it raises. A reading of the injected clock is an
-- argument: `now` at the head of the method, `later` in `_expire_tombstone_if_needed`.
pub mod Lifecycle
pub mod Invariant
pub mod Creation
pub mod Transitions
pub mod Calls
pub mod Claims
pub mod Exclusive
pub mod Dedup
pub mod Replay
pub mod Deletion
pub mod Sweep
pub mod Entries
use Prim.Native.Nat.{◌*◌}
use cloudops_guard.Prelude.{
  ℕ, ◌+◌, ◌-◌, ltb, leb, Bool, true, false, ◌&&◌, not, Option, none, some, if◌then◌else◌, ite,
}
use cloudops_guard.Prelude.Text.{Text, Key, ◌≟◌, text_eq, key_eq}
use cloudops_guard.Prelude.Dict
use cloudops_guard.Prelude.Dict.{Dict}
use cloudops_guard.Prelude.Result.{
  Result, ok, err, value_error, key_error, idempotency_key_conflict, ingestion_id_conflict,
}
use cloudops_guard.Ingestion.Models.{DateTime, is_received, IngestionRecord, Tombstone}

-- `IDEMPOTENCY_KEY_WINDOW`: 24 hours
abbrev pub idempotency_key_window : ℕ
idempotency_key_window = 24 * 3_600_000_000

-- `_ActivePurgeClaim`
pub record ActiveClaim : Type 0 where
  pub generation : ℕ
  pub claim_id : ℕ
  pub purged_record : IngestionRecord
  pub purged_tombstone : Tombstone

-- `_KeyBinding`
pub record KeyBinding : Type 0 where
  pub ingestion_id : Text
  pub received_at : DateTime

-- The fields of the store. Its keys are a tenant with an ingestion, a fingerprint or an
-- idempotency key.
pub record Store : Type 0 where
  pub tombstone_retention : ℕ
  pub records : Dict Key IngestionRecord
  pub tombstones : Dict Key Tombstone
  pub generations : Dict Key ℕ
  pub next_generation : ℕ
  pub claims : Dict Key ActiveClaim
  pub next_claim_id : ℕ
  pub fingerprints : Dict Key Text
  pub bindings : Dict Key KeyBinding

-- `InMemoryMetadataStore(tombstone_retention=...)`
abbrev pub new_store : ℕ → Store
new_store retention = record {
  tombstone_retention = retention;
  records = Dict.empty;
  tombstones = Dict.empty;
  generations = Dict.empty;
  next_generation = 0;
  claims = Dict.empty;
  next_claim_id = 0;
  fingerprints = Dict.empty;
  bindings = Dict.empty;
}

-- `del self._tombstones[key]; self._records.pop(key, None)`
unfoldable pub forget : Key → Store → Store
forget key s = record s {
  records = Dict.remove s.records key;
  tombstones = Dict.remove s.tombstones key;
}

-- `_expire_tombstone_if_needed`. A negative age is never above the retention, like the age 0 that the
-- subtraction stops at.
unfoldable pub expire_tombstone_if_needed : ℕ → Key → Store → Store
expire_tombstone_if_needed later key s = elim (Dict.get s.tombstones key) [
  | none ↦ s
  | some t ↦ if ltb s.tombstone_retention (later - t.deleted_at.micros) then forget key s else s
]

-- `create_or_get_received`

-- the record that a live binding of the key points at (`bound_record` where `still_active`)
unfoldable pub active_binding : ℕ → Text → Option Text → Store → Option IngestionRecord
active_binding now tenant_id none s = none
active_binding now tenant_id (some idempotency_key) s =
    elim (Dict.get s.bindings (tenant_id, idempotency_key)) [
      | none ↦ none
      | some b ↦ elim (Dict.get s.records (tenant_id, b.ingestion_id)) [
        | none ↦ none
        | some r ↦
            if is_received r.status && leb now (b.received_at.micros + idempotency_key_window)
            then some r
            else none
      ]
    ]

-- `self._idempotency_bindings[(tenant_id, idempotency_key)] = ...`, if a key was supplied
unfoldable pub bind_key : Text → Option Text → IngestionRecord → Store → Store
bind_key tenant_id none r s = s
bind_key tenant_id (some idempotency_key) r s = record s {
  bindings =
      Dict.put s.bindings (tenant_id, idempotency_key)
        (record { ingestion_id = r.ingestion_id; received_at = r.received_at });
}

-- the writes of step 3
unfoldable pub insert_record : Text → IngestionRecord → Store → Store
insert_record tenant_id r s = record s {
  records = Dict.put s.records (tenant_id, r.ingestion_id) r;
  next_generation = s.next_generation + 1;
  generations = Dict.put s.generations (tenant_id, r.ingestion_id) (s.next_generation + 1);
  fingerprints = Dict.put s.fingerprints (tenant_id, r.report_fingerprint) r.ingestion_id;
}

-- step 3, after the expiry
unfoldable pub create_new :
    Text → IngestionRecord → Option Text → Store → Result (IngestionRecord × Bool) × Store
create_new tenant_id r idempotency_key s = elim (Dict.get s.records (tenant_id, r.ingestion_id)) [
  | some existing ↦ (err ingestion_id_conflict, s)
  | none ↦ (ok (r, true), bind_key tenant_id idempotency_key r (insert_record tenant_id r s))
]

-- steps 2 and 3
unfoldable pub get_or_create :
    ℕ → Text → IngestionRecord → Option Text → Store → Result (IngestionRecord × Bool) × Store
get_or_create later tenant_id new_record idempotency_key s =
    elim (Dict.get s.fingerprints (tenant_id, new_record.report_fingerprint)) [
      | some existing_ingestion_id ↦ elim (Dict.get s.records (tenant_id, existing_ingestion_id)) [
        | none ↦ (err key_error, s)
        | some existing_record ↦
            (ok (existing_record, false), bind_key tenant_id idempotency_key existing_record s)
      ]
      | none ↦
          create_new tenant_id new_record idempotency_key
            (expire_tombstone_if_needed later (tenant_id, new_record.ingestion_id) s)
    ]

-- the four preconditions
unfoldable pub is_candidate : Text → Text → Text → IngestionRecord → Bool
is_candidate tenant_id report_fingerprint new_ingestion_id r =
    ite (r.tenant_id ≟ tenant_id)
      (ite (r.report_fingerprint ≟ report_fingerprint)
        (ite (r.ingestion_id ≟ new_ingestion_id) (is_received r.status) false) false)
      false

unfoldable pub create_or_get_received :
    ℕ
    → ℕ
    → Text
    → Text
    → Text
    → IngestionRecord
    → Option Text
    → Store
    → Result (IngestionRecord × Bool) × Store
create_or_get_received now later tenant_id report_fingerprint new_ingestion_id r key s =
    if not (is_candidate tenant_id report_fingerprint new_ingestion_id r)
    then (err value_error, s)
    else elim (active_binding now tenant_id key s) [
      | some bound_record ↦
          ite (bound_record.report_fingerprint ≟ report_fingerprint) (ok (bound_record, false), s)
            (err idempotency_key_conflict, s)
      | none ↦ get_or_create later tenant_id r key s
    ]

-- `get` and `get_any_status`, after the expiry
abbrev live : Option IngestionRecord → Option IngestionRecord
live none = none
live (some r) = if is_received r.status then some r else none

unfoldable pub get : ℕ → Key → Store → Result (Option IngestionRecord) × Store
get later key s =
    let s' = expire_tombstone_if_needed later key s in (ok (live (Dict.get s'.records key)), s')

unfoldable pub get_any_status : ℕ → Key → Store → Result (Option IngestionRecord) × Store
get_any_status later key s =
    let s' = expire_tombstone_if_needed later key s in (ok (Dict.get s'.records key), s')

unfoldable pub get_tombstone : ℕ → Key → Store → Result (Option Tombstone) × Store
get_tombstone later key s =
    let s' = expire_tombstone_if_needed later key s in (ok (Dict.get s'.tombstones key), s')
