-- ===== src/Api/Coordinator.antt =====
-- ingestion_api/coordinator.py: the safe write of a report to both stores.
pub mod Reservation
pub mod SafeWrite
use cloudops_guard.Prelude.{if◌then◌else◌, ℕ, zero, suc, Bool, true, false, Option, none, some}
use cloudops_guard.Prelude.Text.{Text}
use cloudops_guard.Prelude.Codes.{Code}
use cloudops_guard.Prelude.Result.{
  Result, ok, err, other, api_error, ingestion_id_conflict, idempotency_key_conflict,
}
use cloudops_guard.Ingestion.Models.{DateTime, received, IngestionRecord, ingestion_record}
use cloudops_guard.Ingestion.Metadata.{Store, create_or_get_received}
use cloudops_guard.Ingestion.StorageKeys.{derive_storage_key}
use cloudops_guard.Ingestion.Blobs.{Bytes, put_if_absent, delete}
use cloudops_guard.Api.{World}

-- `MAX_INGESTION_ID_GENERATION_ATTEMPTS`
abbrev pub max_ingestion_id_generation_attempts : ℕ
max_ingestion_id_generation_attempts = 5

-- What one turn of the loop takes from outside: the generated id, the reading of `config.clock()`,
-- which may raise, the readings that the metadata store makes, and the failures of the stores: an
-- exception that `put_if_absent` or `create_or_get_received` does not document, raised after it did
-- its work (true) or before, and whether `delete` raises and leaves the bytes.
pub record Attempt : Type 0 where
  pub ingestion_id : Text
  pub clock : Result DateTime
  pub now : ℕ
  pub later : ℕ
  pub reserving : Option Bool
  pub registering : Option Bool
  pub cleaning : Bool

abbrev pub Outcome : Type 0
Outcome = Result (IngestionRecord × Bool) × World

-- `continue`, or the end of the call
pub data Turn : Type 0 where
  again : World → Turn
  finished : Result (IngestionRecord × Bool) → World → Turn

-- `IngestionRecord(...)` with the fields of the request
abbrev pub candidate : Text → Text → Text → DateTime → IngestionRecord
candidate tenant_id ingestion_id report_fingerprint now = record {
  tenant_id = tenant_id;
  ingestion_id = ingestion_id;
  report_fingerprint = report_fingerprint;
  received_at = now;
  status = received;
  reason = none;
  retired_at = none;
  deleted_at = none;
}

-- `config.blob_store.delete(storage_key)`, and what follows it
unfoldable pub clean_up : Attempt → Text → World → (World → Turn) → Turn
clean_up a storage_key w next =
    if a.cleaning
    then finished (err other) w
    else next (record w { blobs = delete storage_key w.blobs })

-- what the call of `create_or_get_received` comes to
unfoldable pub registered :
    Option Bool
    → Result (IngestionRecord × Bool) × Store
    → Store
    → Result (IngestionRecord × Bool) × Store
registered none done s = done
registered (some true) done s = (err other, done.1)
registered (some false) done s = (err other, s)

-- after `create_or_get_received`: the reserved bytes stay with a new record, and also where the
-- exception does not tell whether one was written
unfoldable pub settle : Attempt → Text → World → Result (IngestionRecord × Bool) → Turn
settle a storage_key w (ok (r, true)) = finished (ok (r, true)) w
settle a storage_key w (ok (r, false)) = clean_up a storage_key w (finished (ok (r, false)))
settle a storage_key w (err ingestion_id_conflict) = clean_up a storage_key w again
settle a storage_key w (err idempotency_key_conflict) =
    clean_up a storage_key w (finished (err idempotency_key_conflict))
settle a storage_key w (err e) = finished (err e) w

-- after the reservation
unfoldable pub register : Attempt → Text → Text → Option Text → Text → World → Turn
register a tenant_id report_fingerprint key storage_key w = elim a.clock [
  | err e ↦ clean_up a storage_key w (finished (err e))
  | ok now ↦ elim (ingestion_record (candidate tenant_id a.ingestion_id report_fingerprint now)) [
    | err e ↦ clean_up a storage_key w (finished (err e))
    | ok r ↦
        let (result, metadata) =
          registered a.registering
            (create_or_get_received a.now a.later tenant_id report_fingerprint a.ingestion_id r key
              w.metadata)
            w.metadata in
        settle a storage_key (record w { metadata = metadata }) result
  ]
]

-- a reservation that raised
unfoldable pub unreserved : Bool → Text → Bytes → World → World
unreserved true storage_key b w = record w { blobs = (put_if_absent storage_key b w.blobs).1 }
unreserved false storage_key b w = w

-- one turn of the loop
unfoldable pub attempt : Attempt → Text → Text → Bytes → Option Text → World → Turn
attempt a tenant_id report_fingerprint report_bytes key w =
    elim (derive_storage_key tenant_id a.ingestion_id) [
      | err e ↦ finished (err e) w
      | ok storage_key ↦ elim a.reserving [
        | some wrote ↦ finished (err other) (unreserved wrote storage_key report_bytes w)
        | none ↦
            let (reserved, blobs) = put_if_absent storage_key report_bytes w.blobs in
            if reserved
            then register a tenant_id report_fingerprint key storage_key
                (record w { blobs = blobs })
            else again w
      ]
    ]

-- the loop, with the turns that are left and the number of the next
unfoldable pub attempts :
    ℕ → ℕ → (ℕ → Attempt) → Text → Text → Bytes → Option Text → World → Outcome
attempts zero n source tenant_id report_fingerprint report_bytes key w =
    (err (api_error Code.internal_error none), w)
attempts (suc left) n source tenant_id report_fingerprint report_bytes key w =
    elim (attempt (source n) tenant_id report_fingerprint report_bytes key w) [
      | again w' ↦ attempts left (suc n) source tenant_id report_fingerprint report_bytes key w'
      | finished result w' ↦ (result, w')
    ]

-- `create_ingestion`; the fingerprint is what `compute_report_fingerprint` returned or raised
unfoldable pub create_ingestion :
    (ℕ → Attempt) → Text → Result Text → Bytes → Option Text → World → Outcome
create_ingestion source tenant_id (err e) report_bytes key w = (err e, w)
create_ingestion source tenant_id (ok report_fingerprint) report_bytes key w =
    attempts max_ingestion_id_generation_attempts 0 source tenant_id report_fingerprint report_bytes
      key w
