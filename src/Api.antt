-- ===== src/Api.antt =====
-- ingestion_api/: what the HTTP handlers run against the two stores, which share no transaction.
pub mod Coordinator
pub mod Lifecycle
pub mod Consistency
pub mod Requests
pub mod Tenants
use cloudops_guard.Prelude.{Bool, true, false, Option, none, some, ◌≡◌}
use cloudops_guard.Prelude.Text.{Key, key_eq}
use cloudops_guard.Prelude.Dict
use cloudops_guard.Ingestion.Models.{IngestionStatus, received, retired, deleted, IngestionRecord}
use cloudops_guard.Ingestion.Metadata.{Store}
use cloudops_guard.Ingestion.Metadata.Invariant.{IsValid, status_of}
use cloudops_guard.Ingestion.Blobs.{BlobStore, has_blob}

-- `config.metadata_store` and `config.blob_store`
pub record World : Type 0 where
  pub metadata : Store
  pub blobs : BlobStore

-- whether a record in this state has its report bytes: until it is physically purged
abbrev pub holds_bytes : Option IngestionStatus → Bool
holds_bytes none = false
holds_bytes (some received) = true
holds_bytes (some retired) = true
holds_bytes (some deleted) = false

abbrev pub holds : Key → Store → Bool
holds key s = holds_bytes (status_of (Dict.get s.records key))

-- The metadata store is valid, no record that is received or retired is without its report, and no
-- report without such a record, but for the ingestions that are marked.
pub record IsConsistent (marked : Key → Bool) (w : World) : Type 0 where
  pub valid : IsValid w.metadata
  pub covered : (key : Key) → holds key w.metadata ≡ true → has_blob key w.blobs ≡ true
  pub backed : (key : Key) → marked key ≡ false → has_blob key w.blobs ≡ holds key w.metadata
