-- ===== src/Api/Lifecycle.antt =====
-- ingestion_api/lifecycle.py: the retention sweep and the physical purge.
pub mod Purge
pub mod Sweep
pub mod Retention
use cloudops_guard.Prelude.{
  ℕ, ◌-◌, Bool, false, Option, none, some, List, [], ◌∷◌, ltb, ◌==◌, if◌then◌else◌,
}
use cloudops_guard.Prelude.Text.{Text, Key}
use cloudops_guard.Prelude.Result.{Result, ok, err, Exn, other, ◌>>=◌}
use cloudops_guard.Ingestion.Models.{DateTime, retention_expired, IngestionRecord, PurgeClaim}
use cloudops_guard.Ingestion.Metadata.{Store}
use cloudops_guard.Ingestion.Metadata.Lifecycle.{
  mark_retired, begin_purge, release_purge_claim, finalize_purge,
}
use cloudops_guard.Ingestion.Metadata.Sweep.{list_expired_for_retention_sweep}
use cloudops_guard.Ingestion.StorageKeys.{derive_storage_key}
use cloudops_guard.Ingestion.Blobs.{delete}
use cloudops_guard.Api.{World}

-- `run_retention_sweep`

-- `result.retired_at == at`
abbrev same_time : Option DateTime → DateTime → Bool
same_time none at = false
same_time (some t) at = t.micros == at.micros

-- the body of the loop: what it appends to `retired`
unfoldable pub keep_retired :
    DateTime → Option IngestionRecord → List IngestionRecord → List IngestionRecord
keep_retired at none rest = rest
keep_retired at (some r) rest = if same_time r.retired_at at then r ∷ rest else rest

-- the loop over the candidates; each reading of the store's clock stands in `later`
unfoldable pub sweep :
    DateTime → ℕ → List IngestionRecord → Store → Result (List IngestionRecord) × Store
sweep at later [] s = (ok [], s)
sweep at later (c ∷ cs) s =
    let (result, s') = mark_retired later (c.tenant_id, c.ingestion_id) at retention_expired s in
    let rest = sweep at later cs s' in
    elim result [
      | err e ↦ (err e, s')
      | ok r ↦ elim rest.0 [ err e ↦ (err e, rest.1) | ok rs ↦ (ok (keep_retired at r rs), rest.1) ]
    ]

-- The time that is `retention_period` before `at`, where there is one in the calendar.
abbrev pub cutoff : DateTime → ℕ → DateTime
cutoff at retention_period = record at { micros = at.micros - retention_period }

-- `at - config.retention_period`: before the first instant of the year 1 it raises an `OverflowError`
unfoldable pub before : DateTime → ℕ → Result DateTime
before at retention_period =
    if ltb at.micros retention_period then err other else ok (cutoff at retention_period)

unfoldable pub run_retention_sweep :
    ℕ → DateTime → ℕ → Store → Result (List IngestionRecord) × Store
unfolding sweep
run_retention_sweep retention_period at later s =
    elim (before at retention_period >>= λ older_than.
    list_expired_for_retention_sweep older_than s) [
      | err e ↦ (err e, s)
      | ok candidates ↦ sweep at later candidates s
    ]

-- `purge_retired_ingestion`

-- from the granted claim on; `fault` is what `blob_store.delete` raises, if it does
unfoldable pub purge_claimed :
    ℕ → Option Exn → PurgeClaim → Text → World → Result (Option IngestionRecord) × World
purge_claimed later (some e) claim storage_key w =
    (err e, record w { metadata = release_purge_claim claim w.metadata })
purge_claimed later none claim storage_key w =
    let (result, metadata) = finalize_purge later claim w.metadata in
    let w' : World = record { metadata = metadata; blobs = delete storage_key w.blobs } in
    elim result [
      | ok r ↦ (ok r, w')
      | err e ↦ (err e, record w' { metadata = release_purge_claim claim metadata })
    ]

-- The key is derived before the first `try`: where that raises, the claim stays active.
unfoldable pub purge_with :
    ℕ → Option Exn → Key → PurgeClaim → World → Result (Option IngestionRecord) × World
purge_with later fault key claim w = elim (derive_storage_key key.0 key.1) [
  | err e ↦ (err e, w)
  | ok storage_key ↦ purge_claimed later fault claim storage_key w
]

unfoldable pub purge_retired_ingestion :
    ℕ → ℕ → Option Exn → Key → DateTime → World → Result (Option IngestionRecord) × World
purge_retired_ingestion later later' fault key at w =
    let (granted, metadata) = begin_purge later key at w.metadata in
    let w' : World = record w { metadata = metadata } in
    elim granted [
      | err e ↦ (err e, w')
      | ok none ↦ (ok none, w')
      | ok (some claim) ↦ purge_with later' fault key claim w'
    ]
