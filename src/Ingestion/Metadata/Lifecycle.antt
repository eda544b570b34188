-- ===== src/Ingestion/Metadata/Lifecycle.antt =====
-- ingestion/reference.py, `InMemoryMetadataStore`: retirement, the purge claims, and the listing for
-- the retention sweep.
use cloudops_guard.Prelude.{ℕ, ◌+◌, ◌&&◌, not, Option, none, some, if◌then◌else◌, ite, ◌==◌}
use cloudops_guard.Prelude.Text.{Text, Key, ◌≟◌, text_eq, key_eq}
use cloudops_guard.Prelude.Dict
use cloudops_guard.Prelude.Dict.{Dict}
use cloudops_guard.Prelude.Result.{Result, ok, err, value_error, validation_error, ◌>>=◌}
use cloudops_guard.Ingestion.Models.{
  DateTime, received, retired, deleted, RetirementReason, is_received, IngestionRecord,
  ingestion_record, Tombstone, tombstone, PurgeClaim,
}
use cloudops_guard.Ingestion.Metadata.{Store, ActiveClaim, expire_tombstone_if_needed}

-- `mark_retired`

abbrev pub retired_candidate : DateTime → RetirementReason → IngestionRecord → IngestionRecord
retired_candidate at why r = record r {
  status = retired;
  reason = some why;
  retired_at = some at;
  deleted_at = none;
}

-- `if self._active_fingerprints.get(fingerprint_key) == ingestion_id: del ...`
unfoldable pub release_fingerprint : Key → Text → Dict Key Text → Dict Key Text
release_fingerprint fingerprint_key ingestion_id d = elim (Dict.get d fingerprint_key) [
  | none ↦ d
  | some i ↦ ite (i ≟ ingestion_id) (Dict.remove d fingerprint_key) d
]

unfoldable pub commit_retired : Key → IngestionRecord → Store → Store
commit_retired key r s = record s {
  records = Dict.put s.records key r;
  fingerprints = release_fingerprint (key.0, r.report_fingerprint) key.1 s.fingerprints;
}

-- the branches of `mark_retired`, after the expiry
unfoldable pub retire :
    DateTime → RetirementReason → Key → Store → Result (Option IngestionRecord) × Store
retire at why key s = elim (Dict.get s.records key) [
  | none ↦ (ok none, s)
  | some r ↦
      if is_received r.status
      then elim (ingestion_record (retired_candidate at why r)) [
        | err e ↦ (err e, s)
        | ok r' ↦ (ok (some r'), commit_retired key r' s)
      ]
      else (ok (some r), s)
]

unfoldable pub mark_retired :
    ℕ → Key → DateTime → RetirementReason → Store → Result (Option IngestionRecord) × Store
mark_retired later key at why s =
    if not at.aware
    then (err value_error, s)
    else retire at why key (expire_tombstone_if_needed later key s)

-- the candidates that `mark_purged` and `begin_purge` build and validate

abbrev pub deleted_candidate : DateTime → IngestionRecord → IngestionRecord
deleted_candidate at r = record r { status = deleted; deleted_at = some at }

-- a tombstone takes no missing reason or time
unfoldable pub tombstone_of :
    Key → Option RetirementReason → Option DateTime → DateTime → Result Tombstone
tombstone_of key (some why) (some retired_at) at = tombstone (record {
  tenant_id = key.0;
  ingestion_id = key.1;
  reason = why;
  retired_at = retired_at;
  deleted_at = at;
})
tombstone_of key _ _ at = err validation_error

unfoldable pub purge_candidates :
    Key → DateTime → IngestionRecord → Result (IngestionRecord × Tombstone)
purge_candidates key at r = do
  purged_record ← ingestion_record (deleted_candidate at r)
  t ← tombstone_of key purged_record.reason purged_record.retired_at at
  ok (purged_record, t)

-- `self._records[key] = ...; self._tombstones[key] = ...`
unfoldable pub commit_deleted : Key → IngestionRecord → Tombstone → Store → Store
commit_deleted key r t s = record s {
  records = Dict.put s.records key r;
  tombstones = Dict.put s.tombstones key t;
}

-- `mark_purged` of a retired record
unfoldable pub purge :
    DateTime → Key → IngestionRecord → Store → Result (Option IngestionRecord) × Store
purge at key r s = elim (Dict.get s.claims key) [
  | some c ↦ (err value_error, s)
  | none ↦ elim (purge_candidates key at r) [
    | err e ↦ (err e, s)
    | ok c ↦ (ok (some c.0), commit_deleted key c.0 c.1 s)
  ]
]

unfoldable pub purge_by_status :
    DateTime → Key → IngestionRecord → Store → Result (Option IngestionRecord) × Store
purge_by_status at key r s = elim r.status [
  | deleted ↦ (ok (some r), s)
  | received ↦ (err value_error, s)
  | retired ↦ purge at key r s
]

unfoldable pub mark_purged : ℕ → Key → DateTime → Store → Result (Option IngestionRecord) × Store
mark_purged later key at s =
    if not at.aware
    then (err value_error, s)
    else let s' = expire_tombstone_if_needed later key s in
      elim (Dict.get s'.records key) [ none ↦ (ok none, s') | some r ↦ purge_by_status at key r s' ]

-- `begin_purge`

-- `self._generations.get(key, 0)`
abbrev pub generation_of : Key → Store → ℕ
generation_of key s = elim (Dict.get s.generations key) [ none ↦ 0 | some g ↦ g ]

abbrev pub claim_for : Key → Store → PurgeClaim
claim_for key s = record {
  tenant_id = key.0;
  ingestion_id = key.1;
  generation = generation_of key s;
  claim_id = s.next_claim_id + 1;
}

unfoldable pub acquire_claim : Key → IngestionRecord → Tombstone → Store → Store
acquire_claim key r t s = record s {
  next_claim_id = s.next_claim_id + 1;
  claims = Dict.put s.claims key (record {
    generation = generation_of key s;
    claim_id = s.next_claim_id + 1;
    purged_record = r;
    purged_tombstone = t;
  });
}

-- the claim on a retired record
unfoldable pub claim : DateTime → Key → IngestionRecord → Store → Result (Option PurgeClaim) × Store
claim at key r s = elim (Dict.get s.claims key) [
  | some c ↦ (ok none, s)
  | none ↦ elim (purge_candidates key at r) [
    | err e ↦ (err e, s)
    | ok c ↦ (ok (some (claim_for key s)), acquire_claim key c.0 c.1 s)
  ]
]

unfoldable pub claim_by_status :
    DateTime → Key → IngestionRecord → Store → Result (Option PurgeClaim) × Store
claim_by_status at key r s = elim r.status [
  | received ↦ (err value_error, s)
  | deleted ↦ (ok none, s)
  | retired ↦ claim at key r s
]

unfoldable pub begin_purge : ℕ → Key → DateTime → Store → Result (Option PurgeClaim) × Store
begin_purge later key at s =
    if not at.aware
    then (err value_error, s)
    else let s' = expire_tombstone_if_needed later key s in
      elim (Dict.get s'.records key) [ none ↦ (ok none, s') | some r ↦ claim_by_status at key r s' ]

-- `release_purge_claim` and `finalize_purge`

abbrev pub claim_key : PurgeClaim → Key
claim_key c = (c.tenant_id, c.ingestion_id)

-- the active claim, if `c` is exactly it
unfoldable pub exact_claim : PurgeClaim → Store → Option ActiveClaim
exact_claim c s = elim (Dict.get s.claims (claim_key c)) [
  | none ↦ none
  | some a ↦ if a.generation == c.generation && a.claim_id == c.claim_id then some a else none
]

abbrev pub drop_claim : PurgeClaim → Store → Store
drop_claim c s = record s { claims = Dict.remove s.claims (claim_key c) }

unfoldable pub release_purge_claim : PurgeClaim → Store → Store
unfolding exact_claim
release_purge_claim c s = elim (exact_claim c s) [ none ↦ s | some a ↦ drop_claim c s ]

-- `finalize_purge`, after the expiry
unfoldable pub finalize : PurgeClaim → Store → Result (Option IngestionRecord) × Store
unfolding exact_claim commit_deleted
finalize c s = elim (exact_claim c s) [
  | none ↦ (ok none, s)
  | some a ↦ (
    ok (some a.purged_record),
    drop_claim c (commit_deleted (claim_key c) a.purged_record a.purged_tombstone s),
  )
]

unfoldable pub finalize_purge : ℕ → PurgeClaim → Store → Result (Option IngestionRecord) × Store
unfolding finalize
finalize_purge later c s = finalize c (expire_tombstone_if_needed later (claim_key c) s)
