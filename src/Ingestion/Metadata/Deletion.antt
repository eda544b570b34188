-- ===== src/Ingestion/Metadata/Deletion.antt =====
-- How a record goes from `received` to `retired` to `deleted`.
use cloudops_guard.Prelude.Dict
use cloudops_guard.Prelude.{
  ◌∙◌, ap, some-injective, subst, ℕ, ◌≤◌, true, none, some, ◌≡◌, ◌≢◌, arith,
}
use cloudops_guard.Ingestion.Metadata.{Option, Store, expire_tombstone_if_needed}
use cloudops_guard.Ingestion.Models.{
  DateTime, IngestionRecord, Tombstone, PurgeClaim, ingestion_record-eq_ok, tombstone, received,
  retired, deleted, RetirementReason, ingestion_record,
}
use cloudops_guard.Prelude.Text.{text_eq, key_eq, Key}
use cloudops_guard.Ingestion.Metadata.Invariant.{get-release_fingerprint, status_of, IsValid}
use cloudops_guard.Prelude.Result.{Result, ok}
use cloudops_guard.Ingestion.Metadata.Lifecycle.{
  exact_claim, finalize, commit_deleted, drop_claim, claim, claim_by_status, claim_for,
  acquire_claim, finalize_purge, begin_purge, tombstone_of, purge_candidates, commit_retired,
  retire, mark_retired, deleted_candidate, retired_candidate,
}
use cloudops_guard.Ingestion.Metadata.Transitions.{mark_retired-IsValid}

-- Only a deleted record has a tombstone to expire.
pub expire_undeleted :
    (later : ℕ) (key : Key) (s : Store)
    → IsValid s
    → status_of (Dict.get s.records key) ≢ some deleted
    → expire_tombstone_if_needed later key s ≡ s
unfolding expire_tombstone_if_needed
expire_undeleted later key s v h = ground (arith, v.buried key)

pub retired_candidate-formed :
    (at : DateTime) (why : RetirementReason) (r : IngestionRecord)
    → ingestion_record r ≡ ok r
    → at.aware ≡ true
    → r.received_at.micros ≤ at.micros
    → ingestion_record (retired_candidate at why r) ≡ ok (retired_candidate at why r)
unfolding ingestion_record
retired_candidate-formed at why r sound aware after = ground arith

deleted_candidate-formed :
    (at : DateTime) (r : IngestionRecord) (u : DateTime)
    → ingestion_record r ≡ ok r
    → r.status ≡ retired
    → r.retired_at ≡ some u
    → at.aware ≡ true
    → u.micros ≤ at.micros
    → ingestion_record (deleted_candidate at r) ≡ ok (deleted_candidate at r)
unfolding ingestion_record
deleted_candidate-formed at r u sound gone when aware after = ground arith

-- What a retirement and a purge are to make of a record, field by field.
abbrev pub as_retired : DateTime → RetirementReason → IngestionRecord → IngestionRecord
as_retired at why r = record {
  tenant_id = r.tenant_id;
  ingestion_id = r.ingestion_id;
  report_fingerprint = r.report_fingerprint;
  received_at = r.received_at;
  status = retired;
  reason = some why;
  retired_at = some at;
  deleted_at = none;
}

abbrev pub as_deleted : DateTime → RetirementReason → DateTime → IngestionRecord → IngestionRecord
as_deleted at why u r = record {
  tenant_id = r.tenant_id;
  ingestion_id = r.ingestion_id;
  report_fingerprint = r.report_fingerprint;
  received_at = r.received_at;
  status = deleted;
  reason = some why;
  retired_at = some u;
  deleted_at = some at;
}

as_deleted_lem :
    (at u : DateTime) (why : RetirementReason) (r : IngestionRecord)
    → r.reason ≡ some why
    → r.retired_at ≡ some u
    → deleted_candidate at r ≡ as_deleted at why u r
as_deleted_lem at u why r reason when = ground (arith, reason, when)

module _ (later : ℕ) (key : Key) (at : DateTime) (why : RetirementReason) (r : IngestionRecord)
    (s : Store) (v : IsValid s) (found : Dict.get s.records key ≡ some r)
    (fresh : r.status ≡ received) where
  -- Retiring a received record at a time not before its receipt returns and writes the record with
  -- the status retired, this reason and this time and else the same fields, and takes its fingerprint
  -- out of the index: the same content can then be received anew.
  pub mark_retired_received :
      at.aware ≡ true
      → r.received_at.micros ≤ at.micros
      → (s' : Store) × (mark_retired later key at why s ≡ (ok (some (as_retired at why r)), s'))
        × (Dict.get s'.records key ≡ some (as_retired at why r))
        × (Dict.get s'.fingerprints (key.0, r.report_fingerprint) ≡ none)
  unfolding mark_retired retire commit_retired
  mark_retired_received aware after = (
    commit_retired key (retired_candidate at why r) s,
    ground (
      arith,
      expire_undeleted later key s v,
      retired_candidate-formed at why r (v.formed key r found) aware after,
    ),
    ground (arith, Dict.get-put s.records key key (retired_candidate at why r)),
    ground (
      arith,
      v.active key.0 key.1 r.report_fingerprint,
      get-release_fingerprint (key.0, r.report_fingerprint) key.1 s.fingerprints
          (key.0, r.report_fingerprint),
    ),
  )

retired_lem :
    (later : ℕ) (key : Key) (at : DateTime) (why : RetirementReason) (r : IngestionRecord)
    (s s' : Store)
    → IsValid s
    → Dict.get s.records key ≡ some r
    → r.status ≡ received
    → mark_retired later key at why s ≡ (ok (some (retired_candidate at why r)), s')
    → IsValid s' × (Dict.get s'.records key ≡ some (retired_candidate at why r))
retired_lem later key at why r s s' v found fresh first = (
  subst IsValid (ap (λ (x : Result (Option IngestionRecord) × Store). x.1) first)
      (mark_retired-IsValid at later key why v),
  unfold mark_retired retire commit_retired in
      ground (
        arith,
        expire_undeleted later key s v (rw (found, fresh) (λ e. cc)),
        Dict.get-put_self s.records key (retired_candidate at why r),
        ingestion_record-eq_ok (retired_candidate at why r),
      ),
)

-- a record that is past `received` is returned as it is
retire_past :
    (later : ℕ) (key : Key) (at : DateTime) (why : RetirementReason) (q : IngestionRecord)
    (s : Store)
    → IsValid s
    → at.aware ≡ true
    → Dict.get s.records key ≡ some q
    → q.status ≢ received
    → q.status ≢ deleted
    → mark_retired later key at why s ≡ (ok (some q), s)
unfolding mark_retired retire
retire_past later key at why q s v aware found past kept =
    ground (arith, expire_undeleted later key s v (rw found (λ e. kept (some-injective _ _ e))))

-- Retirement is idempotent: retiring the record again, for another reason and at another time, returns
-- the record of the first retirement with its reason and time, and changes nothing.
pub mark_retired_twice :
    (later later' : ℕ) (key : Key) (at at' : DateTime) (why why' : RetirementReason)
    (r : IngestionRecord) (s s' : Store)
    → IsValid s
    → at'.aware ≡ true
    → Dict.get s.records key ≡ some r
    → r.status ≡ received
    → mark_retired later key at why s ≡ (ok (some (retired_candidate at why r)), s')
    → mark_retired later' key at' why' s' ≡ (ok (some (retired_candidate at why r)), s')
mark_retired_twice later later' key at at' why why' r s s' v aware found fresh first =
    let q = retired_candidate at why r in
    let (v', left) = retired_lem later key at why r s s' v found fresh first in
    retire_past later' key at' why' q s' v' aware left (λ e. cc) (λ e. cc)

abbrev pub purge_tombstone : Key → DateTime → RetirementReason → DateTime → Tombstone
purge_tombstone key at why u = record {
  tenant_id = key.0;
  ingestion_id = key.1;
  reason = why;
  retired_at = u;
  deleted_at = at;
}

module _ (later : ℕ) (key : Key) (at : DateTime) (r : IngestionRecord) (why : RetirementReason)
    (u : DateTime) (s : Store) (v : IsValid s) (found : Dict.get s.records key ≡ some r)
    (gone : r.status ≡ retired) (reason : r.reason ≡ some why) (when : r.retired_at ≡ some u)
    (aware : at.aware ≡ true) (after : u.micros ≤ at.micros) where
  -- the candidates pass the validation
  purge_candidates_lem :
      purge_candidates key at r ≡ ok (deleted_candidate at r, purge_tombstone key at why u)
  unfolding purge_candidates tombstone_of tombstone
  purge_candidates_lem =
      let sound = v.formed key r found in
      let w = (ingestion_record-eq_ok r r sound).1 in
      let own = v.keyed key r found in
      ground (arith, deleted_candidate-formed at r u sound gone when aware after)

  module _ (free : Dict.get s.claims key ≡ none) where
    abbrev held : Store
    held = acquire_claim key (deleted_candidate at r) (purge_tombstone key at why u) s

    abbrev granted : PurgeClaim
    granted = claim_for key s

    begin_lem : begin_purge later key at s ≡ (ok (some granted), held)
    unfolding begin_purge claim_by_status claim
    begin_lem =
        ground
          (arith, expire_undeleted later key s v (rw (found, gone) (λ e. cc)), purge_candidates_lem)

    held_lem :
        Dict.get held.claims key
        ≡ some (record {
          generation = granted.generation;
          claim_id = granted.claim_id;
          purged_record = deleted_candidate at r;
          purged_tombstone = purge_tombstone key at why u;
        })
    unfolding acquire_claim
    held_lem = Dict.get-put_self s.claims key _

    exact_lem :
        exact_claim granted held
        ≡ some (record {
          generation = granted.generation;
          claim_id = granted.claim_id;
          purged_record = deleted_candidate at r;
          purged_tombstone = purge_tombstone key at why u;
        })
    unfolding exact_claim
    exact_lem = ground (arith, held_lem)

    expire_held : (later' : ℕ) → expire_tombstone_if_needed later' key held ≡ held
    unfolding expire_tombstone_if_needed acquire_claim
    expire_held later' = ground (arith, v.buried key)

    finalize_lem :
        (later' : ℕ)
        → finalize_purge later' granted held ≡ (
          ok (some (deleted_candidate at r)),
          drop_claim granted
              (commit_deleted key (deleted_candidate at r) (purge_tombstone key at why u) held),
        )
    unfolding finalize_purge finalize
    finalize_lem later' = rw (expire_held later') (ground (arith, exact_lem))

    abbrev purged_store : Store
    purged_store =
        drop_claim granted
          (commit_deleted key (deleted_candidate at r) (purge_tombstone key at why u) held)

    -- Purging a retired record that nobody holds a claim on, at a time not before its retirement, in
    -- the two steps of the protocol: `begin_purge` grants a claim and leaves the record as it is;
    -- `finalize_purge` with this claim returns and writes the record with the status deleted, this time
    -- and else the same fields, writes a tombstone, and gives the claim up.
    pub begin-finalize :
        (later' : ℕ)
        → (c : PurgeClaim) × (held : Store) × (s' : Store) × (begin_purge later key at s
            ≡ (ok (some c), held))
          × (Dict.get held.records key ≡ some r)
          × (finalize_purge later' c held ≡ (ok (some (as_deleted at why u r)), s'))
          × (Dict.get s'.records key ≡ some (as_deleted at why u r))
          × (Dict.get s'.tombstones key ≡ some (purge_tombstone key at why u))
          × (Dict.get s'.claims key ≡ none)
    begin-finalize later' =
        unfold acquire_claim commit_deleted in
        let same = as_deleted_lem at u why r reason when in
        (
          granted,
          held,
          drop_claim granted
              (commit_deleted key (deleted_candidate at r) (purge_tombstone key at why u) held),
          begin_lem,
          found,
          finalize_lem later' ∙ ap (λ x. (ok (some x), purged_store)) same,
          Dict.get-put_self s.records key (deleted_candidate at r) ∙ ap some same,
          Dict.get-put_self s.tombstones key (purge_tombstone key at why u),
          Dict.get-remove_self held.claims key,
        )
