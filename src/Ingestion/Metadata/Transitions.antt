-- ===== src/Ingestion/Metadata/Transitions.antt =====
-- Retirement and the purge protocol keep the invariant of the store, on every branch.
use cloudops_guard.Prelude.{
  ℕ, Bool, true, false, not, some, ◌≡◌, arith, Option-cases, Bool-cases, inl, inr, if◌then◌else◌,
}
use cloudops_guard.Prelude.Text.{Key, text_eq, key_eq}
use cloudops_guard.Prelude.Dict
use cloudops_guard.Prelude.Dict.{Dict, dict_laws}
use cloudops_guard.Prelude.Result.{ok, Result-cases}
use cloudops_guard.Ingestion.Models.{
  DateTime, retired, RetirementReason, IngestionRecord, ingestion_record, Tombstone, PurgeClaim,
  is_received, ingestion_record-eq_ok, status-cases,
}
use cloudops_guard.Ingestion.Metadata.{Store, ActiveClaim, expire_tombstone_if_needed}
use cloudops_guard.Ingestion.Metadata.Lifecycle.{
  claim_key, retired_candidate, retire, mark_retired, deleted_candidate, tombstone_of,
  purge_candidates, purge, purge_by_status, mark_purged, claim, claim_by_status, begin_purge,
  exact_claim, release_purge_claim, finalize, finalize_purge,
}
use cloudops_guard.Ingestion.Metadata.Invariant.{
  IsValid, commit_retired-IsValid, commit_deleted-IsValid, acquire_claim-IsValid,
  drop_claim-IsValid,
}
use cloudops_guard.Ingestion.Metadata.Creation.{expire-IsValid}

-- the guard of a method
if-IsValid {ℓ} :
    {A : Type ℓ} (b : Bool) (x y : A × Store)
    → IsValid x.1
    → IsValid y.1
    → IsValid (if b then x else y).1
if-IsValid true x y hx hy = hx
if-IsValid false x y hx hy = hy

module _ (at : DateTime) where
  retire-IsValid :
      (why : RetirementReason) (key : Key) {s : Store} → IsValid s → IsValid (retire at why key s).1
  unfolding retire
  retire-IsValid why key {s} v = elim (Option-cases (Dict.get s.records key)) [
    | inl missing ↦ rw (missing, retire) v
    | inr (r, found) ↦ elim (Bool-cases (is_received r.status)) [
      | inr past ↦ rw (found, past, retire) v
      | inl live ↦ elim (Result-cases (ingestion_record (retired_candidate at why r))) [
        | inr (x, bad) ↦ rw (found, live, bad, retire) v
        | inl (r', good) ↦
            rw (found, live, good, retire)
              (let e = (ingestion_record-eq_ok (retired_candidate at why r) r' good).0 in
                commit_retired-IsValid v key r r' found (ground arith) (ground arith) (ground arith)
                  (ground arith) (ground arith) (ground arith))
      ]
    ]
  ]

  pub mark_retired-IsValid :
      (later : ℕ) (key : Key) (why : RetirementReason) {s : Store}
      → IsValid s
      → IsValid (mark_retired later key at why s).1
  unfolding mark_retired
  mark_retired-IsValid later key why v =
      if-IsValid (not at.aware) _ _ v (retire-IsValid why key (expire-IsValid v later key))

-- what a purge builds of a record
pub purge_candidates-eq_ok :
    (key : Key) (at : DateTime) (r : IngestionRecord) (c : IngestionRecord × Tombstone)
    → purge_candidates key at r ≡ ok c
    → (c.0 ≡ deleted_candidate at r) × (ingestion_record c.0 ≡ ok c.0)
unfolding purge_candidates
purge_candidates-eq_ok key at r c h =
    elim (Result-cases (ingestion_record (deleted_candidate at r))) [
      | inr (x, bad) ↦ ground arith
      | inl (r', good) ↦
          let e = (ingestion_record-eq_ok (deleted_candidate at r) r' good).0 in
          elim (Result-cases (tombstone_of key r'.reason r'.retired_at at)) [
            | inr (x, bad) ↦ ground arith
            | inl (t, tomb) ↦ ground arith
          ]
    ]

module _ (at : DateTime) (key : Key) (r : IngestionRecord) {s : Store} (v : IsValid s) where
  module _ (found : Dict.get s.records key ≡ some r) where
    purge-IsValid : r.status ≡ retired → IsValid (purge at key r s).1
    unfolding purge
    purge-IsValid gone = elim (Option-cases (Dict.get s.claims key)) [
      | inr (c, held) ↦ rw (held, purge) v
      | inl free ↦ elim (Result-cases (purge_candidates key at r)) [
        | inr (x, bad) ↦ rw (free, bad, purge) v
        | inl (c, good) ↦
            let e = purge_candidates-eq_ok key at r c good in
            let own = v.keyed key r found in
            rw (free, good, purge)
              (commit_deleted-IsValid v key c.0 c.1 (ground arith) free (ground arith)
                (ground arith) (ground arith) e.1)
      ]
    ]

    claim-IsValid : r.status ≡ retired → IsValid (claim at key r s).1
    unfolding claim
    claim-IsValid gone = elim (Option-cases (Dict.get s.claims key)) [
      | inr (c, held) ↦ rw (held, claim) v
      | inl free ↦ elim (Result-cases (purge_candidates key at r)) [
        | inr (x, bad) ↦ rw (free, bad, claim) v
        | inl (c, good) ↦
            let e = purge_candidates-eq_ok key at r c good in
            let own = v.keyed key r found in
            rw (free, good, claim)
              (acquire_claim-IsValid v key c.0 c.1 (ground arith) (ground arith) (ground arith)
                (ground arith) e.1)
      ]
    ]

module _ (later : ℕ) (key : Key) (at : DateTime) {s : Store} (v : IsValid s) where
  abbrev expired : Store
  expired = expire_tombstone_if_needed later key s

  expired-IsValid : IsValid expired
  expired-IsValid = expire-IsValid v later key

  pub mark_purged-IsValid : IsValid (mark_purged later key at s).1
  unfolding mark_purged purge_by_status
  mark_purged-IsValid =
      if-IsValid (not at.aware) _ _ v (elim (Option-cases (Dict.get expired.records key)) [
        | inl missing ↦ rw missing expired-IsValid
        | inr (r, found) ↦ elim (status-cases r.status) [
          | inl e ↦ rw (found, e, purge_by_status) expired-IsValid
          | inr (inl e) ↦ rw (found, e, purge_by_status) expired-IsValid
          | inr (inr e) ↦
              rw (found, e, purge_by_status) (purge-IsValid at key r expired-IsValid found e)
        ]
      ])

  pub begin_purge-IsValid : IsValid (begin_purge later key at s).1
  unfolding begin_purge claim_by_status
  begin_purge-IsValid =
      if-IsValid (not at.aware) _ _ v (elim (Option-cases (Dict.get expired.records key)) [
        | inl missing ↦ rw missing expired-IsValid
        | inr (r, found) ↦ elim (status-cases r.status) [
          | inl e ↦ rw (found, e, claim_by_status) expired-IsValid
          | inr (inl e) ↦ rw (found, e, claim_by_status) expired-IsValid
          | inr (inr e) ↦
              rw (found, e, claim_by_status) (claim-IsValid at key r expired-IsValid found e)
        ]
      ])

-- an exact claim is the active claim of its key
pub exact_claim-eq_some :
    (c : PurgeClaim) (s : Store) (a : ActiveClaim)
    → exact_claim c s ≡ some a
    → (Dict.get s.claims (claim_key c) ≡ some a)
      × (a.generation ≡ c.generation)
      × (a.claim_id ≡ c.claim_id)
unfolding exact_claim
exact_claim-eq_some c s a h = ground arith

module _ (c : PurgeClaim) {s : Store} (v : IsValid s) where
  pub release_purge_claim-IsValid : IsValid (release_purge_claim c s)
  unfolding release_purge_claim
  release_purge_claim-IsValid = elim (Option-cases (exact_claim c s)) [
    | inl stale ↦ rw (stale, release_purge_claim) v
    | inr (a, exact) ↦ rw (exact, release_purge_claim) (drop_claim-IsValid v c)
  ]

  finalize-IsValid : IsValid (finalize c s).1
  unfolding finalize
  finalize-IsValid = elim (Option-cases (exact_claim c s)) [
    | inl stale ↦ rw (stale, finalize) v
    | inr (a, exact) ↦
        let held = (exact_claim-eq_some c s a exact).0 in
        let own = v.candidate (claim_key c) a held in
        rw (exact, finalize)
          (commit_deleted-IsValid (drop_claim-IsValid v c) (claim_key c) a.purged_record
            a.purged_tombstone (v.claimed (claim_key c) (rw held))
            (ground (arith, Dict.get-remove s.claims (claim_key c) (claim_key c))) own.0 own.1 own.2
            own.3)
  ]

pub finalize_purge-IsValid :
    (later : ℕ) (c : PurgeClaim) {s : Store} → IsValid s → IsValid (finalize_purge later c s).1
unfolding finalize_purge
finalize_purge-IsValid later c v = finalize-IsValid c (expire-IsValid v later (claim_key c))
