-- ===== src/Api/Lifecycle/Purge.antt =====
-- The physical purge and the retention sweep keep the two stores consistent.
use cloudops_guard.Prelude.Dict
use cloudops_guard.Prelude.{
  subst, ◌+◌, sym, ◌∙◌, is_some, ℕ, Bool, true, false, Option, none, some, ◌≡◌, arith, Option-cases,
  inl, inr,
}
use cloudops_guard.Api.{World, holds, IsConsistent}
use cloudops_guard.Ingestion.Metadata.Lifecycle.{
  mark_retired, finalize, finalize_purge, generation_of, purge_candidates, acquire_claim, claim_key,
  claim, claim_by_status, begin_purge, exact_claim,
}
use cloudops_guard.Prelude.Text.{text_eq, key_eq, Text, Key}
use cloudops_guard.Ingestion.Models.{retention_expired, IngestionRecord, DateTime, PurgeClaim}
use cloudops_guard.Ingestion.Metadata.{expire_tombstone_if_needed, Store}
use cloudops_guard.Api.Lifecycle.{
  before, run_retention_sweep, ◌∷◌, List, sweep, purge_retired_ingestion, purge_with, purge_claimed,
}
use cloudops_guard.Ingestion.Metadata.Claims.{expire-SameClaims}
use cloudops_guard.Prelude.Result.{◌>>=◌, Result-cases, ok, Exn}
use cloudops_guard.Ingestion.StorageKeys.{derive_storage_key}
use cloudops_guard.Ingestion.Metadata.Transitions.{
  mark_retired-IsValid, begin_purge-IsValid, finalize_purge-IsValid, release_purge_claim-IsValid,
}
use cloudops_guard.Api.Consistency.{
  holds-mark_retired, holds-begin_purge, holds-finalize, holds-release,
}
use cloudops_guard.Ingestion.Blobs.{has_blob, delete, has_blob-remove}
use mathlib.Core.List.{[]}
use cloudops_guard.Ingestion.Metadata.Sweep.{list_expired_for_retention_sweep}

exact_claim-expire :
    (c : PurgeClaim) (later : ℕ) (key : Key) (s : Store)
    → exact_claim c (expire_tombstone_if_needed later key s) ≡ exact_claim c s
unfolding exact_claim
exact_claim-expire c later key s = rw (expire-SameClaims later key s).claims

-- the claim that `begin_purge` grants is the exact claim of its key
begin-exact_claim :
    (later : ℕ) (key : Key) (at : DateTime) (s : Store) (c : PurgeClaim)
    → (begin_purge later key at s).0 ≡ ok (some c)
    → (claim_key c ≡ key) × (is_some (exact_claim c (begin_purge later key at s).1) ≡ true)
unfolding begin_purge claim_by_status claim acquire_claim exact_claim
begin-exact_claim later key at s c h =
    let s' = expire_tombstone_if_needed later key s in
    elim (Option-cases (Dict.get s'.records key)) [
      | inl missing ↦ ground arith
      | inr (r, found) ↦ elim (Result-cases (purge_candidates key at r)) [
        | inr (x, bad) ↦ ground arith
        | inl (n, good) ↦ ground (
          arith,
          Dict.get-put_self s'.claims key (record {
            generation = generation_of key s';
            claim_id = s'.next_claim_id + 1;
            purged_record = n.0;
            purged_tombstone = n.1;
          }),
        )
      ]
    ]

-- the reference store's commit does not fail
finalize_purge-eq_ok :
    (later : ℕ) (c : PurgeClaim) (s : Store)
    → (r : Option IngestionRecord) × ((finalize_purge later c s).0 ≡ ok r)
unfolding finalize_purge finalize
finalize_purge-eq_ok later c s =
    elim (Option-cases (exact_claim c (expire_tombstone_if_needed later (claim_key c) s))) [
      | inl stale ↦ (none, ground arith)
      | inr (a, exact) ↦ (some a.purged_record, ground arith)
    ]

module _ (marked : Key → Bool) (c : PurgeClaim) where
  -- the purged ingestion loses its bytes and its place among the holders at once
  purged-backed :
      (later : ℕ) (k : Text) (w : World) (j : Key)
      → derive_storage_key c.tenant_id c.ingestion_id ≡ ok k
      → IsConsistent marked w
      → is_some (exact_claim c w.metadata) ≡ true
      → (marked j ≡ false
          → has_blob j (delete k w.blobs) ≡ holds j (finalize_purge later c w.metadata).1)
        × (holds j (finalize_purge later c w.metadata).1 ≡ true
            → has_blob j (delete k w.blobs) ≡ true)
  unfolding delete
  purged-backed later k w j derived h exact = elim (Option-cases (exact_claim c w.metadata)) [
    | inl stale ↦ absurd (cc)
    | inr (a, active) ↦
        let removed = has_blob-remove (claim_key c) k derived j w.blobs in
        let left = holds-finalize j later c w.metadata h.valid in
        let claimed = exact_claim-expire c later (claim_key c) w.metadata ∙ active in
        (
          (λ plain. ground (arith, removed, left, claimed, h.backed j plain)),
          (λ held. ground (arith, removed, left, claimed, h.covered j)),
        )
  ]

  purge_claimed-IsConsistent :
      (later : ℕ) (fault : Option Exn) (k : Text) (w : World)
      → derive_storage_key c.tenant_id c.ingestion_id ≡ ok k
      → IsConsistent marked w
      → is_some (exact_claim c w.metadata) ≡ true
      → IsConsistent marked (purge_claimed later fault c k w).1
  unfolding purge_claimed delete
  purge_claimed-IsConsistent later (some e) k w derived h exact = record {
    valid = release_purge_claim-IsValid c h.valid;
    covered = λ j held. h.covered j (sym (holds-release j c w.metadata) ∙ held);
    backed = λ j plain. h.backed j plain ∙ sym (holds-release j c w.metadata);
  }
  purge_claimed-IsConsistent later none k w derived h exact =
      let (r, returned) = finalize_purge-eq_ok later c w.metadata in
      rw (returned, purge_claimed)
        (record {
          valid = finalize_purge-IsValid later c h.valid;
          covered = λ j. (purged-backed later k w j derived h exact).1;
          backed = λ j. (purged-backed later k w j derived h exact).0;
        })

  purge_with-IsConsistent :
      (later : ℕ) (fault : Option Exn) (w : World)
      → IsConsistent marked w
      → is_some (exact_claim c w.metadata) ≡ true
      → IsConsistent marked (purge_with later fault (claim_key c) c w).1
  unfolding purge_with
  purge_with-IsConsistent later fault w h exact =
      elim (Result-cases (derive_storage_key c.tenant_id c.ingestion_id)) [
        | inr (e, refused) ↦ rw (refused, purge_with) h
        | inl (k, derived) ↦
            rw (derived, purge_with) (purge_claimed-IsConsistent later fault k w derived h exact)
      ]

-- The physical purge leaves consistent stores consistent, whether it returns or raises: also where
-- deleting the bytes fails, since then the record is still retired.
pub purge-IsConsistent :
    (marked : Key → Bool) (later later' : ℕ) (fault : Option Exn) (key : Key) (at : DateTime)
    (w : World)
    → IsConsistent marked w
    → IsConsistent marked (purge_retired_ingestion later later' fault key at w).1
unfolding purge_retired_ingestion
purge-IsConsistent marked later later' fault key at w h =
    elim (Result-cases (begin_purge later key at w.metadata).0) [
      | inr (e, failed) ↦ rw (failed, purge_retired_ingestion) begun
      | inl (none, nothing) ↦ rw (nothing, purge_retired_ingestion) begun
      | inl (some c, granted) ↦
          let (own, exact) = begin-exact_claim later key at w.metadata c granted in
          rw (granted, purge_retired_ingestion)
            (subst
              (λ q.
                IsConsistent marked
                  (purge_with later' fault q c
                    (record w { metadata = (begin_purge later key at w.metadata).1 })).1)
              own (purge_with-IsConsistent marked c later' fault _ begun exact))
    ]
  where
    begun : IsConsistent marked (record w { metadata = (begin_purge later key at w.metadata).1 })
    begun = record {
      valid = begin_purge-IsValid later key at h.valid;
      covered =
          λ j held. h.covered j (sym (holds-begin_purge j later key at w.metadata h.valid) ∙ held);
      backed =
          λ j plain. h.backed j plain ∙ sym (holds-begin_purge j later key at w.metadata h.valid);
    }

-- A retention sweep leaves consistent stores consistent, whether it returns or raises.
sweep-IsConsistent :
    (marked : Key → Bool) (at : DateTime) (later : ℕ) (cs : List IngestionRecord) (w : World)
    → IsConsistent marked w
    → IsConsistent marked (record w { metadata = (sweep at later cs w.metadata).1 })
unfolding sweep
sweep-IsConsistent marked at later [] w h = h
sweep-IsConsistent marked at later (c ∷ cs) w h =
    elim (Result-cases
      (mark_retired later (c.tenant_id, c.ingestion_id) at retention_expired w.metadata).0) [
        | inr (e, failed) ↦ rw (failed, sweep) once
        | inl (r, returned) ↦ elim (Result-cases (sweep at later cs after).0) [
          | inr (e, failed) ↦
              rw (returned, failed, sweep)
                (sweep-IsConsistent marked at later cs (record w { metadata = after }) once)
          | inl (rs, swept) ↦
              rw (returned, swept, sweep)
                (sweep-IsConsistent marked at later cs (record w { metadata = after }) once)
        ]
      ]
  where
    after : Store
    after = (mark_retired later (c.tenant_id, c.ingestion_id) at retention_expired w.metadata).1

    once : IsConsistent marked (record w { metadata = after })
    once = record {
      valid = mark_retired-IsValid at later (c.tenant_id, c.ingestion_id) retention_expired h.valid;
      covered = λ j held. h.covered j (sym (kept j) ∙ held);
      backed = λ j plain. h.backed j plain ∙ sym (kept j);
    }
      where
        kept : (j : Key) → holds j after ≡ holds j w.metadata
        kept j =
            holds-mark_retired j later (c.tenant_id, c.ingestion_id) at retention_expired w.metadata
              h.valid

pub retention-IsConsistent :
    (marked : Key → Bool) (period : ℕ) (at : DateTime) (later : ℕ) (w : World)
    → IsConsistent marked w
    → IsConsistent marked
        (record w { metadata = (run_retention_sweep period at later w.metadata).1 })
unfolding run_retention_sweep
retention-IsConsistent marked period at later w h =
    elim (Result-cases
      (before at period >>= λ older_than. list_expired_for_retention_sweep older_than w.metadata)) [
        | inr (e, failed) ↦ rw (failed, run_retention_sweep) h
        | inl (cs, listed) ↦
            rw (listed, run_retention_sweep) (sweep-IsConsistent marked at later cs w h)
      ]
