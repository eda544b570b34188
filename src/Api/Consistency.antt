-- ===== src/Api/Consistency.antt =====
-- Which ingestions hold bytes, before and after each method of the metadata store.
use cloudops_guard.Prelude.Dict
use cloudops_guard.Prelude.{
  some, none, ℕ, Bool, true, false, Option, ◌≡◌, arith, ite, if◌then◌else◌, Option-cases, inl, inr,
}
use cloudops_guard.Api.{received, IsValid, Store, IngestionRecord, Key, holds}
use cloudops_guard.Prelude.Result.{Result-cases, err, ok, Result}
use cloudops_guard.Ingestion.Metadata.{
  is_candidate, bind_key, insert_record, forget, create_or_get_received, get_or_create, create_new,
  expire_tombstone_if_needed,
}
use cloudops_guard.Ingestion.Metadata.Lifecycle.{
  claim_key, exact_claim, commit_deleted, finalize, finalize_purge, retired_candidate,
  acquire_claim, claim, commit_retired, claim_by_status, retire, release_purge_claim, begin_purge,
  mark_retired,
}
use cloudops_guard.Ingestion.Models.{
  ingestion_record-eq_ok, ingestion_record, RetirementReason, DateTime, PurgeClaim,
}
use cloudops_guard.Prelude.Text.{◌≟◌, text_eq, key_eq, Text}
use cloudops_guard.Ingestion.Metadata.Creation.{expire-IsValid}
use cloudops_guard.Ingestion.Metadata.Transitions.{exact_claim-eq_some}

-- whether a call created a record
abbrev pub is_created : Result (IngestionRecord × Bool) → Bool
is_created (ok (r, created)) = created
is_created (err e) = false

module _ (j : Key) where
  pub holds-expire :
      (later : ℕ) (key : Key) (s : Store)
      → IsValid s
      → holds j (expire_tombstone_if_needed later key s) ≡ holds j s
  unfolding expire_tombstone_if_needed forget
  holds-expire later key s v = ground (arith, v.buried key, Dict.get-remove s.records key j)

  holds-create_new :
      (t : Text) (r : IngestionRecord) (key : Option Text) (s : Store)
      → r.status ≡ received
      → holds j (create_new t r key s).1 ≡ (
          if is_created (create_new t r key s).0
          then ite ((t, r.ingestion_id) ≟ j) true (holds j s)
          else holds j s)
  unfolding create_new insert_record bind_key
  holds-create_new t r key s fresh = ground (arith, Dict.get-put s.records (t, r.ingestion_id) j r)

  holds-get_or_create :
      (later : ℕ) (t : Text) (r : IngestionRecord) (key : Option Text) (s : Store)
      → IsValid s
      → r.status ≡ received
      → holds j (get_or_create later t r key s).1 ≡ (
          if is_created (get_or_create later t r key s).0
          then ite ((t, r.ingestion_id) ≟ j) true (holds j s)
          else holds j s)
  unfolding get_or_create bind_key
  holds-get_or_create later t r key s v fresh = ground (
    arith,
    holds-expire later (t, r.ingestion_id) s v,
    holds-create_new t r key (expire_tombstone_if_needed later (t, r.ingestion_id) s) fresh,
  )

  pub holds-create :
      (now later : ℕ) (t f i : Text) (r : IngestionRecord) (key : Option Text) (s : Store)
      → IsValid s
      → is_candidate t f i r ≡ true
      → holds j (create_or_get_received now later t f i r key s).1 ≡ (
          if is_created (create_or_get_received now later t f i r key s).0
          then ite ((t, i) ≟ j) true (holds j s)
          else holds j s)
  unfolding create_or_get_received is_candidate
  holds-create now later t f i r key s v own = ground (arith, holds-get_or_create later t r key s v)

  pub holds-mark_retired :
      (later : ℕ) (key : Key) (at : DateTime) (why : RetirementReason) (s : Store)
      → IsValid s
      → holds j (mark_retired later key at why s).1 ≡ holds j s
  unfolding mark_retired retire commit_retired
  holds-mark_retired later key at why s v =
      let s' = expire_tombstone_if_needed later key s in
      elim (Option-cases (Dict.get s'.records key)) [
        | inl missing ↦ ground (arith, holds-expire later key s v)
        | inr (r, found) ↦ elim (Result-cases (ingestion_record (retired_candidate at why r))) [
          | inr (x, bad) ↦ ground (arith, holds-expire later key s v)
          | inl (r', good) ↦ ground (
            arith,
            holds-expire later key s v,
            ingestion_record-eq_ok (retired_candidate at why r) r' good,
            Dict.get-put s'.records key j r',
          )
        ]
      ]

  pub holds-begin_purge :
      (later : ℕ) (key : Key) (at : DateTime) (s : Store)
      → IsValid s
      → holds j (begin_purge later key at s).1 ≡ holds j s
  unfolding begin_purge claim_by_status claim acquire_claim
  holds-begin_purge later key at s v = ground (arith, holds-expire later key s v)

  pub holds-release : (c : PurgeClaim) (s : Store) → holds j (release_purge_claim c s) ≡ holds j s
  unfolding release_purge_claim
  holds-release c s = ground arith

  -- a finalized purge takes its ingestion out, and a stale claim changes nothing
  pub holds-finalize :
      (later : ℕ) (c : PurgeClaim) (s : Store)
      → IsValid s
      → holds j (finalize_purge later c s).1
        ≡ elim (exact_claim c (expire_tombstone_if_needed later (claim_key c) s)) [
          | none ↦ holds j s
          | some a ↦ ite (claim_key c ≟ j) false (holds j s)
        ]
  unfolding finalize_purge finalize commit_deleted
  holds-finalize later c s v =
      let s' = expire_tombstone_if_needed later (claim_key c) s in
      let v' = expire-IsValid v later (claim_key c) in
      elim (Option-cases (exact_claim c s')) [
        | inl stale ↦ ground (arith, holds-expire later (claim_key c) s v)
        | inr (a, exact) ↦ ground (
          arith,
          holds-expire later (claim_key c) s v,
          v'.candidate (claim_key c) a (exact_claim-eq_some c s' a exact).0,
          Dict.get-put s'.records (claim_key c) j a.purged_record,
        )
      ]
