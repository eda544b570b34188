-- ===== src/Ingestion/Metadata/Claims.antt =====
-- The purge claims of `InMemoryMetadataStore`: a claim is exclusive, and is never valid again once it
-- was given up.
use cloudops_guard.Prelude.{
  ℕ, ◌≤◌, not, Option, none, some, List, [], ◌∷◌, ◌≡◌, ◌≢◌, arith, Option-cases, Bool-cases, inl,
  inr, ap, sym, ◌∙◌,
}
use cloudops_guard.Prelude.Text.{Text, Key, text_eq, key_eq}
use cloudops_guard.Prelude.Dict
use cloudops_guard.Prelude.Dict.{dict_laws}
use cloudops_guard.Prelude.Result.{Result-cases}
use cloudops_guard.Ingestion.Models.{DateTime, IngestionRecord, Tombstone, PurgeClaim, status-cases}
use cloudops_guard.Ingestion.Metadata.{
  Store, ActiveClaim, forget, expire_tombstone_if_needed, bind_key, insert_record, create_new,
  get_or_create, create_or_get_received, get, get_any_status, get_tombstone,
}
use cloudops_guard.Ingestion.Metadata.Lifecycle.{
  commit_retired, retire, mark_retired, commit_deleted, purge, purge_by_status, mark_purged,
  purge_candidates, acquire_claim, claim, claim_by_status, begin_purge, claim_key, exact_claim,
  drop_claim, release_purge_claim, finalize, finalize_purge,
}
use cloudops_guard.Ingestion.Metadata.Calls.{
  Call, create, read, read_any, read_tombstone, begin, release, after, after_all,
}

-- `c` was given out and is not, in generation and id, the active claim of its key.
pub record IsStale (c : PurgeClaim) (s : Store) : Type 0 where
  pub given : c.claim_id ≤ s.next_claim_id
  pub other :
      (a : ActiveClaim)
      → Dict.get s.claims (claim_key c) ≡ some a
      → a.generation ≡ c.generation
      → a.claim_id ≢ c.claim_id

-- What all calls but three do to the claims: nothing.
pub record SameClaims (s s' : Store) : Type 0 where
  pub claims : s'.claims ≡ s.claims
  pub counter : s'.next_claim_id ≡ s.next_claim_id

pub expire-SameClaims :
    (later : ℕ) (key : Key) (s : Store) → SameClaims s (expire_tombstone_if_needed later key s)
unfolding expire_tombstone_if_needed forget
expire-SameClaims later key s = ground arith

pub create-SameClaims :
    (now later : ℕ) (t f i : Text) (r : IngestionRecord) (key : Option Text) (s : Store)
    → SameClaims s (create_or_get_received now later t f i r key s).1
unfolding create_or_get_received get_or_create create_new insert_record bind_key
create-SameClaims now later t f i r key s =
    let same = expire-SameClaims later (t, r.ingestion_id) s in ground arith

read-SameClaims : (later : ℕ) (key : Key) (s : Store) → SameClaims s (after (read later key) s)
unfolding after get
read-SameClaims = expire-SameClaims

pub retire-SameClaims :
    (later : ℕ) (key : Key) (at : DateTime) (why : _) (s : Store)
    → SameClaims s (mark_retired later key at why s).1
unfolding mark_retired retire commit_retired
retire-SameClaims later key at why s = let same = expire-SameClaims later key s in ground arith

pub purge-SameClaims :
    (later : ℕ) (key : Key) (at : DateTime) (s : Store)
    → SameClaims s (mark_purged later key at s).1
unfolding mark_purged purge_by_status purge commit_deleted
purge-SameClaims later key at s = let same = expire-SameClaims later key s in ground arith

module _ (c : PurgeClaim) where
  SameClaims-IsStale : (s s' : Store) → SameClaims s s' → IsStale c s → IsStale c s'
  SameClaims-IsStale s s' same stale = record {
    given = rw same.counter stale.given;
    other = λ a h. stale.other a (ap (λ (d : _). Dict.get d (claim_key c)) (sym same.claims) ∙ h);
  }

  pub expired-IsStale :
      (s : Store) (later : ℕ)
      → IsStale c s
      → IsStale c (expire_tombstone_if_needed later (claim_key c) s)
  expired-IsStale s later = SameClaims-IsStale s _ (expire-SameClaims later (claim_key c) s)

  acquire-IsStale :
      (key : Key) (r : IngestionRecord) (t : Tombstone) (s : Store)
      → IsStale c s
      → IsStale c (acquire_claim key r t s)
  unfolding acquire_claim
  acquire-IsStale key r t s stale = record {
    given = omega (arith, stale.given);
    other = λ a. simp dict_laws (ground (arith, stale.other a, stale.given));
  }

  drop-IsStale : (d : PurgeClaim) (s : Store) → IsStale c s → IsStale c (drop_claim d s)
  drop-IsStale d s stale = record {
    given = stale.given;
    other = λ a. simp dict_laws (ground (arith, stale.other a));
  }

  claim-IsStale :
      (at : DateTime) (key : Key) (r : IngestionRecord) (s : Store)
      → IsStale c s
      → IsStale c (claim at key r s).1
  unfolding claim
  claim-IsStale at key r s stale = elim (Option-cases (Dict.get s.claims key)) [
    | inr (a, held) ↦ rw (held, claim) stale
    | inl free ↦ elim (Result-cases (purge_candidates key at r)) [
      | inr (x, bad) ↦ rw (free, bad, claim) stale
      | inl (n, good) ↦ rw (free, good, claim) (acquire-IsStale key n.0 n.1 s stale)
    ]
  ]

  begin-IsStale :
      (later : ℕ) (key : Key) (at : DateTime) (s : Store)
      → IsStale c s
      → IsStale c (begin_purge later key at s).1
  unfolding begin_purge claim_by_status
  begin-IsStale later key at s stale = elim (Bool-cases (not at.aware)) [
    | inl naive ↦ rw naive stale
    | inr aware ↦ elim (Option-cases (Dict.get s'.records key)) [
      | inl missing ↦ rw (aware, missing, begin_purge) stale'
      | inr (r, found) ↦ elim (status-cases r.status) [
        | inl e ↦ rw (aware, found, e, begin_purge, claim_by_status) stale'
        | inr (inl e) ↦ rw (aware, found, e, begin_purge, claim_by_status) stale'
        | inr (inr e) ↦
            rw (aware, found, e, begin_purge, claim_by_status) (claim-IsStale at key r s' stale')
      ]
    ]
  ]
    where
      s' : Store
      s' = expire_tombstone_if_needed later key s

      stale' : IsStale c s'
      stale' = SameClaims-IsStale s s' (expire-SameClaims later key s) stale

  release-IsStale : (d : PurgeClaim) (s : Store) → IsStale c s → IsStale c (release_purge_claim d s)
  unfolding release_purge_claim
  release-IsStale d s stale = elim (Option-cases (exact_claim d s)) [
    | inl other ↦ rw (other, release_purge_claim) stale
    | inr (a, exact) ↦ rw (exact, release_purge_claim) (drop-IsStale d s stale)
  ]

  finalize-IsStale :
      (later : ℕ) (d : PurgeClaim) (s : Store)
      → IsStale c s
      → IsStale c (finalize_purge later d s).1
  unfolding finalize_purge finalize commit_deleted
  finalize-IsStale later d s stale = elim (Option-cases (exact_claim d s')) [
    | inl other ↦ rw (other, finalize_purge, finalize) stale'
    | inr (a, exact) ↦
        let dropped = drop-IsStale d s' stale' in
        rw (exact, finalize_purge, finalize)
          (record { given = dropped.given; other = dropped.other })
  ]
    where
      s' : Store
      s' = expire_tombstone_if_needed later (claim_key d) s

      stale' : IsStale c s'
      stale' = SameClaims-IsStale s s' (expire-SameClaims later (claim_key d) s) stale

  pub after-IsStale : (call : Call) (s : Store) → IsStale c s → IsStale c (after call s)
  unfolding after get get_any_status get_tombstone
  after-IsStale (create now later t f i r key sound) s stale =
      SameClaims-IsStale s _ (create-SameClaims now later t f i r key s) stale
  after-IsStale (read later key) s stale =
      SameClaims-IsStale s _ (expire-SameClaims later key s) stale
  after-IsStale (read_any later key) s stale =
      SameClaims-IsStale s _ (expire-SameClaims later key s) stale
  after-IsStale (read_tombstone later key) s stale =
      SameClaims-IsStale s _ (expire-SameClaims later key s) stale
  after-IsStale (Call.retire later key at why) s stale =
      SameClaims-IsStale s _ (retire-SameClaims later key at why s) stale
  after-IsStale (Call.purge later key at) s stale =
      SameClaims-IsStale s _ (purge-SameClaims later key at s) stale
  after-IsStale (begin later key at) s stale = begin-IsStale later key at s stale
  after-IsStale (release d) s stale = release-IsStale d s stale
  after-IsStale (Call.finalize later d) s stale = finalize-IsStale later d s stale

  pub after_all-IsStale : (cs : List Call) (s : Store) → IsStale c s → IsStale c (after_all cs s)
  unfolding after_all
  after_all-IsStale [] s stale = stale
  after_all-IsStale (call ∷ cs) s stale =
      after_all-IsStale cs (after call s) (after-IsStale call s stale)

  pub IsStale-exact_claim : (s : Store) → IsStale c s → exact_claim c s ≡ none
  unfolding exact_claim
  IsStale-exact_claim s stale = elim (Option-cases (Dict.get s.claims (claim_key c))) [
    | inl free ↦ rw (free, exact_claim)
    | inr (a, held) ↦ ground (arith, stale.other a)
  ]

  -- a release leaves the claim stale, whether it was active or not
  pub released-IsStale :
      (s : Store) → c.claim_id ≤ s.next_claim_id → IsStale c (release_purge_claim c s)
  unfolding release_purge_claim exact_claim
  released-IsStale s given = elim (Option-cases (exact_claim c s)) [
    | inl other ↦
        rw (other, release_purge_claim)
          (record { given = given; other = λ a h. ground (arith, other) })
    | inr (a, exact) ↦
        rw (exact, release_purge_claim)
          (record {
            given = given;
            other = λ b. ground (arith, Dict.get-remove s.claims (claim_key c) (claim_key c));
          })
  ]
