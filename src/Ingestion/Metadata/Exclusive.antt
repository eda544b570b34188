-- ===== src/Ingestion/Metadata/Exclusive.antt =====
-- What the purge protocol promises its callers.
use cloudops_guard.Prelude.{ℕ, ◌≤◌, true, none, some, List, [], ◌∷◌, ◌≡◌, arith}
use cloudops_guard.Prelude.Text.{Key, key_eq}
use cloudops_guard.Prelude.Dict
use cloudops_guard.Prelude.Dict.{dict_laws}
use cloudops_guard.Prelude.Result.{ok, err, value_error}
use cloudops_guard.Ingestion.Models.{DateTime, PurgeClaim}
use cloudops_guard.Ingestion.Metadata.{
  get, get_any_status, get_tombstone, Store, ActiveClaim, expire_tombstone_if_needed,
}
use cloudops_guard.Ingestion.Metadata.Lifecycle.{
  mark_purged, purge, purge_by_status, begin_purge, claim, claim_by_status, acquire_claim,
  claim_key, release_purge_claim, finalize, finalize_purge, commit_deleted,
}
use cloudops_guard.Ingestion.Metadata.Invariant.{IsValid, unburied-expire}
use cloudops_guard.Ingestion.Metadata.Calls.{
  Call, create, read, read_any, read_tombstone, begin, release, after, after_all,
}
use cloudops_guard.Ingestion.Metadata.Claims.{
  IsStale, expired-IsStale, create-SameClaims, retire-SameClaims, purge-SameClaims,
  expire-SameClaims, released-IsStale, after_all-IsStale, IsStale-exact_claim,
}

-- the counter of claims never falls
counter-after : (call : Call) (s : Store) → s.next_claim_id ≤ (after call s).next_claim_id
unfolding after get get_any_status get_tombstone
counter-after (create now later t f i r key sound) s =
    omega (arith, (create-SameClaims now later t f i r key s).counter)
counter-after (read later key) s = omega (arith, (expire-SameClaims later key s).counter)
counter-after (read_any later key) s = omega (arith, (expire-SameClaims later key s).counter)
counter-after (read_tombstone later key) s = omega (arith, (expire-SameClaims later key s).counter)
counter-after (Call.retire later key at why) s =
    omega (arith, (retire-SameClaims later key at why s).counter)
counter-after (Call.purge later key at) s = omega (arith, (purge-SameClaims later key at s).counter)
counter-after (begin later key at) s =
    unfold begin_purge claim_by_status claim acquire_claim in
    ground (arith, (expire-SameClaims later key s).counter)
counter-after (release d) s = unfold release_purge_claim in ground arith
counter-after (Call.finalize later d) s =
    unfold finalize_purge finalize commit_deleted in
    ground (arith, (expire-SameClaims later (claim_key d) s).counter)

counter-after_all : (cs : List Call) (s : Store) → s.next_claim_id ≤ (after_all cs s).next_claim_id
unfolding after_all
counter-after_all [] s = omega arith
counter-after_all (call ∷ cs) s =
    omega (arith, counter-after call s, counter-after_all cs (after call s))

granted_given :
    (later : ℕ) (key : Key) (at : DateTime) (s : Store) (c : PurgeClaim)
    → (begin_purge later key at s).0 ≡ ok (some c)
    → c.claim_id ≤ (begin_purge later key at s).1.next_claim_id
unfolding begin_purge claim_by_status claim acquire_claim
granted_given later key at s c h = ground arith

IsStale-inert :
    (c : PurgeClaim) (s : Store) (later : ℕ)
    → IsStale c s
    → (finalize_purge later c s ≡ (ok none, expire_tombstone_if_needed later (claim_key c) s))
      × (release_purge_claim c s ≡ s)
unfolding finalize_purge finalize release_purge_claim
IsStale-inert c s later stale = (
  rw (
    IsStale-exact_claim c (expire_tombstone_if_needed later (claim_key c) s)
        (expired-IsStale c s later stale),
    finalize,
  ),
  rw (IsStale-exact_claim c s stale, release_purge_claim),
)

-- A claim that was given up stays so: once a claim granted by `begin_purge` was released, whatever
-- calls came before and follow, also another `begin_purge` on the same unchanged record, finalizing it
-- returns None and does no more than expire a tombstone, and releasing it again changes nothing.
pub released_for_good :
    (granting : ℕ) (key : Key) (at : DateTime) (s : Store) (c : PurgeClaim)
    (before between : List Call) (later : ℕ)
    → (begin_purge granting key at s).0 ≡ ok (some c)
    → let s' =
        after_all between
          (release_purge_claim c (after_all before (begin_purge granting key at s).1)) in
      (finalize_purge later c s' ≡ (ok none, expire_tombstone_if_needed later (claim_key c) s'))
      × (release_purge_claim c s' ≡ s')
released_for_good granting key at s c before between later granted =
    let held = after_all before (begin_purge granting key at s).1 in
    IsStale-inert c (after_all between (release_purge_claim c held)) later (
      after_all-IsStale c between (release_purge_claim c held) (
        released-IsStale c held (
          omega (
            arith,
            granted_given granting key at s c granted,
            counter-after_all before (begin_purge granting key at s).1,
          ))))

-- While a claim is active on a record, another `begin_purge` of it returns no claim and `mark_purged`
-- raises, and neither changes the store.
pub active_claim_excludes :
    (later : ℕ) (key : Key) (at : DateTime) (s : Store) (a : ActiveClaim)
    → IsValid s
    → at.aware ≡ true
    → Dict.get s.claims key ≡ some a
    → (begin_purge later key at s ≡ (ok none, s))
      × (mark_purged later key at s ≡ (err value_error, s))
unfolding begin_purge claim_by_status claim mark_purged purge_by_status purge
active_claim_excludes later key at s a v aware held =
    let quiet = unburied-expire later key s v a held in
    (ground (arith, v.claimed key, quiet), ground (arith, v.claimed key, quiet))
