-- ===== src/Ingestion/Metadata/Entries.antt =====
-- Every key of the records stands once among their entries, as in a `dict`, whatever calls were made.
use cloudops_guard.Prelude.Dict
use cloudops_guard.Prelude.Dict.{Dict}
use cloudops_guard.Prelude.{
  inr, inl, Option-cases, if◌then◌else◌, Bool, true, false, Option, none, some, List, [], ◌∷◌, ◌≡◌,
  refl, arith,
}
use cloudops_guard.Prelude.Text.{Text, Key, DecEq, text_eq, key_eq}
use cloudops_guard.Ingestion.Metadata.{
  get_tombstone, get_any_status, get, ℕ, bind_key, insert_record, forget, create_or_get_received,
  get_or_create, create_new, expire_tombstone_if_needed, Store,
}
use cloudops_guard.Ingestion.Metadata.Lifecycle.{
  claim_key, retired_candidate, mark_retired, retire, commit_retired, mark_purged, purge_by_status,
  purge, purge_candidates, commit_deleted, begin_purge, claim_by_status, claim, acquire_claim,
  release_purge_claim, finalize_purge, finalize, exact_claim,
}
use cloudops_guard.Ingestion.Metadata.Calls.{
  Call, create, read, read_any, read_tombstone, begin, release, after, after_all,
}
use cloudops_guard.Ingestion.Models.{
  ingestion_record, RetirementReason, DateTime, IngestionRecord, PurgeClaim,
}
use cloudops_guard.Prelude.Result.{Result-cases}

abbrev is_absent {ℓ} : {V : Type ℓ} → Option V → Bool
is_absent none = true
is_absent (some v) = false

module _ {ℓ} {K V : Type ℓ} ⦃e : DecEq K⦄ where
  -- no key stands again behind its entry
  unfoldable pub is_once : List (K × V) → Bool
  is_once [] = true
  is_once ((k, v) ∷ l) = let rest = is_once l in if is_absent (Dict.lookup k l) then rest else false

  insert-once :
      (k : K) (v : V) (l : List (K × V)) → is_once l ≡ true → is_once (Dict.insert k v l) ≡ true
  unfolding is_once Dict.insert Dict.lookup
  insert-once k v [] h = refl
  insert-once k v ((j, w) ∷ l) h = ground (arith, h, insert-once k v l, Dict.lookup-insert k j v l)

  without-once : (k : K) (l : List (K × V)) → is_once l ≡ true → is_once (Dict.without k l) ≡ true
  unfolding is_once Dict.without
  without-once k [] h = refl
  without-once k ((j, w) ∷ l) h = ground (arith, h, without-once k l, Dict.lookup-without k j l)

  pub put-once :
      (d : Dict K V) (k : K) (v : V)
      → is_once d.entries ≡ true
      → is_once (Dict.put d k v).entries ≡ true
  unfolding Dict.put
  put-once d k v h = insert-once k v d.entries h

  pub remove-once :
      (d : Dict K V) (k : K) → is_once d.entries ≡ true → is_once (Dict.remove d k).entries ≡ true
  unfolding Dict.remove
  remove-once d k h = without-once k d.entries h

abbrev pub IsOnce : Store → Type 0
IsOnce s = is_once s.records.entries ≡ true

expire-IsOnce :
    (later : ℕ) (key : Key) (s : Store) → IsOnce s → IsOnce (expire_tombstone_if_needed later key s)
unfolding expire_tombstone_if_needed forget
expire-IsOnce later key s h = ground (arith, h, remove-once s.records key)

create_new-IsOnce :
    (t : Text) (r : IngestionRecord) (key : Option Text) (s : Store)
    → IsOnce s
    → IsOnce (create_new t r key s).1
unfolding create_new insert_record bind_key
create_new-IsOnce t r key s h = ground (arith, h, put-once s.records (t, r.ingestion_id) r)

get_or_create-IsOnce :
    (later : ℕ) (t : Text) (r : IngestionRecord) (key : Option Text) (s : Store)
    → IsOnce s
    → IsOnce (get_or_create later t r key s).1
unfolding get_or_create bind_key
get_or_create-IsOnce later t r key s h = ground (
  arith,
  h,
  create_new-IsOnce t r key (expire_tombstone_if_needed later (t, r.ingestion_id) s)
      (expire-IsOnce later (t, r.ingestion_id) s h),
)

create-IsOnce :
    (now later : ℕ) (t f i : Text) (r : IngestionRecord) (key : Option Text) (s : Store)
    → IsOnce s
    → IsOnce (create_or_get_received now later t f i r key s).1
unfolding create_or_get_received
create-IsOnce now later t f i r key s h = ground (arith, h, get_or_create-IsOnce later t r key s h)

pub retire-IsOnce :
    (later : ℕ) (key : Key) (at : DateTime) (why : RetirementReason) (s : Store)
    → IsOnce s
    → IsOnce (mark_retired later key at why s).1
unfolding mark_retired retire commit_retired
retire-IsOnce later key at why s h =
    let s' = expire_tombstone_if_needed later key s in
    let h' = expire-IsOnce later key s h in
    elim (Option-cases (Dict.get s'.records key)) [
      | inl missing ↦ ground (arith, h, h')
      | inr (r, found) ↦ elim (Result-cases (ingestion_record (retired_candidate at why r))) [
        | inr (x, bad) ↦ ground (arith, h, h')
        | inl (r', good) ↦ ground (arith, h, h', put-once s'.records key r' h')
      ]
    ]

purge-IsOnce :
    (later : ℕ) (key : Key) (at : DateTime) (s : Store)
    → IsOnce s
    → IsOnce (mark_purged later key at s).1
unfolding mark_purged purge_by_status purge commit_deleted
purge-IsOnce later key at s h =
    let s' = expire_tombstone_if_needed later key s in
    let h' = expire-IsOnce later key s h in
    elim (Option-cases (Dict.get s'.records key)) [
      | inl missing ↦ ground (arith, h, h')
      | inr (r, found) ↦ elim (Result-cases (purge_candidates key at r)) [
        | inr (x, bad) ↦ ground (arith, h, h')
        | inl (n, good) ↦ ground (arith, h, h', put-once s'.records key n.0 h')
      ]
    ]

begin-IsOnce :
    (later : ℕ) (key : Key) (at : DateTime) (s : Store)
    → IsOnce s
    → IsOnce (begin_purge later key at s).1
unfolding begin_purge claim_by_status claim acquire_claim
begin-IsOnce later key at s h = ground (arith, h, expire-IsOnce later key s h)

release-IsOnce : (c : PurgeClaim) (s : Store) → IsOnce s → IsOnce (release_purge_claim c s)
unfolding release_purge_claim
release-IsOnce c s h = ground (arith, h)

finalize-IsOnce :
    (later : ℕ) (c : PurgeClaim) (s : Store) → IsOnce s → IsOnce (finalize_purge later c s).1
unfolding finalize_purge finalize commit_deleted
finalize-IsOnce later c s h =
    let s' = expire_tombstone_if_needed later (claim_key c) s in
    let h' = expire-IsOnce later (claim_key c) s h in
    elim (Option-cases (exact_claim c s')) [
      | inl stale ↦ ground (arith, h')
      | inr (a, exact) ↦ ground (arith, h', put-once s'.records (claim_key c) a.purged_record h')
    ]

after-IsOnce : (call : Call) (s : Store) → IsOnce s → IsOnce (after call s)
unfolding after get get_any_status get_tombstone
after-IsOnce (create now later t f i r key sound) s h = create-IsOnce now later t f i r key s h
after-IsOnce (read later key) s h = expire-IsOnce later key s h
after-IsOnce (read_any later key) s h = expire-IsOnce later key s h
after-IsOnce (read_tombstone later key) s h = expire-IsOnce later key s h
after-IsOnce (Call.retire later key at why) s h = retire-IsOnce later key at why s h
after-IsOnce (Call.purge later key at) s h = purge-IsOnce later key at s h
after-IsOnce (begin later key at) s h = begin-IsOnce later key at s h
after-IsOnce (release c) s h = release-IsOnce c s h
after-IsOnce (Call.finalize later c) s h = finalize-IsOnce later c s h

pub after_all-IsOnce : (cs : List Call) (s : Store) → IsOnce s → IsOnce (after_all cs s)
unfolding after_all
after_all-IsOnce [] s h = h
after_all-IsOnce (call ∷ cs) s h = after_all-IsOnce cs (after call s) (after-IsOnce call s h)
