-- ===== src/Tests/Lifecycle.antt =====
-- The theorems on retirement, the purge claims, the storage keys and the retention listing at concrete
-- inputs.
use mathlib.Core.List.{Memᴰ}
use cloudops_guard.Prelude.{
  length, List, All, ◌≤◌, length, ◌++◌, ◌⊎◌, arith, [], ◌∷◌, ◌≡◌, refl, false, none, some,
}
use cloudops_guard.Prelude.Dict
use cloudops_guard.Prelude.Text.{has_char, Text-discrete, Key-discrete}
use cloudops_guard.Prelude.{ℕ_discrete}
use cloudops_guard.Ingestion.Metadata.Lifecycle
use cloudops_guard.Ingestion.Models.{
  ingestion_record-IsWellFormed, IsWellFormed, tombstone, PurgeClaim, status_fields_fit,
  is_internally_consistent, IngestionRecord, ingestion_record, customer_requested,
}
use cloudops_guard.Ingestion.Metadata.Calls.{after, calls-IsValid, after_all, Call, retire, begin}
use cloudops_guard.Prelude.Text.{text_eq, key_eq, Key}
use cloudops_guard.Ingestion.Metadata.{
  new_store, is_candidate, forget, expire_tombstone_if_needed, active_binding, bind_key,
  insert_record, create_new, get_or_create, create_or_get_received, Store,
}
use cloudops_guard.Prelude.Result.{validation_error, value_error, err, ok}
use cloudops_guard.Ingestion.Metadata.Lifecycle.{
  deleted_candidate, finalize_purge, release_purge_claim, exact_claim, begin_purge, claim_by_status,
  claim, acquire_claim, commit_deleted, purge_by_status, mark_purged, purge_candidates,
  tombstone_of, release_fingerprint, commit_retired, mark_retired, retired_candidate,
}
use cloudops_guard.Ingestion.Metadata.Deletion.{
  as_deleted, begin-finalize, purge_tombstone, mark_retired_received, as_retired,
}
use cloudops_guard.Ingestion.Metadata.Exclusive.{active_claim_excludes, released_for_good}
use cloudops_guard.Ingestion.StorageKeys.{
  derive_storage_key_confined, count_char, derive_storage_key_injective, is_space, strip_left,
  strip, has_dots, validate_identifier, derive_storage_key,
}
use cloudops_guard.Ingestion.Metadata.Entries.{after_all-IsOnce, is_once}
use cloudops_guard.Ingestion.Metadata.Sweep.{list_expired_for_retention_sweep}
use cloudops_guard.Ingestion.Metadata.Sweep.Expired.{
  Stored, IsDue, count_due, list_expired_for_retention_sweep_lem,
}
use cloudops_guard.Tests.Metadata.{
  acme, id_a, print_1, at_time, record_of, sent, key_a, with_a, with_retired, with_claim,
}

abbrev retired_a : IngestionRecord
retired_a = as_retired (at_time 200) customer_requested (record_of id_a print_1)

mark_retired_received_example :
    (s' : Store) × (mark_retired 200 key_a (at_time 200) customer_requested with_a
      ≡ (ok (some retired_a), s'))
    × (Dict.get s'.records key_a ≡ some retired_a)
    × (Dict.get s'.fingerprints (acme, print_1) ≡ none)
unfolding Dict.get Dict.put Dict.remove Dict.lookup Dict.insert Dict.without after after_all
    create_or_get_received get_or_create create_new insert_record bind_key active_binding
    expire_tombstone_if_needed forget is_candidate mark_retired Lifecycle.retire commit_retired
    release_fingerprint ingestion_record is_internally_consistent status_fields_fit tombstone
    tombstone_of purge_candidates mark_purged purge_by_status Lifecycle.purge commit_deleted
    acquire_claim claim claim_by_status begin_purge exact_claim release_purge_claim
    Lifecycle.finalize finalize_purge Text-discrete Key-discrete ℕ_discrete
mark_retired_received_example =
    mark_retired_received 200 key_a (at_time 200) customer_requested (record_of id_a print_1) with_a
      (calls-IsValid 1000 (sent ∷ [])) refl refl refl (omega arith)

active_claim_excludes_example :
    (begin_purge 400 key_a (at_time 400) with_claim ≡ (ok none, with_claim))
    × (mark_purged 400 key_a (at_time 400) with_claim ≡ (err value_error, with_claim))
unfolding Dict.get Dict.put Dict.remove Dict.lookup Dict.insert Dict.without after after_all
    create_or_get_received get_or_create create_new insert_record bind_key active_binding
    expire_tombstone_if_needed forget is_candidate mark_retired Lifecycle.retire commit_retired
    release_fingerprint ingestion_record is_internally_consistent status_fields_fit tombstone
    tombstone_of purge_candidates mark_purged purge_by_status Lifecycle.purge commit_deleted
    acquire_claim claim claim_by_status begin_purge exact_claim release_purge_claim
    Lifecycle.finalize finalize_purge Text-discrete Key-discrete ℕ_discrete
active_claim_excludes_example =
    active_claim_excludes 400 key_a (at_time 400) with_claim
      (record {
        generation = 1;
        claim_id = 1;
        purged_record = as_deleted (at_time 300) customer_requested (at_time 200) retired_a;
        purged_tombstone = record {
          tenant_id = acme;
          ingestion_id = id_a;
          reason = customer_requested;
          retired_at = at_time 200;
          deleted_at = at_time 300;
        };
      })
      (calls-IsValid 1000 (
        sent
        ∷ retire 200 key_a (at_time 200) customer_requested
        ∷ begin 300 key_a (at_time 300)
        ∷ []))
      refl refl

abbrev claim_a : PurgeClaim
claim_a = record { tenant_id = acme; ingestion_id = id_a; generation = 1; claim_id = 1 }

released_for_good_example :
    let s' = after_all [] (
      release_purge_claim claim_a
        (after_all [] (begin_purge 300 key_a (at_time 300) with_retired).1)) in
    (finalize_purge 500 claim_a s' ≡ (ok none, expire_tombstone_if_needed 500 key_a s'))
    × (release_purge_claim claim_a s' ≡ s')
unfolding Dict.get Dict.put Dict.remove Dict.lookup Dict.insert Dict.without after after_all
    create_or_get_received get_or_create create_new insert_record bind_key active_binding
    expire_tombstone_if_needed forget is_candidate mark_retired Lifecycle.retire commit_retired
    release_fingerprint ingestion_record is_internally_consistent status_fields_fit tombstone
    tombstone_of purge_candidates mark_purged purge_by_status Lifecycle.purge commit_deleted
    acquire_claim claim claim_by_status begin_purge exact_claim release_purge_claim
    Lifecycle.finalize finalize_purge Text-discrete Key-discrete ℕ_discrete
released_for_good_example =
    released_for_good 300 key_a (at_time 300) with_retired claim_a [] [] 500 refl

begin-finalize_example :
    (c : PurgeClaim) × (held : Store) × (s' : Store) × (begin_purge 300 key_a
        (at_time 300)
        with_retired
      ≡ (ok (some c), held))
    × (Dict.get held.records key_a ≡ some retired_a)
    × (finalize_purge 400 c held
        ≡ (ok (some (as_deleted (at_time 300) customer_requested (at_time 200) retired_a)), s'))
    × (Dict.get s'.records key_a
        ≡ some (as_deleted (at_time 300) customer_requested (at_time 200) retired_a))
    × (Dict.get s'.tombstones key_a
        ≡ some (purge_tombstone key_a (at_time 300) customer_requested (at_time 200)))
    × (Dict.get s'.claims key_a ≡ none)
unfolding Dict.get Dict.put Dict.remove Dict.lookup Dict.insert Dict.without after after_all
    create_or_get_received get_or_create create_new insert_record bind_key active_binding
    expire_tombstone_if_needed forget is_candidate mark_retired Lifecycle.retire commit_retired
    release_fingerprint ingestion_record is_internally_consistent status_fields_fit tombstone
    tombstone_of purge_candidates mark_purged purge_by_status Lifecycle.purge commit_deleted
    acquire_claim claim claim_by_status begin_purge exact_claim release_purge_claim
    Lifecycle.finalize finalize_purge Text-discrete Key-discrete ℕ_discrete
begin-finalize_example =
    begin-finalize 300 key_a (at_time 300) retired_a customer_requested (at_time 200) with_retired
      (calls-IsValid 1000 (sent ∷ Call.retire 200 key_a (at_time 200) customer_requested ∷ [])) refl
      refl refl refl refl (omega arith) refl 400

ingestion_record-IsWellFormed_example :
    (IsWellFormed retired_a × (ingestion_record retired_a ≡ ok retired_a))
    ⊎ ((¬ IsWellFormed retired_a) × (ingestion_record retired_a ≡ err validation_error))
ingestion_record-IsWellFormed_example = ingestion_record-IsWellFormed retired_a

derive_storage_key_injective_example : (acme ≡ acme) × (id_a ≡ id_a)
unfolding derive_storage_key validate_identifier has_char has_dots strip strip_left is_space
    Text-discrete ℕ_discrete
derive_storage_key_injective_example =
    derive_storage_key_injective acme acme id_a id_a (acme ++ b'/' ∷ id_a) refl refl

derive_storage_key_confined_example :
    (count_char b'/' (acme ++ b'/' ∷ id_a) ≡ 1)
    × (count_char 0x5c (acme ++ b'/' ∷ id_a) ≡ 0)
    × (has_dots (acme ++ b'/' ∷ id_a) ≡ false)
    × (length (acme ++ b'/' ∷ id_a) ≤ 513)
unfolding derive_storage_key validate_identifier has_char has_dots strip strip_left is_space
    Text-discrete ℕ_discrete
derive_storage_key_confined_example =
    derive_storage_key_confined acme id_a (acme ++ b'/' ∷ id_a) refl

list_expired_for_retention_sweep_lem_example :
    (l : List IngestionRecord) × ((list_expired_for_retention_sweep (at_time 500) with_a ≡ ok l)
      × (All (Stored with_a.records.entries) l
          × (All (IsDue (at_time 500)) l
              × (((key : Key) (r : IngestionRecord)
                    → Dict.get with_a.records key ≡ some r
                    → IsDue (at_time 500) r
                    → Memᴰ r l)
                  × (length l ≡ count_due (at_time 500) with_a.records.entries)))))
unfolding is_once
list_expired_for_retention_sweep_lem_example =
    list_expired_for_retention_sweep_lem (at_time 500) with_a refl
      (after_all-IsOnce (sent ∷ []) (new_store 1000) refl)
