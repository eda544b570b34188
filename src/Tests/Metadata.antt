-- ===== src/Tests/Metadata.antt =====
-- The theorems on the metadata store of ingestion/reference.py at concrete inputs: a tenant sends a
-- report, retires it and purges it.
use cloudops_guard.Prelude.{List, ◌≢◌, arith, ℕ, [], ◌∷◌, ◌≡◌, refl, true, false, none, some}
use cloudops_guard.Prelude.Dict
use cloudops_guard.Ingestion.Metadata
use cloudops_guard.Prelude.Text.{Text-discrete, Key-discrete}
use cloudops_guard.Prelude.{ℕ_discrete}
use cloudops_guard.Ingestion.Metadata.Lifecycle
use cloudops_guard.Ingestion.Models.{
  tombstone, status_fields_fit, is_internally_consistent, IngestionRecord, ingestion_record,
  DateTime, received, customer_requested,
}
use cloudops_guard.Ingestion.Metadata.Calls.{
  read, after, calls-IsValid, after_all, Call, create, retire, purge, begin,
}
use cloudops_guard.Prelude.Text.{text_eq, key_eq, Key, Text}
use cloudops_guard.Ingestion.Metadata.{
  is_candidate, forget, expire_tombstone_if_needed, active_binding, bind_key, insert_record,
  create_new, get_or_create, new_store, create_or_get_received, Store,
}
use cloudops_guard.Ingestion.Metadata.Invariant.{IsValid}
use cloudops_guard.Prelude.Result.{idempotency_key_conflict, key_error, err, ok}
use cloudops_guard.Ingestion.Metadata.Replay.{Stays, replay, replay_conflict}
use cloudops_guard.Ingestion.Metadata.Dedup.{received_unique, create_or_get_received-ne-key_error}
use cloudops_guard.Ingestion.Metadata.Lifecycle.{
  deleted_candidate, finalize_purge, release_purge_claim, exact_claim, begin_purge, claim_by_status,
  claim, acquire_claim, commit_deleted, purge_by_status, mark_purged, purge_candidates,
  tombstone_of, release_fingerprint, commit_retired, mark_retired, retired_candidate,
}

abbrev pub acme : Text
acme = 97 ∷ []

abbrev pub id_a : Text
id_a = 105 ∷ 97 ∷ []

abbrev pub id_b : Text
id_b = 105 ∷ 98 ∷ []

abbrev pub print_1 : Text
print_1 = 49 ∷ []

abbrev pub print_2 : Text
print_2 = 50 ∷ []

abbrev pub idem : Text
idem = 107 ∷ []

abbrev pub at_time : ℕ → DateTime
at_time n = record { micros = n; aware = true }

abbrev pub record_of : Text → Text → IngestionRecord
record_of i f = record {
  tenant_id = acme;
  ingestion_id = i;
  report_fingerprint = f;
  received_at = at_time 100;
  status = received;
  reason = none;
  retired_at = none;
  deleted_at = none;
}

pub record_a-eq_ok : ingestion_record (record_of id_a print_1) ≡ ok (record_of id_a print_1)
unfolding ingestion_record is_internally_consistent status_fields_fit
record_a-eq_ok = refl

prints-ne : print_1 ≢ print_2
prints-ne e = ground (arith, e)

abbrev pub sent : Call
sent = create 100 100 acme print_1 id_a (record_of id_a print_1) (some idem) record_a-eq_ok

record_b-eq_ok : ingestion_record (record_of id_b print_2) ≡ ok (record_of id_b print_2)
unfolding ingestion_record is_internally_consistent status_fields_fit
record_b-eq_ok = refl

abbrev sent_other : Call
sent_other = create 150 150 acme print_2 id_b (record_of id_b print_2) none record_b-eq_ok

abbrev pub key_a : Key
key_a = (acme, id_a)

abbrev pub with_a : Store
with_a = after_all (sent ∷ []) (new_store 1000)

abbrev pub with_retired : Store
with_retired =
    after_all (sent ∷ retire 200 key_a (at_time 200) customer_requested ∷ []) (new_store 1000)

abbrev pub with_claim : Store
with_claim =
    after_all
      (sent
        ∷ retire 200 key_a (at_time 200) customer_requested
        ∷ begin 300 key_a (at_time 300)
        ∷ [])
      (new_store 1000)

calls-IsValid_example : IsValid (
    after_all
      (sent
        ∷ retire 200 key_a (at_time 200) customer_requested
        ∷ purge 300 key_a (at_time 300)
        ∷ [])
      (new_store 1000))
calls-IsValid_example =
    calls-IsValid 1000 (
      sent ∷ retire 200 key_a (at_time 200) customer_requested ∷ purge 300 key_a (at_time 300) ∷ [])

-- another report of the tenant and a read in between
abbrev between : List Call
between = sent_other ∷ read 200 key_a ∷ []

abbrev with_both : Store
with_both = after_all between with_a

replay_example :
    create_or_get_received 500 500 acme print_1 id_b (record_of id_b print_1) (some idem) with_both
    ≡ (ok (record_of id_a print_1, false), with_both)
unfolding Dict.get Dict.put Dict.remove Dict.lookup Dict.insert Dict.without after after_all
    create_or_get_received get_or_create create_new insert_record bind_key active_binding
    expire_tombstone_if_needed forget is_candidate mark_retired Lifecycle.retire commit_retired
    release_fingerprint ingestion_record is_internally_consistent status_fields_fit tombstone
    tombstone_of purge_candidates mark_purged purge_by_status Lifecycle.purge commit_deleted
    acquire_claim claim claim_by_status begin_purge exact_claim release_purge_claim
    Lifecycle.finalize finalize_purge Text-discrete Key-discrete ℕ_discrete Stays Metadata.get
replay_example =
    replay 100 100 500 500 acme print_1 id_a id_b idem (record_of id_a print_1)
      (record_of id_b print_1) (new_store 1000) with_a between refl (refl, (refl, refl))
      (omega arith, (tt, tt)) refl (omega arith)

replay_conflict_example :
    create_or_get_received 500 500 acme print_2 id_b (record_of id_b print_2) (some idem) with_both
    ≡ (err idempotency_key_conflict, with_both)
unfolding Dict.get Dict.put Dict.remove Dict.lookup Dict.insert Dict.without after after_all
    create_or_get_received get_or_create create_new insert_record bind_key active_binding
    expire_tombstone_if_needed forget is_candidate mark_retired Lifecycle.retire commit_retired
    release_fingerprint ingestion_record is_internally_consistent status_fields_fit tombstone
    tombstone_of purge_candidates mark_purged purge_by_status Lifecycle.purge commit_deleted
    acquire_claim claim claim_by_status begin_purge exact_claim release_purge_claim
    Lifecycle.finalize finalize_purge Text-discrete Key-discrete ℕ_discrete Stays Metadata.get
replay_conflict_example =
    replay_conflict 100 100 500 500 acme print_1 print_2 id_a id_b idem (record_of id_a print_1)
      (record_of id_b print_2) (new_store 1000) with_a between refl (refl, (refl, refl))
      (omega arith, (tt, tt)) refl prints-ne (omega arith)

received_unique_example : id_a ≡ id_a
unfolding Dict.get Dict.put Dict.remove Dict.lookup Dict.insert Dict.without after after_all
    create_or_get_received get_or_create create_new insert_record bind_key active_binding
    expire_tombstone_if_needed forget is_candidate mark_retired Lifecycle.retire commit_retired
    release_fingerprint ingestion_record is_internally_consistent status_fields_fit tombstone
    tombstone_of purge_candidates mark_purged purge_by_status Lifecycle.purge commit_deleted
    acquire_claim claim claim_by_status begin_purge exact_claim release_purge_claim
    Lifecycle.finalize finalize_purge Text-discrete Key-discrete ℕ_discrete
received_unique_example =
    received_unique 1000 (sent ∷ []) acme id_a id_a print_1 refl refl refl refl

create_or_get_received-ne-key_error_example :
    (create_or_get_received 500 500 acme print_1 id_b (record_of id_b print_1) none with_a).0
    ≢ err key_error
create_or_get_received-ne-key_error_example =
    create_or_get_received-ne-key_error 500 500 acme print_1 id_b (record_of id_b print_1) none
      with_a (calls-IsValid 1000 (sent ∷ []))
