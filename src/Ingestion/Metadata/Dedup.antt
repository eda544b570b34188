-- ===== src/Ingestion/Metadata/Dedup.antt =====
-- What `create_or_get_received` promises a client that sends a report again.
use cloudops_guard.Prelude.Dict
use cloudops_guard.Ingestion.Metadata.Calls.{Call, after_all, calls-IsValid}
use cloudops_guard.Ingestion.Metadata.{new_store}
use cloudops_guard.Prelude.{List, inr, inl, Option-cases, ◌≢◌, ℕ, true, Option, some, ◌≡◌, arith}
use cloudops_guard.Ingestion.Metadata.{
  Bool, none, false, active_binding, bind_key, is_candidate, create_new, get_or_create,
  create_or_get_received, Store,
}
use cloudops_guard.Prelude.Result.{
  ingestion_id_conflict, Result, idempotency_key_conflict, key_error, err, ok,
}
use cloudops_guard.Prelude.Dict.{dict_laws}
use cloudops_guard.Ingestion.Metadata.Invariant.{fingerprint_of, status_of, IsValid}
use cloudops_guard.Ingestion.Models.{IngestionRecord, received}
use cloudops_guard.Prelude.Text.{Text, text_eq, key_eq}

-- Without a key, the content decides: while a tenant has a received record of a report, sending the
-- same report again returns that record, whatever new id and record are proposed, and the store does
-- not change.
pub resend :
    (now later : ℕ) (t i j : Text) (r r' : IngestionRecord) (s : Store)
    → IsValid s
    → Dict.get s.records (t, j) ≡ some r
    → r.status ≡ received
    → is_candidate t r.report_fingerprint i r' ≡ true
    → create_or_get_received now later t r.report_fingerprint i r' none s ≡ (ok (r, false), s)
unfolding create_or_get_received is_candidate active_binding get_or_create bind_key
resend now later t i j r r' s v found fresh candidate =
    ground (arith, v.active t j r.report_fingerprint)

-- Whatever calls were made on a new store, at most one received record of a tenant has a given
-- fingerprint.
pub received_unique :
    (retention : ℕ) (cs : List Call) (t i j f : Text)
    → let s = after_all cs (new_store retention) in
      status_of (Dict.get s.records (t, i)) ≡ some received
      → status_of (Dict.get s.records (t, j)) ≡ some received
      → fingerprint_of (Dict.get s.records (t, i)) ≡ some f
      → fingerprint_of (Dict.get s.records (t, j)) ≡ some f
      → i ≡ j
received_unique retention cs t i j f hi hj fi fj =
    let v = calls-IsValid retention cs in ground (arith, v.active t i f hi fi, v.active t j f hj fj)

-- In a valid store `create_or_get_received` never fails to find an indexed record: it raises no
-- KeyError.
pub create_or_get_received-ne-key_error :
    (now later : ℕ) (t f i : Text) (r : IngestionRecord) (key : Option Text) (s : Store)
    → IsValid s
    → (create_or_get_received now later t f i r key s).0 ≢ err key_error
unfolding create_or_get_received get_or_create create_new
create_or_get_received-ne-key_error now later t f i r key s v =
    elim (Option-cases (Dict.get s.fingerprints (t, r.report_fingerprint))) [
      | inl unused ↦ ground arith
      | inr (j, filed) ↦ ground (arith, v.indexed t r.report_fingerprint j filed)
    ]

-- what `create_or_get_received` raises of a well-made candidate in a valid store
abbrev pub is_definite : Result (IngestionRecord × Bool) → Bool
is_definite (ok a) = true
is_definite (err ingestion_id_conflict) = true
is_definite (err idempotency_key_conflict) = true
is_definite (err e) = false

pub create-is_definite :
    (now later : ℕ) (t f i : Text) (r : IngestionRecord) (key : Option Text) (s : Store)
    → IsValid s
    → is_candidate t f i r ≡ true
    → is_definite (create_or_get_received now later t f i r key s).0 ≡ true
unfolding create_or_get_received get_or_create create_new is_candidate
create-is_definite now later t f i r key s v own =
    elim (Option-cases (Dict.get s.fingerprints (t, r.report_fingerprint))) [
      | inl unused ↦ ground arith
      | inr (j, filed) ↦ ground (arith, v.indexed t r.report_fingerprint j filed)
    ]
