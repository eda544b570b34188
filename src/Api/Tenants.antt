-- ===== src/Api/Tenants.antt =====
-- What an operation in one tenant leaves alone: the records and the report bytes of all others.
use cloudops_guard.Prelude.Dict
use cloudops_guard.Prelude.{
  true, false, Bool-cases, suc, refl, inr, inl, ◌∙◌, Option-cases, ℕ, Option, ◌≡◌, ◌≢◌, ap, arith,
  subst, sym, none, some,
}
use cloudops_guard.Prelude.Text.{Text, Key, text_eq, key_eq}
use cloudops_guard.Prelude.Result.{
  idempotency_key_conflict, ingestion_id_conflict, err, Result, Result-cases, ok,
}
use cloudops_guard.Ingestion.Models.{ingestion_record, DateTime, RetirementReason, IngestionRecord}
use cloudops_guard.Ingestion.Metadata.{
  Store, expire_tombstone_if_needed, forget, create_or_get_received, get_or_create, create_new,
  insert_record, bind_key,
}
use cloudops_guard.Ingestion.Metadata.Lifecycle.{
  retired_candidate, mark_retired, retire, commit_retired,
}
use cloudops_guard.Ingestion.StorageKeys.{derive_storage_key_injective, derive_storage_key}
use cloudops_guard.Api.{Bool, World}
use cloudops_guard.Ingestion.Blobs.{BlobStore, Bytes, delete, put_if_absent}
use cloudops_guard.Api.Coordinator.{
  register, finished, again, Outcome, max_ingestion_id_generation_attempts, Turn, candidate,
  Attempt, create_ingestion, clean_up, registered, unreserved, attempts, attempt, settle,
}
use cloudops_guard.Api.Coordinator.SafeWrite.{world_of, registering-cases}
use mathlib.Core.Bool.{true}
use Prim.Native.Nat.{zero}

-- The record of an ingestion and its report bytes are the same before and after.
pub record Untouched (j : Key) (w w' : World) : Type 0 where
  pub record_same : Dict.get w'.metadata.records j ≡ Dict.get w.metadata.records j
  pub bytes_same :
      (k : Text) → derive_storage_key j.0 j.1 ≡ ok k → Dict.get w'.blobs k ≡ Dict.get w.blobs k

pub Untouched-refl : (j : Key) (w : World) → Untouched j w w
Untouched-refl j w = record { record_same = refl; bytes_same = λ k h. refl }

Untouched-trans : (j : Key) {u v w : World} → Untouched j u v → Untouched j v w → Untouched j u w
Untouched-trans j a b = record {
  record_same = b.record_same ∙ a.record_same;
  bytes_same = λ k h. b.bytes_same k h ∙ a.bytes_same k h;
}

module _ (j : Key) (t : Text) (other : t ≢ j.0) where
  apart : (i : Text) → (t, i) ≢ j
  apart i same = other (ap (λ (k : Key). k.0) same)

  pub expire-records :
      (later : ℕ) (i : Text) (s : Store)
      → Dict.get (expire_tombstone_if_needed later (t, i) s).records j ≡ Dict.get s.records j
  unfolding expire_tombstone_if_needed forget
  expire-records later i s = ground (arith, apart i, Dict.get-remove s.records (t, i) j)

  put-records :
      (i : Text) (r : IngestionRecord) (s : Store)
      → Dict.get (Dict.put s.records (t, i) r) j ≡ Dict.get s.records j
  put-records i r s = ground (arith, Dict.get-put s.records (t, i) j r, apart i)

  create_new-records :
      (r : IngestionRecord) (key : Option Text) (s : Store)
      → Dict.get (create_new t r key s).1.records j ≡ Dict.get s.records j
  unfolding create_new insert_record bind_key
  create_new-records r key s = ground (arith, put-records r.ingestion_id r s)

  get_or_create-records :
      (later : ℕ) (r : IngestionRecord) (key : Option Text) (s : Store)
      → Dict.get (get_or_create later t r key s).1.records j ≡ Dict.get s.records j
  unfolding get_or_create bind_key
  get_or_create-records later r key s = ground (
    arith,
    expire-records later r.ingestion_id s,
    create_new-records r key (expire_tombstone_if_needed later (t, r.ingestion_id) s),
  )

  create-records :
      (now later : ℕ) (f i : Text) (r : IngestionRecord) (key : Option Text) (s : Store)
      → Dict.get (create_or_get_received now later t f i r key s).1.records j ≡ Dict.get s.records j
  unfolding create_or_get_received
  create-records now later f i r key s = ground (arith, get_or_create-records later r key s)

  pub retire-records :
      (later : ℕ) (i : Text) (at : DateTime) (why : RetirementReason) (s : Store)
      → Dict.get (mark_retired later (t, i) at why s).1.records j ≡ Dict.get s.records j
  unfolding mark_retired retire commit_retired
  retire-records later i at why s =
      let s' = expire_tombstone_if_needed later (t, i) s in
      elim (Option-cases (Dict.get s'.records (t, i))) [
        | inl missing ↦ ground (arith, expire-records later i s)
        | inr (r, found) ↦ elim (Result-cases (ingestion_record (retired_candidate at why r))) [
          | inr (x, bad) ↦ ground (arith, expire-records later i s)
          | inl (r', good) ↦ ground (arith, expire-records later i s, put-records i r' s')
        ]
      ]

  -- a storage key of this tenant is none of the other ingestion
  put_if_absent-bytes :
      (i k k' : Text) (b : Bytes) (blobs : BlobStore)
      → derive_storage_key t i ≡ ok k
      → derive_storage_key j.0 j.1 ≡ ok k'
      → Dict.get (put_if_absent k b blobs).1 k' ≡ Dict.get blobs k'
  unfolding put_if_absent
  put_if_absent-bytes i k k' b blobs mine theirs =
      ground (arith, Dict.get-put blobs k k' b, derive_storage_key_injective t j.0 i j.1 k, apart i)

  delete-bytes :
      (i k k' : Text) (blobs : BlobStore)
      → derive_storage_key t i ≡ ok k
      → derive_storage_key j.0 j.1 ≡ ok k'
      → Dict.get (delete k blobs) k' ≡ Dict.get blobs k'
  unfolding delete
  delete-bytes i k k' blobs mine theirs =
      ground
        (arith, Dict.get-remove blobs k k', derive_storage_key_injective t j.0 i j.1 k, apart i)

  clean_up-Untouched :
      (a : Attempt) (i k : Text) (w w' : World) (next : World → Turn)
      → derive_storage_key t i ≡ ok k
      → Untouched j w w'
      → ((w'' : World) → world_of (next w'') ≡ w'')
      → Untouched j w (world_of (clean_up a k w' next))
  unfolding clean_up
  clean_up-Untouched a i k w w' next mine h passes = elim (Bool-cases a.cleaning) [
    | inl faulty ↦ rw (faulty, clean_up) h
    | inr fine ↦
        rw (fine, clean_up)
          (subst (Untouched j w) (sym (passes _)) (record {
            record_same = h.record_same;
            bytes_same =
                λ k' theirs. delete-bytes i k k' w'.blobs mine theirs ∙ h.bytes_same k' theirs;
          }))
  ]

  settle-Untouched :
      (a : Attempt) (i k : Text) (w w' : World) (result : Result (IngestionRecord × Bool))
      → derive_storage_key t i ≡ ok k
      → Untouched j w w'
      → Untouched j w (world_of (settle a k w' result))
  unfolding settle
  settle-Untouched a i k w w' result mine h = go result
    where
      go : (x : Result (IngestionRecord × Bool)) → Untouched j w (world_of (settle a k w' x))
      go (ok (r, true)) = h
      go (ok (r, false)) = clean_up-Untouched a i k w w' _ mine h (λ w''. refl)
      go (err ingestion_id_conflict) = clean_up-Untouched a i k w w' _ mine h (λ w''. refl)
      go (err idempotency_key_conflict) = clean_up-Untouched a i k w w' _ mine h (λ w''. refl)
      go (err e) = h

  registered-records :
      (x : Option Bool) (w w' : World) (done : Result (IngestionRecord × Bool) × Store)
      → Dict.get done.1.records j ≡ Dict.get w'.metadata.records j
      → Untouched j w w'
      → Untouched j w (record w' { metadata = (registered x done w'.metadata).1 })
  unfolding registered
  registered-records none w w' done same h = record {
    record_same = same ∙ h.record_same;
    bytes_same = h.bytes_same;
  }
  registered-records (some true) w w' done same h = record {
    record_same = same ∙ h.record_same;
    bytes_same = h.bytes_same;
  }
  registered-records (some false) w w' done same h = h

  register-Untouched :
      (a : Attempt) (f : Text) (key : Option Text) (k : Text) (w w' : World)
      → derive_storage_key t a.ingestion_id ≡ ok k
      → Untouched j w w'
      → Untouched j w (world_of (register a t f key k w'))
  unfolding register
  register-Untouched a f key k w w' mine h = elim (Result-cases a.clock) [
    | inr (e, failed) ↦
        rw (failed, register) (clean_up-Untouched a a.ingestion_id k w w' _ mine h (λ w''. refl))
    | inl (now, read) ↦ elim (Result-cases (ingestion_record (candidate t a.ingestion_id f now))) [
      | inr (e, bad) ↦
          rw (read, bad, register)
            (clean_up-Untouched a a.ingestion_id k w w' _ mine h (λ w''. refl))
      | inl (r, built) ↦
          rw (read, built, register)
            (settle-Untouched a a.ingestion_id k w _ _ mine (
              registered-records a.registering w w' _
                (create-records a.now a.later f a.ingestion_id r key w'.metadata) h))
    ]
  ]

  attempt-Untouched :
      (a : Attempt) (f : Text) (b : Bytes) (key : Option Text) (w : World)
      → Untouched j w (world_of (attempt a t f b key w))
  unfolding attempt unreserved
  attempt-Untouched a f b key w = elim (Result-cases (derive_storage_key t a.ingestion_id)) [
    | inr (e, bad) ↦ rw (bad, attempt) (Untouched-refl j w)
    | inl (k, mine) ↦
        let put : Untouched j w (record w { blobs = (put_if_absent k b w.blobs).1 }) = record {
          record_same = refl;
          bytes_same = λ k' theirs. put_if_absent-bytes a.ingestion_id k k' b w.blobs mine theirs;
        } in
        elim (registering-cases a.reserving) [
          | inr (inr early) ↦ rw (mine, early, attempt, unreserved) (Untouched-refl j w)
          | inr (inl late) ↦ rw (mine, late, attempt, unreserved) put
          | inl fine ↦ elim (Bool-cases (put_if_absent k b w.blobs).0) [
            | inr taken ↦ rw (mine, fine, taken, attempt) (Untouched-refl j w)
            | inl free ↦ rw (mine, fine, free, attempt) (register-Untouched a f key k w _ mine put)
          ]
        ]
  ]

  attempts-Untouched :
      (left n : ℕ) (source : ℕ → Attempt) (f : Text) (b : Bytes) (key : Option Text) (w : World)
      → Untouched j w (attempts left n source t f b key w).1
  unfolding attempts
  attempts-Untouched zero n source f b key w = Untouched-refl j w
  attempts-Untouched (suc left) n source f b key w =
      go (attempt (source n) t f b key w) (attempt-Untouched (source n) f b key w)
        (λ w'. attempts-Untouched left (suc n) source f b key w')
    where
      go :
          (turn : Turn)
          → Untouched j w (world_of turn)
          → ((w' : World) → Untouched j w' (attempts left (suc n) source t f b key w').1)
          → Untouched j w
              (elim turn as (λ x. Outcome) [
                | again w' ↦ attempts left (suc n) source t f b key w'
                | finished result w' ↦ (result, w')
              ]).1
      go (again w') now rest = Untouched-trans j now (rest w')
      go (finished result w') now rest = now

  pub create_ingestion-Untouched :
      (source : ℕ → Attempt) (fingerprint : Result Text) (b : Bytes) (key : Option Text) (w : World)
      → Untouched j w (create_ingestion source t fingerprint b key w).1
  unfolding create_ingestion
  create_ingestion-Untouched source (err e) b key w = Untouched-refl j w
  create_ingestion-Untouched source (ok f) b key w =
      attempts-Untouched max_ingestion_id_generation_attempts 0 source f b key w
