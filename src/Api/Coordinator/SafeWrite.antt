-- ===== src/Api/Coordinator/SafeWrite.antt =====
-- The safe write keeps the two stores consistent.
use cloudops_guard.Prelude.{
  Bool-cases, refl, ◌∙◌, sym, Bool, true, false, Option, none, ◌≡◌, arith, ite, subst, is_some,
  some, ◌⊎◌, ◌||◌, if◌then◌else◌, inl, inr,
}
use cloudops_guard.Api.{World, holds, IsConsistent}
use cloudops_guard.Api.Coordinator.Reservation.{
  IsReserved, reserve, unreserve, leave, put_if_absent-false,
}
use cloudops_guard.Api.Coordinator.{
  clean_up, registered, unreserved, Outcome, max_ingestion_id_generation_attempts, suc, ℕ,
  create_ingestion, attempts, attempt, candidate, Attempt, register, settle, Turn, again, finished,
}
use cloudops_guard.Prelude.Result.{
  idempotency_key_conflict, ingestion_id_conflict, err, Result-cases, Result, ok,
}
use cloudops_guard.Ingestion.Blobs.{Bytes, put_if_absent, has_blob}
use cloudops_guard.Ingestion.Metadata.Invariant.{IsValid}
use cloudops_guard.Prelude.Text.{text_eq, key_eq, ◌≟◌, Text, Key}
use cloudops_guard.Ingestion.StorageKeys.{derive_storage_key}
use cloudops_guard.Ingestion.Metadata.{Store, is_candidate}
use cloudops_guard.Ingestion.Models.{
  ingestion_record-eq_ok, ingestion_record, IngestionRecord, DateTime,
}
use cloudops_guard.Ingestion.Metadata.Dedup.{create-is_definite, is_definite}
use cloudops_guard.Api.Consistency.{holds-create, is_created}
use cloudops_guard.Ingestion.Metadata.Creation.{create_or_get_received-IsValid}
use Prim.Native.Nat.{zero}

-- the world that a turn leaves
abbrev pub world_of : Turn → World
world_of (again w) = w
world_of (finished result w) = w

-- Whether a method of a store fails in this turn.
abbrev pub is_faulty : Attempt → Bool
is_faulty a = is_some a.reserving || (is_some a.registering || a.cleaning)

-- a candidate of the request
candidate_own :
    (t i f : Text) (now : DateTime) (r : IngestionRecord)
    → ingestion_record (candidate t i f now) ≡ ok r
    → is_candidate t f i r ≡ true
unfolding is_candidate
candidate_own t i f now r h = ground (arith, ingestion_record-eq_ok (candidate t i f now) r h)

pub registering-cases : (x : Option Bool) → (x ≡ none) ⊎ ((x ≡ some true) ⊎ (x ≡ some false))
registering-cases none = inl refl
registering-cases (some true) = inr (inl refl)
registering-cases (some false) = inr (inr refl)

module _ (marked : Key → Bool) (key : Key) (k : Text)
    (own : derive_storage_key key.0 key.1 ≡ ok k) where
  clean_up-IsConsistent :
      (a : Attempt) (w : World) (next : World → Turn) {before : Key → Bool}
      → (is_faulty a ≡ true → marked key ≡ true)
      → IsReserved marked key before w.blobs
      → IsValid w.metadata
      → ((j : Key) → holds j w.metadata ≡ before j)
      → ((w' : World) → world_of (next w') ≡ w')
      → IsConsistent marked (world_of (clean_up a k w next))
  unfolding clean_up
  clean_up-IsConsistent a w next mark h v same passes = elim (Bool-cases a.cleaning) [
    | inl faulty ↦
        rw (faulty, clean_up) (leave marked key k own false w h v (mark (ground arith)) same)
    | inr fine ↦
        rw (fine, clean_up)
          (subst (IsConsistent marked) (sym (passes _))
            (unreserve marked key k own w.metadata w.blobs h v same))
  ]

  settle-IsConsistent :
      (a : Attempt) (w : World) (result : Result (IngestionRecord × Bool)) {before : Key → Bool}
      → (is_faulty a ≡ true → marked key ≡ true)
      → IsReserved marked key before w.blobs
      → IsValid w.metadata
      → is_definite result ≡ true
      → ((j : Key)
          → holds j w.metadata
            ≡ (if is_created result then ite (key ≟ j) true (before j) else before j))
      → IsConsistent marked (world_of (settle a k w result))
  unfolding settle
  settle-IsConsistent a w (ok (r, true)) mark h v definite same = record {
    valid = v;
    covered = λ j held. elim (key ≟ j) [
      | yes mine ↦ subst (λ i. has_blob i w.blobs ≡ true) mine h.present
      | no other ↦ h.covered j (ground (arith, same j))
    ];
    backed = λ j plain. h.backed j plain ∙ sym (same j);
  }
  settle-IsConsistent a w (ok (r, false)) mark h v definite same =
      clean_up-IsConsistent a w _ mark h v same (λ w'. refl)
  settle-IsConsistent a w (err ingestion_id_conflict) mark h v definite same =
      clean_up-IsConsistent a w _ mark h v same (λ w'. refl)
  settle-IsConsistent a w (err idempotency_key_conflict) mark h v definite same =
      clean_up-IsConsistent a w _ mark h v same (λ w'. refl)
  settle-IsConsistent a w (err e) mark h v definite same = cc

  registered-IsConsistent :
      (x : Option Bool) (a : Attempt) (w : World) (done : Result (IngestionRecord × Bool) × Store)
      → (is_faulty a ≡ true → marked key ≡ true)
      → (is_some x ≡ true → marked key ≡ true)
      → IsReserved marked key (λ j. holds j w.metadata) w.blobs
      → IsValid w.metadata
      → IsValid done.1
      → is_definite done.0 ≡ true
      → ((j : Key)
          → holds j done.1 ≡ (
              if is_created done.0
              then ite (key ≟ j) true (holds j w.metadata)
              else holds j w.metadata))
      → IsConsistent marked (
          world_of (
            settle a k
              (record w { metadata = (registered x done w.metadata).1 })
              (registered x done w.metadata).0))
  unfolding registered settle
  registered-IsConsistent none a w done mark late h v v' definite same =
      settle-IsConsistent a (record w { metadata = done.1 }) done.0 mark h v' definite same
  registered-IsConsistent (some true) a w done mark late h v v' definite same =
      leave marked key k own (is_created done.0) (record w { metadata = done.1 }) h v' (late refl)
        same
  registered-IsConsistent (some false) a w done mark late h v v' definite same =
      leave marked key k own false w h v (late refl) (λ j. refl)

  register-IsConsistent :
      (a : Attempt) (f : Text) (idempotency_key : Option Text) (w : World)
      → a.ingestion_id ≡ key.1
      → (is_faulty a ≡ true → marked key ≡ true)
      → IsReserved marked key (λ j. holds j w.metadata) w.blobs
      → IsValid w.metadata
      → IsConsistent marked (world_of (register a key.0 f idempotency_key k w))
  unfolding register
  register-IsConsistent a f idempotency_key w id mark h v = elim (Result-cases a.clock) [
    | inr (e, failed) ↦
        rw (failed, register) (clean_up-IsConsistent a w _ mark h v (λ j. refl) (λ w'. refl))
    | inl (now, read) ↦
        elim (Result-cases (ingestion_record (candidate key.0 a.ingestion_id f now))) [
          | inr (e, refused) ↦
              rw (read, refused, register)
                (clean_up-IsConsistent a w _ mark h v (λ j. refl) (λ w'. refl))
          | inl (r, built) ↦
              let own = candidate_own key.0 a.ingestion_id f now r built in
              let (same, formed) =
                ingestion_record-eq_ok (candidate key.0 a.ingestion_id f now) r built in
              let sound : ingestion_record r ≡ ok r = ground arith in
              let v' =
                create_or_get_received-IsValid a.now a.later key.0 f a.ingestion_id r
                  idempotency_key sound v in
              rw (read, built, register)
                (registered-IsConsistent a.registering a w _ mark (λ late. mark (ground arith)) h v
                  v'
                  (create-is_definite a.now a.later key.0 f a.ingestion_id r idempotency_key
                    w.metadata v own)
                  (λ j. ground (
                    arith,
                    holds-create j a.now a.later key.0 f a.ingestion_id r idempotency_key w.metadata
                        v own,
                  )))
        ]
  ]

attempt-IsConsistent :
    (marked : Key → Bool) (a : Attempt) (t f : Text) (b : Bytes) (idempotency_key : Option Text)
    (w : World)
    → (is_faulty a ≡ true → marked (t, a.ingestion_id) ≡ true)
    → IsConsistent marked w
    → IsConsistent marked (world_of (attempt a t f b idempotency_key w))
unfolding attempt unreserved
attempt-IsConsistent marked a t f b idempotency_key w mark h =
    elim (Result-cases (derive_storage_key t a.ingestion_id)) [
      | inr (e, refused) ↦ rw (refused, attempt) h
      | inl (k, derived) ↦
          let key : Key = (t, a.ingestion_id) in
          elim (registering-cases a.reserving) [
            | inr (inr early) ↦ rw (derived, early, attempt, unreserved) h
            | inr (inl late) ↦ elim (Bool-cases (put_if_absent k b w.blobs).0) [
              | inr taken ↦
                  rw (derived, late, attempt, unreserved, put_if_absent-false k b w.blobs taken) h
              | inl free ↦
                  rw (derived, late, attempt, unreserved)
                    (leave marked key k derived false _ (reserve marked key k derived b w h free)
                      h.valid (mark (ground arith)) (λ j. refl))
            ]
            | inl fine ↦ elim (Bool-cases (put_if_absent k b w.blobs).0) [
              | inr taken ↦ rw (derived, fine, taken, attempt) h
              | inl free ↦
                  rw (derived, fine, free, attempt)
                    (register-IsConsistent marked key k derived a f idempotency_key _ refl mark
                      (reserve marked key k derived b w h free) h.valid)
            ]
          ]
    ]

attempts-IsConsistent :
    (marked : Key → Bool) (left n : ℕ) (source : ℕ → Attempt) (t f : Text) (b : Bytes)
    (idempotency_key : Option Text) (w : World)
    → ((n : ℕ) → is_faulty (source n) ≡ true → marked (t, (source n).ingestion_id) ≡ true)
    → IsConsistent marked w
    → IsConsistent marked (attempts left n source t f b idempotency_key w).1
unfolding attempts
attempts-IsConsistent marked zero n source t f b idempotency_key w mark h = h
attempts-IsConsistent marked (suc left) n source t f b idempotency_key w mark h =
    go (attempt (source n) t f b idempotency_key w)
      (attempt-IsConsistent marked (source n) t f b idempotency_key w (mark n) h)
      (λ w'. attempts-IsConsistent marked left (suc n) source t f b idempotency_key w' mark)
  where
    go :
        (turn : Turn)
        → IsConsistent marked (world_of turn)
        → ((w' : World)
            → IsConsistent marked w'
            → IsConsistent marked (attempts left (suc n) source t f b idempotency_key w').1)
        → IsConsistent marked
            (elim turn as (λ x. Outcome) [
              | again w' ↦ attempts left (suc n) source t f b idempotency_key w'
              | finished result w' ↦ (result, w')
            ]).1
    go (again w') now rest = rest w' now
    go (finished result w') now rest = now

-- Whatever ids, clock readings and failures a request meets, and whether it returns or raises,
-- `create_ingestion` leaves the two stores consistent if they were, where the ids of the turns in
-- which a store fails are marked.
pub create_ingestion-IsConsistent :
    (marked : Key → Bool) (source : ℕ → Attempt) (t : Text) (fingerprint : Result Text) (b : Bytes)
    (idempotency_key : Option Text) (w : World)
    → ((n : ℕ) → is_faulty (source n) ≡ true → marked (t, (source n).ingestion_id) ≡ true)
    → IsConsistent marked w
    → IsConsistent marked (create_ingestion source t fingerprint b idempotency_key w).1
unfolding create_ingestion
create_ingestion-IsConsistent marked source t (err e) b idempotency_key w mark h = h
create_ingestion-IsConsistent marked source t (ok f) b idempotency_key w mark h =
    attempts-IsConsistent marked max_ingestion_id_generation_attempts 0 source t f b idempotency_key
      w mark h
