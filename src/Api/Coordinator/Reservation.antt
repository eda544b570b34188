-- ===== src/Api/Coordinator/Reservation.antt =====
-- The bytes that a turn of the safe write reserves: with a new record, given back, or left behind.
use cloudops_guard.Prelude.Dict
use cloudops_guard.Prelude.{
  Bool-cases, ◌∙◌, sym, Bool, true, false, none, ◌≡◌, arith, ite, subst, if◌then◌else◌, inl, inr,
}
use cloudops_guard.Api.{World, holds, IsConsistent}
use cloudops_guard.Prelude.Result.{ok}
use cloudops_guard.Ingestion.Blobs.{
  has_blob-put, BlobStore, Bytes, has_blob-remove, put_if_absent, delete, has_blob,
}
use cloudops_guard.Ingestion.Metadata.Invariant.{IsValid}
use cloudops_guard.Prelude.Text.{text_eq, key_eq, ◌≟◌, Text, Key}
use cloudops_guard.Ingestion.StorageKeys.{derive_storage_key}
use cloudops_guard.Ingestion.Metadata.{Store}

-- While a turn runs, the bytes that it reserved under the key of its ingestion have no record yet;
-- `before` says which ingestions held bytes when the turn began.
pub record IsReserved (marked : Key → Bool) (key : Key) (before : Key → Bool) (blobs : BlobStore)
    : Type 0 where
  pub vacant : before key ≡ false
  pub present : has_blob key blobs ≡ true
  pub covered : (j : Key) → before j ≡ true → has_blob j blobs ≡ true
  pub backed : (j : Key) → marked j ≡ false → has_blob j blobs ≡ ite (key ≟ j) true (before j)

put_if_absent-true :
    (k : Text) (b : Bytes) (blobs : BlobStore)
    → (put_if_absent k b blobs).0 ≡ true
    → (Dict.get blobs k ≡ none) × ((put_if_absent k b blobs).1 ≡ Dict.put blobs k b)
unfolding put_if_absent
put_if_absent-true k b blobs h = ground arith

pub put_if_absent-false :
    (k : Text) (b : Bytes) (blobs : BlobStore)
    → (put_if_absent k b blobs).0 ≡ false
    → (put_if_absent k b blobs).1 ≡ blobs
unfolding put_if_absent
put_if_absent-false k b blobs h = ground arith

module _ (marked : Key → Bool) (key : Key) (k : Text)
    (own : derive_storage_key key.0 key.1 ≡ ok k) where
  vacant_blob : (blobs : BlobStore) → Dict.get blobs k ≡ none → has_blob key blobs ≡ false
  unfolding has_blob
  vacant_blob blobs h = ground arith

  vacant_record :
      (w : World) → IsConsistent marked w → Dict.get w.blobs k ≡ none → holds key w.metadata ≡ false
  vacant_record w h absent = elim (Bool-cases (holds key w.metadata)) [
    | inl held ↦ absurd (ground (arith, h.covered key held, vacant_blob w.blobs absent))
    | inr free ↦ free
  ]

  pub reserve :
      (b : Bytes) (w : World)
      → IsConsistent marked w
      → (put_if_absent k b w.blobs).0 ≡ true
      → IsReserved marked key (λ j. holds j w.metadata) (put_if_absent k b w.blobs).1
  reserve b w h free =
      let (absent, put) = put_if_absent-true k b w.blobs free in
      record {
        vacant = vacant_record w h absent;
        present = ground (arith, put, has_blob-put key k own key b w.blobs);
        covered =
            λ j held. ground (arith, put, has_blob-put key k own j b w.blobs, h.covered j held);
        backed =
            λ j plain. ground (arith, put, has_blob-put key k own j b w.blobs, h.backed j plain);
      }

  -- giving the reservation back
  pub unreserve :
      (s : Store) (blobs : BlobStore) {before : Key → Bool}
      → IsReserved marked key before blobs
      → IsValid s
      → ((j : Key) → holds j s ≡ before j)
      → IsConsistent marked (record { metadata = s; blobs = delete k blobs })
  unfolding delete
  unreserve s blobs h v same = record {
    valid = v;
    covered = λ j held. ground (
      arith,
      h.covered j (sym (same j) ∙ held),
      h.vacant,
      has_blob-remove key k own j blobs,
      same j,
    );
    backed = λ j plain.
        ground (arith, h.backed j plain, h.vacant, has_blob-remove key k own j blobs, same j);
  }

  -- leaving the reservation behind
  pub leave :
      (created : Bool) (w : World) {before : Key → Bool}
      → IsReserved marked key before w.blobs
      → IsValid w.metadata
      → marked key ≡ true
      → ((j : Key)
          → holds j w.metadata ≡ (if created then ite (key ≟ j) true (before j) else before j))
      → IsConsistent marked w
  leave created w h v mark same = record {
    valid = v;
    covered = λ j held. elim (key ≟ j) [
      | yes mine ↦ subst (λ i. has_blob i w.blobs ≡ true) mine h.present
      | no other ↦ h.covered j (ground (arith, same j))
    ];
    backed = λ j plain. elim (key ≟ j) [
      | yes mine ↦ absurd (ground (arith, subst (λ i. marked i ≡ true) mine mark))
      | no other ↦ ground (arith, same j, h.backed j plain)
    ];
  }
