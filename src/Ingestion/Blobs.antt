-- ===== src/Ingestion/Blobs.antt =====
-- ingestion/reference.py, `InMemoryReportBlobStore`: report bytes under storage keys; and what an
-- ingestion has there.
use cloudops_guard.Prelude.{
  inl, inr, ◌≡◌, arith, Bool, true, false, Option, none, some, is_some, ite,
}
use cloudops_guard.Prelude.Dict
use cloudops_guard.Prelude.Text.{Text, Key, ◌≟◌, text_eq, key_eq}
use cloudops_guard.Prelude.Dict.{Dict}
use cloudops_guard.Ingestion.StorageKeys.{derive_storage_key_injective, derive_storage_key}
use cloudops_guard.Prelude.Result.{Result-cases, err, ok}

-- `bytes`, as the list of its values
abbrev pub Bytes : Type 0
Bytes = Text

abbrev pub BlobStore : Type 0
BlobStore = Dict Text Bytes

-- `put`
unfoldable pub put : Text → Bytes → BlobStore → BlobStore
put storage_key b blobs = Dict.put blobs storage_key b

-- `put_if_absent`: whether the bytes were written
unfoldable pub put_if_absent : Text → Bytes → BlobStore → Bool × BlobStore
put_if_absent storage_key b blobs = elim (Dict.get blobs storage_key) [
  | none ↦ (true, Dict.put blobs storage_key b)
  | some old ↦ (false, blobs)
]

-- `get`
unfoldable pub get : Text → BlobStore → Option Bytes
get storage_key blobs = Dict.get blobs storage_key

-- `delete`
unfoldable pub delete : Text → BlobStore → BlobStore
delete storage_key blobs = Dict.remove blobs storage_key

-- whether an ingestion has bytes under its storage key
unfoldable pub has_blob : Key → BlobStore → Bool
has_blob key blobs = elim (derive_storage_key key.0 key.1) [
  | err e ↦ false
  | ok k ↦ is_some (Dict.get blobs k)
]

module _ (key : Key) (k : Text) (own : derive_storage_key key.0 key.1 ≡ ok k) (j : Key) where
  pub has_blob-put :
      (b : Bytes) (blobs : BlobStore)
      → has_blob j (Dict.put blobs k b) ≡ ite (key ≟ j) true (has_blob j blobs)
  unfolding has_blob
  has_blob-put b blobs = elim (Result-cases (derive_storage_key j.0 j.1)) [
    | inr (e, bad) ↦ ground arith
    | inl (q, good) ↦
        ground (arith, Dict.get-put blobs k q b, derive_storage_key_injective key.0 j.0 key.1 j.1 k)
  ]

  pub has_blob-remove :
      (blobs : BlobStore)
      → has_blob j (Dict.remove blobs k) ≡ ite (key ≟ j) false (has_blob j blobs)
  unfolding has_blob
  has_blob-remove blobs = elim (Result-cases (derive_storage_key j.0 j.1)) [
    | inr (e, bad) ↦ ground arith
    | inl (q, good) ↦
        ground
          (arith, Dict.get-remove blobs k q, derive_storage_key_injective key.0 j.0 key.1 j.1 k)
  ]
