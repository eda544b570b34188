-- ===== src/Ingestion/Metadata/Creation.antt =====
-- `create_or_get_received` keeps the invariant of the store, and so does the expiry of a tombstone.
use cloudops_guard.Prelude.{
  ℕ, ◌-◌, ltb, true, Option, none, some, ◌≡◌, refl, arith, Option-cases, Bool-cases, inl, inr,
  subst,
}
use cloudops_guard.Prelude.Text.{Text, Key, text_eq, key_eq}
use cloudops_guard.Prelude.Dict
use cloudops_guard.Prelude.Dict.{Dict, dict_laws}
use cloudops_guard.Ingestion.Models.{ingestion_record, received, IngestionRecord}
use cloudops_guard.Ingestion.Metadata.{
  Store, forget, expire_tombstone_if_needed, active_binding, create_new, get_or_create,
  is_candidate, create_or_get_received,
}
use cloudops_guard.Ingestion.Metadata.Invariant.{
  IsValid, forget-IsValid, insert_record-IsValid, bind_key-IsValid,
}
use cloudops_guard.Prelude.Result.{ok}

module _ {s : Store} (v : IsValid s) where
  pub expire-IsValid : (later : ℕ) (key : Key) → IsValid (expire_tombstone_if_needed later key s)
  unfolding expire_tombstone_if_needed
  expire-IsValid later key = elim (Option-cases (Dict.get s.tombstones key)) [
    | inl e ↦ rw (e, expire_tombstone_if_needed) v
    | inr (t, e) ↦ elim (Bool-cases (ltb s.tombstone_retention (later - t.deleted_at.micros))) [
      | inl old ↦ rw (e, old, expire_tombstone_if_needed) (forget-IsValid v key (rw e refl))
      | inr young ↦ rw (e, young, expire_tombstone_if_needed) v
    ]
  ]

  create_new-IsValid :
      (t : Text) (r : IngestionRecord) (key : Option Text)
      → r.tenant_id ≡ t
      → r.status ≡ received
      → ingestion_record r ≡ ok r
      → Dict.get s.fingerprints (t, r.report_fingerprint) ≡ none
      → IsValid (create_new t r key s).1
  unfolding create_new
  create_new-IsValid t r key own fresh sound unused =
      elim (Option-cases (Dict.get s.records (t, r.ingestion_id))) [
        | inl vacant ↦
            rw (vacant, create_new)
              (bind_key-IsValid (insert_record-IsValid v t r own fresh sound vacant unused) t key r)
        | inr (r', taken) ↦ rw (taken, create_new) v
      ]

-- an expiry leaves the index alone
fingerprints-expire :
    (later : ℕ) (key : Key) (s : Store)
    → (expire_tombstone_if_needed later key s).fingerprints ≡ s.fingerprints
unfolding expire_tombstone_if_needed forget
fingerprints-expire later key s = ground arith

module _ {s : Store} (v : IsValid s) where
  get_or_create-IsValid :
      (later : ℕ) (t : Text) (r : IngestionRecord) (key : Option Text)
      → r.tenant_id ≡ t
      → r.status ≡ received
      → ingestion_record r ≡ ok r
      → IsValid (get_or_create later t r key s).1
  unfolding get_or_create
  get_or_create-IsValid later t r key own fresh sound =
      elim (Option-cases (Dict.get s.fingerprints (t, r.report_fingerprint))) [
        | inl unused ↦
            rw (unused, get_or_create)
              (create_new-IsValid (expire-IsValid v later (t, r.ingestion_id)) t r key own fresh
                sound (rw fingerprints-expire unused))
        | inr (i, filed) ↦ elim (Option-cases (Dict.get s.records (t, i))) [
          | inl missing ↦ rw (filed, missing, get_or_create) v
          | inr (r', found) ↦ rw (filed, found, get_or_create) (bind_key-IsValid v t key r')
        ]
      ]

candidate_own :
    (t f i : Text) (r : IngestionRecord)
    → is_candidate t f i r ≡ true
    → (r.tenant_id ≡ t) × (r.status ≡ received) × (r.report_fingerprint ≡ f) × (r.ingestion_id ≡ i)
unfolding is_candidate
candidate_own t f i r h = ground arith

-- `create_or_get_received` keeps the invariant, on every branch.
pub create_or_get_received-IsValid :
    (now later : ℕ) (t f i : Text) (r : IngestionRecord) (key : Option Text) {s : Store}
    → ingestion_record r ≡ ok r
    → IsValid s
    → IsValid (create_or_get_received now later t f i r key s).1
unfolding create_or_get_received
create_or_get_received-IsValid now later t f i r key {s} sound v =
    elim (Bool-cases (is_candidate t f i r)) [
      | inr bad ↦ rw (bad, create_or_get_received) v
      | inl good ↦
          let own = candidate_own t f i r good in
          elim (Option-cases (active_binding now t key s)) [
            | inl unbound ↦
                rw (good, unbound, create_or_get_received)
                  (get_or_create-IsValid v later t r key own.0 own.1 sound)
            | inr (b, bound) ↦ subst IsValid (bound_keeps b good bound) v
          ]
    ]
  where
    bound_keeps :
        (b : IngestionRecord)
        → is_candidate t f i r ≡ true
        → active_binding now t key s ≡ some b
        → s ≡ (create_or_get_received now later t f i r key s).1
    bound_keeps b good bound = ground arith
