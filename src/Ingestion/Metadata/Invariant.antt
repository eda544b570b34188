-- ===== src/Ingestion/Metadata/Invariant.antt =====
-- The invariant of `InMemoryMetadataStore` over its seven dictionaries, and the writes that keep it.
use cloudops_guard.Prelude.{ℕ, ◌≤◌, true, Option, none, some, is_some, ite, ◌≡◌, arith}
use cloudops_guard.Prelude.Text.{Text, Key, ◌≟◌, text_eq, key_eq}
use cloudops_guard.Prelude.Dict
use cloudops_guard.Prelude.Dict.{Dict, dict_laws}
use cloudops_guard.Prelude.Result.{ok}
use cloudops_guard.Ingestion.Models.{
  IngestionStatus, received, retired, deleted, IngestionRecord, ingestion_record, Tombstone,
  PurgeClaim,
}
use cloudops_guard.Ingestion.Metadata.{
  Store, ActiveClaim, expire_tombstone_if_needed, forget, bind_key, insert_record,
}
use cloudops_guard.Ingestion.Metadata.Lifecycle.{
  commit_retired, release_fingerprint, commit_deleted, acquire_claim, drop_claim,
}

abbrev pub status_of : Option IngestionRecord → Option IngestionStatus
status_of none = none
status_of (some r) = some r.status

abbrev pub fingerprint_of : Option IngestionRecord → Option Text
fingerprint_of none = none
fingerprint_of (some r) = some r.report_fingerprint

pub record IsValid (s : Store) : Type 0 where
  -- a record stands under its own tenant and id
  pub keyed :
      (k : Key) (r : IngestionRecord)
      → Dict.get s.records k ≡ some r
      → (r.tenant_id ≡ k.0) × (r.ingestion_id ≡ k.1)
  -- every record passes the validation of its constructor
  pub formed :
      (k : Key) (r : IngestionRecord) → Dict.get s.records k ≡ some r → ingestion_record r ≡ ok r
  -- the fingerprint index holds the received records, each under its fingerprint, and only those
  pub indexed :
      (t f i : Text)
      → Dict.get s.fingerprints (t, f) ≡ some i
      → (status_of (Dict.get s.records (t, i)) ≡ some received)
        × (fingerprint_of (Dict.get s.records (t, i)) ≡ some f)
  pub active :
      (t i f : Text)
      → status_of (Dict.get s.records (t, i)) ≡ some received
      → fingerprint_of (Dict.get s.records (t, i)) ≡ some f
      → Dict.get s.fingerprints (t, f) ≡ some i
  -- the deleted records are those with a tombstone
  pub buried :
      (k : Key)
      → is_some (Dict.get s.tombstones k) ≡ true
      → status_of (Dict.get s.records k) ≡ some deleted
  pub marked :
      (k : Key)
      → status_of (Dict.get s.records k) ≡ some deleted
      → is_some (Dict.get s.tombstones k) ≡ true
  -- a claim is on a retired record, and holds what its deletion will leave
  pub claimed :
      (k : Key)
      → is_some (Dict.get s.claims k) ≡ true
      → status_of (Dict.get s.records k) ≡ some retired
  pub candidate :
      (k : Key) (c : ActiveClaim)
      → Dict.get s.claims k ≡ some c
      → (c.purged_record.status ≡ deleted)
        × (c.purged_record.tenant_id ≡ k.0)
        × (c.purged_record.ingestion_id ≡ k.1)
        × (ingestion_record c.purged_record ≡ ok c.purged_record)
  -- the counters are above every number given out
  pub numbered :
      (k : Key) (c : ActiveClaim) → Dict.get s.claims k ≡ some c → c.claim_id ≤ s.next_claim_id
  pub counted : (k : Key) (g : ℕ) → Dict.get s.generations k ≡ some g → g ≤ s.next_generation
  pub born :
      (k : Key) → is_some (Dict.get s.records k) ≡ true → is_some (Dict.get s.generations k) ≡ true

-- A retirement takes the record's entry out of the index, and nothing else.
pub get-release_fingerprint :
    (fk : Key) (i : Text) (d : Dict Key Text) (j : Key)
    → Dict.get d fk ≡ some i
    → Dict.get (release_fingerprint fk i d) j ≡ ite (fk ≟ j) none (Dict.get d j)
unfolding release_fingerprint
get-release_fingerprint fk i d j h = ground (arith, Dict.get-remove d fk j)

module _ {s : Store} (v : IsValid s) where
  pub forget-IsValid :
      (key : Key) → is_some (Dict.get s.tombstones key) ≡ true → IsValid (forget key s)
  unfolding forget
  forget-IsValid key h = record {
    keyed = λ k r. simp dict_laws (ground (arith, v.keyed k r));
    formed = λ k r. simp dict_laws (ground (arith, v.formed k r));
    indexed = λ t f i. simp dict_laws (ground (arith, v.indexed t f i, v.buried key));
    active = λ t i f. simp dict_laws (ground (arith, v.active t i f));
    buried = λ k. simp dict_laws (ground (arith, v.buried k));
    marked = λ k. simp dict_laws (ground (arith, v.marked k));
    claimed = λ k. simp dict_laws (ground (arith, v.claimed k, v.buried key));
    candidate = v.candidate;
    numbered = v.numbered;
    counted = v.counted;
    born = λ k. simp dict_laws (ground (arith, v.born k));
  }

  pub insert_record-IsValid :
      (t : Text) (r : IngestionRecord)
      → r.tenant_id ≡ t
      → r.status ≡ received
      → ingestion_record r ≡ ok r
      → Dict.get s.records (t, r.ingestion_id) ≡ none
      → Dict.get s.fingerprints (t, r.report_fingerprint) ≡ none
      → IsValid (insert_record t r s)
  unfolding insert_record
  insert_record-IsValid t r own fresh sound vacant unused = record {
    keyed = λ k q. simp dict_laws (ground (arith, v.keyed k q));
    formed = λ k q. simp dict_laws (ground (arith, v.formed k q));
    indexed = λ u f i. simp dict_laws (ground (arith, v.indexed u f i));
    active = λ u i f. simp dict_laws (ground (arith, v.active u i f));
    buried = λ k. simp dict_laws (ground (arith, v.buried k));
    marked = λ k. simp dict_laws (ground (arith, v.marked k));
    claimed = λ k. simp dict_laws (ground (arith, v.claimed k));
    candidate = v.candidate;
    numbered = v.numbered;
    counted = λ k g. simp dict_laws (ground (arith, v.counted k g));
    born = λ k. simp dict_laws (ground (arith, v.born k));
  }

  pub bind_key-IsValid :
      (t : Text) (key : Option Text) (r : IngestionRecord) → IsValid (bind_key t key r s)
  unfolding bind_key
  bind_key-IsValid t none r = v
  bind_key-IsValid t (some key) r = record {
    keyed = v.keyed;
    formed = v.formed;
    indexed = v.indexed;
    active = v.active;
    buried = v.buried;
    marked = v.marked;
    claimed = v.claimed;
    candidate = v.candidate;
    numbered = v.numbered;
    counted = v.counted;
    born = v.born;
  }

  -- `r'` is the retired form of the received record `r` under `key`
  pub commit_retired-IsValid :
      (key : Key) (r r' : IngestionRecord)
      → Dict.get s.records key ≡ some r
      → r.status ≡ received
      → r'.status ≡ retired
      → r'.tenant_id ≡ r.tenant_id
      → r'.ingestion_id ≡ r.ingestion_id
      → r'.report_fingerprint ≡ r.report_fingerprint
      → ingestion_record r' ≡ ok r'
      → IsValid (commit_retired key r' s)
  unfolding commit_retired
  commit_retired-IsValid key r r' found live gone tenant id fingerprint sound = record {
    keyed = λ k q. simp dict_laws (ground (arith, v.keyed k q, v.keyed key r));
    formed = λ k q. simp dict_laws (ground (arith, v.formed k q));
    indexed =
        λ u f i. simp dict_laws (ground (arith, v.indexed u f i, released (u, f), v.keyed key r));
    active = λ u i f. simp dict_laws (ground (arith, v.active u i f, released (u, f), filed));
    buried = λ k. simp dict_laws (ground (arith, v.buried k));
    marked = λ k. simp dict_laws (ground (arith, v.marked k));
    claimed = λ k. simp dict_laws (ground (arith, v.claimed k));
    candidate = v.candidate;
    numbered = v.numbered;
    counted = v.counted;
    born = λ k. simp dict_laws (ground (arith, v.born k));
  }
    where
      filed : Dict.get s.fingerprints (key.0, r'.report_fingerprint) ≡ some key.1
      filed = ground (arith, v.active key.0 key.1 r'.report_fingerprint)

      released :
          (j : Key)
          → Dict.get (release_fingerprint (key.0, r'.report_fingerprint) key.1 s.fingerprints) j
            ≡ ite ((key.0, r'.report_fingerprint) ≟ j) none (Dict.get s.fingerprints j)
      released j =
          get-release_fingerprint (key.0, r'.report_fingerprint) key.1 s.fingerprints j filed

  -- `r'` and `t` are the deleted form and the tombstone of the retired record under `key`
  pub commit_deleted-IsValid :
      (key : Key) (r' : IngestionRecord) (t : Tombstone)
      → status_of (Dict.get s.records key) ≡ some retired
      → Dict.get s.claims key ≡ none
      → r'.status ≡ deleted
      → r'.tenant_id ≡ key.0
      → r'.ingestion_id ≡ key.1
      → ingestion_record r' ≡ ok r'
      → IsValid (commit_deleted key r' t s)
  unfolding commit_deleted
  commit_deleted-IsValid key r' t found free gone tenant id sound = record {
    keyed = λ k q. simp dict_laws (ground (arith, v.keyed k q));
    formed = λ k q. simp dict_laws (ground (arith, v.formed k q));
    indexed = λ u f i. simp dict_laws (ground (arith, v.indexed u f i));
    active = λ u i f. simp dict_laws (ground (arith, v.active u i f));
    buried = λ k. simp dict_laws (ground (arith, v.buried k));
    marked = λ k. simp dict_laws (ground (arith, v.marked k));
    claimed = λ k. simp dict_laws (ground (arith, v.claimed k));
    candidate = v.candidate;
    numbered = v.numbered;
    counted = v.counted;
    born = λ k. simp dict_laws (ground (arith, v.born k));
  }

  pub acquire_claim-IsValid :
      (key : Key) (r' : IngestionRecord) (t : Tombstone)
      → status_of (Dict.get s.records key) ≡ some retired
      → r'.status ≡ deleted
      → r'.tenant_id ≡ key.0
      → r'.ingestion_id ≡ key.1
      → ingestion_record r' ≡ ok r'
      → IsValid (acquire_claim key r' t s)
  unfolding acquire_claim
  acquire_claim-IsValid key r' t found gone tenant id sound = record {
    keyed = v.keyed;
    formed = v.formed;
    indexed = v.indexed;
    active = v.active;
    buried = v.buried;
    marked = v.marked;
    claimed = λ k. simp dict_laws (ground (arith, v.claimed k));
    candidate = λ k c. simp dict_laws (ground (arith, v.candidate k c));
    numbered = λ k c. simp dict_laws (ground (arith, v.numbered k c));
    counted = v.counted;
    born = v.born;
  }

  pub drop_claim-IsValid : (c : PurgeClaim) → IsValid (drop_claim c s)
  drop_claim-IsValid c = record {
    keyed = v.keyed;
    formed = v.formed;
    indexed = v.indexed;
    active = v.active;
    buried = v.buried;
    marked = v.marked;
    claimed = λ k. simp dict_laws (ground (arith, v.claimed k));
    candidate = λ k a. simp dict_laws (ground (arith, v.candidate k a));
    numbered = λ k a. simp dict_laws (ground (arith, v.numbered k a));
    counted = v.counted;
    born = v.born;
  }

-- A claimed record has no tombstone to expire.
pub unburied-expire :
    (later : ℕ) (key : Key) (s : Store)
    → IsValid s
    → (a : ActiveClaim) → Dict.get s.claims key ≡ some a
    → expire_tombstone_if_needed later key s ≡ s
unfolding expire_tombstone_if_needed
unburied-expire later key s v a held = ground (arith, v.claimed key, v.buried key)
