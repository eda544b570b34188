-- ===== src/Api/Requests.antt =====
-- The operations of the service on its stores, one after the other: the three handlers of app.py that
-- reach them, the retention sweep and the purge.
use cloudops_guard.Prelude.Dict
use cloudops_guard.Prelude.{is_some, arith, sym, ◌∙◌, ℕ, Option, List, [], ◌∷◌, ◌≡◌, refl}
use cloudops_guard.Ingestion.Models.{DateTime, customer_requested}
use cloudops_guard.Api.{true, false, Bool, World, IsConsistent}
use cloudops_guard.Api.Coordinator.{create_ingestion, Attempt}
use cloudops_guard.Ingestion.Metadata.{get}
use cloudops_guard.Ingestion.Metadata.{new_store}
use cloudops_guard.Ingestion.Blobs.{Bytes, has_blob}
use cloudops_guard.Prelude.Text.{text_eq, key_eq, Key, Text}
use cloudops_guard.Ingestion.Metadata.Lifecycle.{mark_retired}
use cloudops_guard.Api.Coordinator.SafeWrite.{is_faulty, create_ingestion-IsConsistent}
use cloudops_guard.Prelude.Result.{ok, Exn, err, Result}
use cloudops_guard.Api.Lifecycle.{purge_retired_ingestion, run_retention_sweep}
use cloudops_guard.Ingestion.Metadata.Creation.{expire-IsValid}
use cloudops_guard.Api.Consistency.{holds-mark_retired, holds-expire}
use cloudops_guard.Ingestion.Metadata.Transitions.{mark_retired-IsValid}
use cloudops_guard.Api.Lifecycle.Purge.{purge-IsConsistent, retention-IsConsistent}
use cloudops_guard.Ingestion.Metadata.Calls.{new_store-IsValid}
use cloudops_guard.Ingestion.StorageKeys.{derive_storage_key}

pub data Request : Type 0 where
  -- `POST /api/v1/reports`, past its checks
  submit : (ℕ → Attempt) → Text → Result Text → Bytes → Option Text → Request
  -- `GET /api/v1/reports/{id}`
  read : ℕ → Key → Request
  -- `DELETE /api/v1/reports/{id}`
  remove : ℕ → Key → DateTime → Request
  -- the scheduled operations
  retain : ℕ → DateTime → ℕ → Request
  purge : ℕ → ℕ → Option Exn → Key → DateTime → Request

unfoldable pub serve : Request → World → World
serve (submit source t fingerprint b key) w = (create_ingestion source t fingerprint b key w).1
serve (read later key) w = record w { metadata = (get later key w.metadata).1 }
serve (remove later key at) w = record w {
  metadata = (mark_retired later key at customer_requested w.metadata).1;
}
serve (retain period at later) w = record w {
  metadata = (run_retention_sweep period at later w.metadata).1;
}
serve (purge later later' fault key at) w = (purge_retired_ingestion later later' fault key at w).1

unfoldable pub serve_all : List Request → World → World
serve_all [] w = w
serve_all (q ∷ qs) w = serve_all qs (serve q w)

-- The ingestions of the turns in which a method of a store fails are marked.
unfoldable pub AreMarked : (Key → Bool) → List Request → Type 0
AreMarked marked [] = Unit {0}
AreMarked marked (submit source t fingerprint b key ∷ qs) =
    ((n : ℕ) → is_faulty (source n) ≡ true → marked (t, (source n).ingestion_id) ≡ true)
    × AreMarked marked qs
AreMarked marked (q ∷ qs) = AreMarked marked qs

module _ (marked : Key → Bool) where
  pub serve-IsConsistent :
      (q : Request) (qs : List Request) (w : World)
      → AreMarked marked (q ∷ qs)
      → IsConsistent marked w
      → IsConsistent marked (serve q w) × AreMarked marked qs
  unfolding serve get AreMarked
  serve-IsConsistent (submit source t fingerprint b key) qs w m h =
      (create_ingestion-IsConsistent marked source t fingerprint b key w m.0 h, m.1)
  serve-IsConsistent (read later key) qs w m h = (
    record {
      valid = expire-IsValid h.valid later key;
      covered = λ j held. h.covered j (sym (holds-expire j later key w.metadata h.valid) ∙ held);
      backed = λ j plain. h.backed j plain ∙ sym (holds-expire j later key w.metadata h.valid);
    },
    m,
  )
  serve-IsConsistent (remove later key at) qs w m h =
      let same =
        λ (j : Key). holds-mark_retired j later key at customer_requested w.metadata h.valid in
      (
        record {
          valid = mark_retired-IsValid at later key customer_requested h.valid;
          covered = λ j held. h.covered j (sym (same j) ∙ held);
          backed = λ j plain. h.backed j plain ∙ sym (same j);
        },
        m,
      )
  serve-IsConsistent (retain period at later) qs w m h =
      (retention-IsConsistent marked period at later w h, m)
  serve-IsConsistent (purge later later' fault key at) qs w m h =
      (purge-IsConsistent marked later later' fault key at w h, m)

  serve_all-IsConsistent :
      (qs : List Request) (w : World)
      → AreMarked marked qs
      → IsConsistent marked w
      → IsConsistent marked (serve_all qs w)
  unfolding serve_all
  serve_all-IsConsistent [] w m h = h
  serve_all-IsConsistent (q ∷ qs) w m h =
      let (h', m') = serve-IsConsistent q qs w m h in serve_all-IsConsistent qs (serve q w) m' h'

-- the service before its first request
abbrev pub new_world : ℕ → World
new_world retention = record { metadata = new_store retention; blobs = Dict.empty }

new_world-IsConsistent :
    (marked : Key → Bool) (retention : ℕ) → IsConsistent marked (new_world retention)
unfolding has_blob Dict.get
new_world-IsConsistent marked retention = record {
  valid = new_store-IsValid retention;
  covered = λ key held. absurd (ground arith);
  backed = λ key plain. empty_blobs (derive_storage_key key.0 key.1);
}
  where
    empty_blobs :
        (r : Result Text)
        → elim r as (λ x. Bool) [
          | err e ↦ false
          | ok k ↦ is_some (Dict.get (Dict.empty {V = Bytes}) k)
        ]
          ≡ false
    empty_blobs (err e) = refl
    empty_blobs (ok k) = refl

-- After any sequence of requests, sweeps and purges, whatever they raise and whichever calls of the
-- stores fail in a submission, or the deletion of bytes in a purge, the metadata store keeps its
-- invariant and every ingestion whose record is received or retired has its report bytes. No other
-- has report bytes, except for one whose id a submission drew in a turn in which a call of a store
-- failed.
pub requests-IsConsistent :
    (marked : Key → Bool) (retention : ℕ) (qs : List Request)
    → AreMarked marked qs
    → IsConsistent marked (serve_all qs (new_world retention))
requests-IsConsistent marked retention qs m =
    serve_all-IsConsistent marked qs (new_world retention) m
      (new_world-IsConsistent marked retention)
