-- ===== src/Tests/Service.antt =====
-- The theorems on ingestion_api/ at concrete inputs: a report is sent, retired and purged.
use cloudops_guard.Prelude.Dict
use cloudops_guard.Prelude.Text.{text_eq, key_eq, Key, ◌≟◌}
use cloudops_guard.Prelude.Result.{ok}
use cloudops_guard.Ingestion.Metadata.{new_store}
use cloudops_guard.Ingestion.Metadata.Calls.{after_all}
use cloudops_guard.Ingestion.Metadata.Sweep.{is_expired}
use cloudops_guard.Ingestion.Models.{IngestionRecord}
use cloudops_guard.Api.Lifecycle.{run_retention_sweep, cutoff}
use cloudops_guard.Api.Lifecycle.Retention.{retention_complete}
use cloudops_guard.Tests.Metadata.{sent, at_time}
use cloudops_guard.Prelude.{
  arith, ◌≡◌, true, false, Bool, ite, refl, some, ℕ, List, [], ◌∷◌, none, some,
}
use cloudops_guard.Api.Requests.{
  requests-IsConsistent, new_world, serve_all, AreMarked, Request, submit, remove, purge,
}
use cloudops_guard.Api.Coordinator.{Attempt}
use cloudops_guard.Api.{IsConsistent}
use cloudops_guard.Tests.Metadata.{idem, print_1, print_2, at_time, acme, id_a, id_b}
use cloudops_guard.Prelude.Result.{ok}

abbrev pub source : ℕ → Attempt
source n = record {
  ingestion_id = id_a;
  clock = ok (at_time 100);
  now = 100;
  later = 100;
  reserving = none;
  registering = none;
  cleaning = false;
}

-- a submission whose turns all fail after the record was written
abbrev faulty_source : ℕ → Attempt
faulty_source n = record (source n) { ingestion_id = id_b; registering = some true }

abbrev marked_b : Key → Bool
marked_b key = ite (key ≟ (acme, id_b)) true false

abbrev history : List Request
history =
    submit faulty_source acme (ok print_2) (3 ∷ []) none
    ∷ submit source acme (ok print_1) (1 ∷ 2 ∷ []) (some idem)
    ∷ remove 200 (acme, id_a) (at_time 200)
    ∷ purge 300 300 none (acme, id_a) (at_time 300)
    ∷ []

history-AreMarked : AreMarked marked_b history
unfolding AreMarked
history-AreMarked = ((λ n faulty. ground arith), ((λ n faulty. absurd (ground arith)), tt))

requests-IsConsistent_example : IsConsistent marked_b (serve_all history (new_world 1000))
requests-IsConsistent_example = requests-IsConsistent marked_b 1000 history history-AreMarked

-- the record is received at 100, and the sweep at 200 keeps what is not older than 50
retention_complete_example :
    ((l : List IngestionRecord) × ((run_retention_sweep 50
          (at_time 200)
          200
          (after_all (sent ∷ []) (new_store 1000))).0
        ≡ ok l))
    × ((k : Key) (r : IngestionRecord)
        → Dict.get
            (run_retention_sweep 50
              (at_time 200)
              200
              (after_all (sent ∷ []) (new_store 1000))).1.records
            k
          ≡ some r
        → is_expired (cutoff (at_time 200) 50) r ≡ false)
retention_complete_example =
    retention_complete (sent ∷ []) 1000 50 (at_time 200) 200 refl (omega arith)
