-- ===== src/Api/Lifecycle/Retention.antt =====
-- A retention sweep of a store that any calls led to.
use cloudops_guard.Prelude.Dict
use cloudops_guard.Prelude.{
  ℕ, ◌≤◌, true, false, some, List, [], ◌∷◌, ◌≡◌, refl, sym, ◌∙◌, arith, subst, All, some-injective,
}
use cloudops_guard.Prelude.Text.{Key, text_eq, key_eq}
use cloudops_guard.Prelude.Result.{ok}
use cloudops_guard.Ingestion.Models.{DateTime, IngestionRecord}
use cloudops_guard.Ingestion.Metadata.{Store, new_store}
use cloudops_guard.Ingestion.Metadata.Calls.{Call, after_all, calls-IsValid}
use cloudops_guard.Ingestion.Metadata.Entries.{is_once, IsOnce, after_all-IsOnce}
use cloudops_guard.Ingestion.Metadata.Invariant.{IsValid}
use cloudops_guard.Ingestion.Metadata.Sweep.{
  is_expired, expired_records, sort_records, list_expired_for_retention_sweep,
}
use cloudops_guard.Ingestion.Metadata.Sweep.Expired.{
  listed, Stored, sort_records-All, sort_records-Mem, expired_records-All, expired_records-Mem,
}
use cloudops_guard.Api.Lifecycle.{before, run_retention_sweep, cutoff, sweep}
use cloudops_guard.Api.Lifecycle.Sweep.{Ready, Covers, Swept, sweep-Swept}

module _ (at older_than : DateTime) (later : ℕ) (aware : at.aware ≡ true)
    (past : older_than.micros ≤ at.micros) (s : Store) (v : IsValid s) where
  candidate-Ready :
      (c : IngestionRecord)
      → Stored s.records.entries c
      → is_expired older_than c ≡ true
      → Ready at older_than later aware past s c
  unfolding Dict.get
  candidate-Ready c (k, found) due r h fresh =
      let same : (c.tenant_id, c.ingestion_id) ≡ k = ground (arith, v.keyed k c found) in
      let here : Dict.lookup k s.records.entries ≡ some r =
        subst (λ j. Dict.lookup j s.records.entries ≡ some r) same h in
      subst (λ x. is_expired older_than x ≡ true) (some-injective c r (sym found ∙ here)) due

  candidates-Ready :
      (cs : List IngestionRecord)
      → All (Stored s.records.entries) cs
      → All (λ r. is_expired older_than r ≡ true) cs
      → All (Ready at older_than later aware past s) cs
  candidates-Ready [] stored due = tt
  candidates-Ready (c ∷ cs) (found, stored) (c_due, due) =
      (candidate-Ready c found c_due, candidates-Ready cs stored due)

  candidates_cover :
      Covers at older_than later aware past s
        (sort_records (expired_records older_than s.records.entries))
  unfolding Dict.get
  candidates_cover k r h due =
      sort_records-Mem r _ (expired_records-Mem older_than k r s.records.entries h due)

sweeps :
    (s : Store) (period : ℕ) (at : DateTime) (later : ℕ)
    → at.aware ≡ true
    → period ≤ at.micros
    → run_retention_sweep period at later s
      ≡ sweep at later (sort_records (expired_records (cutoff at period) s.records.entries)) s
unfolding run_retention_sweep before list_expired_for_retention_sweep
sweeps s period at later aware dated = ground (arith, aware, dated)

new_store-IsOnce : (retention : ℕ) → IsOnce (new_store retention)
unfolding is_once
new_store-IsOnce retention = refl

-- A retention sweep at a timezone-aware time, with a retention period that does not reach back before the
-- year 1, of a store that any calls led to, comes to its end without raising, and leaves no received record that is older than the retention period.
pub retention_complete :
    (cs : List Call) (retention period : ℕ) (at : DateTime) (later : ℕ)
    → at.aware ≡ true
    → period ≤ at.micros
    → ((l : List IngestionRecord) × ((run_retention_sweep period at later
            (after_all cs (new_store retention))).0
          ≡ ok l))
      × ((k : Key) (r : IngestionRecord)
          → Dict.get
              (run_retention_sweep period at later (after_all cs (new_store retention))).1.records
              k
            ≡ some r
          → is_expired (cutoff at period) r ≡ false)
retention_complete cs retention period at later aware dated =
    let s = after_all cs (new_store retention) in
    let v = calls-IsValid retention cs in
    let due = expired_records (cutoff at period) s.records.entries in
    let once = after_all-IsOnce cs (new_store retention) (new_store-IsOnce retention) in
    let past : (cutoff at period).micros ≤ at.micros = omega arith in
    let stored =
      sort_records-All (Stored s.records.entries) due
        (listed (cutoff at period) s.records.entries once) in
    let all_due =
      sort_records-All (λ r. is_expired (cutoff at period) r ≡ true) due
        (expired_records-All (cutoff at period) s.records.entries) in
    subst (Swept at (cutoff at period) later aware past)
      (sym (sweeps s period at later aware dated))
      (sweep-Swept at (cutoff at period) later aware past (sort_records due) s v
        (candidates-Ready at (cutoff at period) later aware past s v (sort_records due) stored
          all_due)
        (candidates_cover at (cutoff at period) later aware past s v))
