-- ===== src/Ingestion/Metadata/Sweep.antt =====
-- ingestion/reference.py, `list_expired_for_retention_sweep`.
pub mod Expired
use cloudops_guard.Prelude.{
  ltb, Bool, true, false, ◌&&◌, ◌==◌, List, [], ◌∷◌, not, if◌then◌else◌, ite,
}
use cloudops_guard.Prelude.Text.{Text, ◌≟◌, text_eq, Key}
use cloudops_guard.Prelude.Result.{Result, ok, err, value_error}
use cloudops_guard.Ingestion.Models.{DateTime, IngestionRecord, is_received}
use cloudops_guard.Ingestion.Metadata.{Store}

-- `record.status is RECEIVED and record.received_at < older_than`
unfoldable pub is_expired : DateTime → IngestionRecord → Bool
is_expired older_than r = is_received r.status && ltb r.received_at.micros older_than.micros

-- the comprehension over `self._records.values()`
unfoldable pub expired_records : DateTime → List (Key × IngestionRecord) → List IngestionRecord
expired_records older_than [] = []
expired_records older_than ((k, r) ∷ l) =
    let rest = expired_records older_than l in if is_expired older_than r then r ∷ rest else rest

-- Python's order on `str`
unfoldable pub text_before : Text → Text → Bool
text_before [] [] = false
text_before [] (d ∷ u) = true
text_before (c ∷ t) [] = false
text_before (c ∷ t) (d ∷ u) = let rest = text_before t u in if c == d then rest else ltb c d

-- the order of the keys `(r.received_at, r.tenant_id, r.ingestion_id)`
unfoldable pub record_before : IngestionRecord → IngestionRecord → Bool
unfolding text_before
record_before a b =
    if a.received_at.micros == b.received_at.micros
    then ite (a.tenant_id ≟ b.tenant_id) (text_before a.ingestion_id b.ingestion_id)
        (text_before a.tenant_id b.tenant_id)
    else ltb a.received_at.micros b.received_at.micros

-- `candidates.sort(key=...)`: a stable sort
unfoldable pub insert_sorted : IngestionRecord → List IngestionRecord → List IngestionRecord
insert_sorted r [] = r ∷ []
insert_sorted r (q ∷ l) =
    let rest = insert_sorted r l in if record_before q r then q ∷ rest else r ∷ q ∷ l

unfoldable pub sort_records : List IngestionRecord → List IngestionRecord
sort_records [] = []
sort_records (r ∷ l) = insert_sorted r (sort_records l)

unfoldable pub list_expired_for_retention_sweep : DateTime → Store → Result (List IngestionRecord)
unfolding expired_records sort_records insert_sorted record_before is_expired
list_expired_for_retention_sweep older_than s =
    if not older_than.aware
    then err value_error
    else ok (sort_records (expired_records older_than s.records.entries))
