-- ===== src/Ingestion/Metadata/Sweep/Expired.antt =====
-- ingestion/reference.py, `list_expired_for_retention_sweep`: which records it lists.
use cloudops_guard.Prelude.Dict
use cloudops_guard.Prelude.{
  length, ◌+◌, ℕ, ◌<◌, ltb, ◌&&◌, if◌then◌else◌, All, ◌≡◌, refl, sym, ap, ◌∙◌, arith, true,
  Bool-cases, some, List, [], ◌∷◌, inl, inr, subst,
}
use mathlib.Core.List.{Memᴰ}
use mathlib.Core.List.Memᴰ.{head, tail}
use cloudops_guard.Prelude.Text.{Key, key_eq, ◌≟◌}
use cloudops_guard.Ingestion.Metadata.Entries.{is_once, IsOnce}
use cloudops_guard.Ingestion.Models.{received, is_received, DateTime, IngestionRecord}
use cloudops_guard.Ingestion.Metadata.Sweep.{
  is_expired, record_before, expired_records, insert_sorted, list_expired_for_retention_sweep,
  sort_records,
}
use cloudops_guard.Ingestion.Metadata.{Store}
use cloudops_guard.Prelude.Result.{ok}

module _ (r : IngestionRecord) where
  insert_sorted-head : (l : List IngestionRecord) → Memᴰ r (insert_sorted r l)
  unfolding insert_sorted
  insert_sorted-head [] = head refl
  insert_sorted-head (q ∷ l) = elim (Bool-cases (record_before q r)) [
    | inl before ↦ rw (before, insert_sorted) (tail (insert_sorted-head l))
    | inr not_before ↦ rw (not_before, insert_sorted) (head refl)
  ]

  insert_sorted-tail :
      (x : IngestionRecord) (l : List IngestionRecord) → Memᴰ x l → Memᴰ x (insert_sorted r l)
  unfolding insert_sorted
  insert_sorted-tail x [] m = elim m [ ]
  insert_sorted-tail x (q ∷ l) (head same) = elim (Bool-cases (record_before q r)) [
    | inl before ↦ rw (before, insert_sorted) (head same)
    | inr not_before ↦ rw (not_before, insert_sorted) (tail (head same))
  ]
  insert_sorted-tail x (q ∷ l) (tail m) = elim (Bool-cases (record_before q r)) [
    | inl before ↦ rw (before, insert_sorted) (tail (insert_sorted-tail x l m))
    | inr not_before ↦ rw (not_before, insert_sorted) (tail (tail m))
  ]

module _ (P : IngestionRecord → Type 0) where
  insert_sorted-All :
      (r : IngestionRecord) (l : List IngestionRecord) → P r → All P l → All P (insert_sorted r l)
  unfolding insert_sorted
  insert_sorted-All r [] p ps = (p, tt)
  insert_sorted-All r (q ∷ l) p (pq, ps) = elim (Bool-cases (record_before q r)) [
    | inl before ↦ rw (before, insert_sorted) (pq, insert_sorted-All r l p ps)
    | inr not_before ↦ rw (not_before, insert_sorted) (p, (pq, ps))
  ]

  pub sort_records-All : (l : List IngestionRecord) → All P l → All P (sort_records l)
  unfolding sort_records
  sort_records-All [] ps = tt
  sort_records-All (r ∷ l) (p, ps) = insert_sorted-All r (sort_records l) p (sort_records-All l ps)

pub sort_records-Mem :
    (x : IngestionRecord) (l : List IngestionRecord) → Memᴰ x l → Memᴰ x (sort_records l)
unfolding sort_records
sort_records-Mem x [] m = elim m [ ]
sort_records-Mem x (r ∷ l) (head same) =
    subst (λ y. Memᴰ y (sort_records (r ∷ l))) (sym same) (insert_sorted-head r (sort_records l))
sort_records-Mem x (r ∷ l) (tail m) =
    insert_sorted-tail r x (sort_records l) (sort_records-Mem x l m)

module _ (older_than : DateTime) where
  pub expired_records-All :
      (l : List (Key × IngestionRecord))
      → All (λ r. is_expired older_than r ≡ true) (expired_records older_than l)
  unfolding expired_records
  expired_records-All [] = tt
  expired_records-All ((k, r) ∷ l) = elim (Bool-cases (is_expired older_than r)) [
    | inl due ↦ rw (due, expired_records) (due, expired_records-All l)
    | inr not_due ↦ rw (not_due, expired_records) (expired_records-All l)
  ]

  pub expired_records-Mem :
      (key : Key) (r : IngestionRecord) (l : List (Key × IngestionRecord))
      → Dict.lookup key l ≡ some r
      → is_expired older_than r ≡ true
      → Memᴰ r (expired_records older_than l)
  unfolding expired_records Dict.lookup
  expired_records-Mem key r [] found due = ground (arith, found)
  expired_records-Mem key r ((k, q) ∷ l) found due = elim (k ≟ key) [
    | yes here ↦
        let same : q ≡ r = ground (arith, found, here) in
        rw (ap (is_expired older_than) same ∙ due, expired_records) (head (sym same))
    | no there ↦
        let rest = expired_records-Mem key r l (ground (arith, found, there)) due in
        elim (Bool-cases (is_expired older_than q)) [
          | inl q_due ↦ rw (q_due, expired_records) (tail rest)
          | inr q_free ↦ rw (q_free, expired_records) rest
        ]
  ]

All-map {ℓ κ} :
    {A : Type ℓ} {P Q : A → Type κ} (xs : List A) → ((x : A) → P x → Q x) → All P xs → All Q xs
All-map [] f h = tt
All-map (x ∷ xs) f (p, ps) = (f x p, All-map xs f ps)

lookup_behind :
    (k j : Key) (r x : IngestionRecord) (l : List (Key × IngestionRecord))
    → is_once ((k, r) ∷ l) ≡ true
    → Dict.lookup j l ≡ some x
    → Dict.lookup j ((k, r) ∷ l) ≡ some x
unfolding is_once Dict.lookup
lookup_behind k j r x l once h = elim (k ≟ j) [
  | yes same ↦ ground (arith, once, h, same, ap (λ i. Dict.lookup i l) same)
  | no other ↦ ground (arith, once, h, other)
]

once-tail :
    (k : Key) (r : IngestionRecord) (l : List (Key × IngestionRecord))
    → is_once ((k, r) ∷ l) ≡ true
    → is_once l ≡ true
unfolding is_once
once-tail k r l once = ground (arith, once)

lookup_head :
    (k : Key) (r : IngestionRecord) (l : List (Key × IngestionRecord))
    → Dict.lookup k ((k, r) ∷ l) ≡ some r
unfolding Dict.lookup
lookup_head k r l = ground arith

-- a listed record is one that is stored
abbrev pub Stored : List (Key × IngestionRecord) → IngestionRecord → Type 0
Stored l r = (k : Key) × (Dict.lookup k l ≡ some r)

pub listed :
    (older_than : DateTime) (l : List (Key × IngestionRecord))
    → is_once l ≡ true
    → All (Stored l) (expired_records older_than l)
unfolding expired_records
listed older_than [] once = tt
listed older_than ((k, r) ∷ l) once =
    let rest : All (Stored ((k, r) ∷ l)) (expired_records older_than l) =
      All-map {P = Stored l} (expired_records older_than l)
        (λ x s. (s.0, lookup_behind k s.0 r x l once s.1))
        (listed older_than l (once-tail k r l once)) in
    elim (Bool-cases (is_expired older_than r)) [
      | inl due ↦ rw (due, expired_records) ((k, lookup_head k r l), rest)
      | inr free ↦ rw (free, expired_records) rest
    ]

insert_sorted-length :
    (r : IngestionRecord) (l : List IngestionRecord) → length (insert_sorted r l) ≡ 1 + length l
unfolding insert_sorted
insert_sorted-length r [] = refl
insert_sorted-length r (q ∷ l) = ground (arith, insert_sorted-length r l)

sort_records-length : (l : List IngestionRecord) → length (sort_records l) ≡ length l
unfolding sort_records
sort_records-length [] = refl
sort_records-length (r ∷ l) =
    omega (arith, insert_sorted-length r (sort_records l), sort_records-length l)

-- A record that the sweep is to retire.
abbrev pub IsDue : DateTime → IngestionRecord → Type 0
IsDue older_than r = (r.status ≡ received) × (r.received_at.micros < older_than.micros)

-- the number of the entries with one
abbrev pub count_due : DateTime → List (Key × IngestionRecord) → ℕ
count_due older_than [] = 0
count_due older_than ((k, r) ∷ l) =
    (if is_received r.status && ltb r.received_at.micros older_than.micros then 1 else 0)
    + count_due older_than l

expired_records-length :
    (older_than : DateTime) (l : List (Key × IngestionRecord))
    → length (expired_records older_than l) ≡ count_due older_than l
unfolding expired_records is_expired
expired_records-length older_than [] = refl
expired_records-length older_than ((k, r) ∷ l) = ground (arith, expired_records-length older_than l)

expired-IsDue :
    (older_than : DateTime) (r : IngestionRecord)
    → is_expired older_than r ≡ true
    → IsDue older_than r
unfolding is_expired
expired-IsDue older_than r h = (ground (arith, h), ground (arith, h))

IsDue-expired :
    (older_than : DateTime) (r : IngestionRecord)
    → IsDue older_than r
    → is_expired older_than r ≡ true
unfolding is_expired
IsDue-expired older_than r (fresh, old) = ground (arith, fresh, old)

-- In a store where every key has one entry, the listing for the retention sweep with a timezone-aware
-- time is exactly the stored records that are received and were received before that time, each once:
-- what it lists is stored and such a record, each such record is listed, and it has as many elements as
-- the store has such entries.
pub list_expired_for_retention_sweep_lem :
    (older_than : DateTime) (s : Store)
    → older_than.aware ≡ true
    → IsOnce s
    → (l : List IngestionRecord) × ((list_expired_for_retention_sweep older_than s ≡ ok l)
        × (All (Stored s.records.entries) l
            × (All (IsDue older_than) l
                × (((key : Key) (r : IngestionRecord)
                      → Dict.get s.records key ≡ some r
                      → IsDue older_than r
                      → Memᴰ r l)
                    × (length l ≡ count_due older_than s.records.entries)))))
unfolding list_expired_for_retention_sweep Dict.get
list_expired_for_retention_sweep_lem older_than s aware once =
    let l = expired_records older_than s.records.entries in
    (
      sort_records l,
      (
        rw (aware) refl,
        (
          sort_records-All (Stored s.records.entries) l (listed older_than s.records.entries once),
          (
            sort_records-All (IsDue older_than) l (
                All-map l (expired-IsDue older_than)
                  (expired_records-All older_than s.records.entries)),
            (
              λ key r found due. sort_records-Mem r l (
                  expired_records-Mem older_than key r s.records.entries found
                    (IsDue-expired older_than r due)),
              sort_records-length l ∙ expired_records-length older_than s.records.entries,
            ),
          ),
        ),
      ),
    )
