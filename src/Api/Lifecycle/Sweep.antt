-- ===== src/Api/Lifecycle/Sweep.antt =====
-- The retention sweep retires all that is due.
use cloudops_guard.Prelude.Dict
use cloudops_guard.Prelude.{
  subst, All, List, [], ◌∷◌, ◌≤◌, refl, Bool-cases, ℕ, ◌≤◌, true, Bool-cases, Option, none, some,
  ◌≡◌, ◌≢◌, ap, arith, Option-cases, inl, inr,
}
use mathlib.Core.List.{Memᴰ}
use mathlib.Core.List.Memᴰ.{head, tail}
use cloudops_guard.Api.Lifecycle.{false, sweep, keep_retired}
use cloudops_guard.Ingestion.Metadata.Sweep.{is_expired}
use cloudops_guard.Ingestion.Models.{retention_expired}
use cloudops_guard.Ingestion.Metadata.Transitions.{mark_retired-IsValid}
use cloudops_guard.Prelude.Text.{◌≟◌, Key, ◌≟◌, text_eq, key_eq}
use cloudops_guard.Prelude.Result.{Result, ok}
use cloudops_guard.Ingestion.Models.{
  DateTime, RetirementReason, received, IngestionRecord, is_received,
}
use cloudops_guard.Ingestion.Metadata.{Store, expire_tombstone_if_needed, forget}
use cloudops_guard.Ingestion.Metadata.Lifecycle.{
  mark_retired, retire, commit_retired, retired_candidate,
}
use cloudops_guard.Ingestion.Metadata.Invariant.{IsValid}
use cloudops_guard.Ingestion.Metadata.Creation.{expire-IsValid}
use cloudops_guard.Ingestion.Metadata.Deletion.{retired_candidate-formed}

expire-get :
    (later : ℕ) (key k : Key) (s : Store) (r : IngestionRecord)
    → Dict.get (expire_tombstone_if_needed later key s).records k ≡ some r
    → Dict.get s.records k ≡ some r
unfolding expire_tombstone_if_needed forget
expire-get later key k s r h = ground (arith, h, Dict.get-remove s.records key k)

-- A record that is received after a retirement was so before it, under another key.
abbrev Others : Key → Store → Store → Type 0
Others key s s' =
    (k : Key) (r : IngestionRecord)
    → Dict.get s'.records k ≡ some r
    → r.status ≡ received
    → (Dict.get s.records k ≡ some r) × (key ≢ k)

put_other :
    (key k : Key) (s : Store) (new r : IngestionRecord)
    → Dict.get (Dict.put s.records key new) k ≡ some r
    → r.status ≡ received
    → new.status ≢ received
    → (Dict.get s.records k ≡ some r) × (key ≢ k)
put_other key k s new r h fresh past = elim (key ≟ k) [
  | yes same ↦ ground (arith, h, fresh, past, same, Dict.get-put s.records key k new)
  | no other ↦ (ground (arith, h, other, Dict.get-put s.records key k new), other)
]

module _ (later : ℕ) (key : Key) (at : DateTime) (why : RetirementReason) (s : Store)
    (v : IsValid s) (aware : at.aware ≡ true) where
  retire_step :
      ((r : IngestionRecord)
        → Dict.get s.records key ≡ some r
        → r.status ≡ received
        → r.received_at.micros ≤ at.micros)
      → ((o : Option IngestionRecord) × ((mark_retired later key at why s).0 ≡ ok o))
        × Others key s (mark_retired later key at why s).1
  unfolding mark_retired retire commit_retired
  retire_step before =
      let s' = expire_tombstone_if_needed later key s in
      let v' = expire-IsValid v later key in
      elim (Option-cases (Dict.get s'.records key)) [
        | inl missing ↦ (
          (none, ground (arith, aware, missing)),
          λ k r h fresh.
              let e : Dict.get s'.records k ≡ some r = ground (arith, h, aware, missing) in
              (
                expire-get later key k s r e,
                λ same. ground (arith, missing, e, ap (Dict.get s'.records) same),
              ),
        )
        | inr (q, found) ↦ elim (Bool-cases (is_received q.status)) [
          | inr past ↦ (
            (some q, ground (arith, aware, found, past)),
            λ k r h fresh.
                let e : Dict.get s'.records k ≡ some r = ground (arith, h, aware, found, past) in
                (
                  expire-get later key k s r e,
                  λ same. ground (arith, found, e, past, fresh, ap (Dict.get s'.records) same),
                ),
          )
          | inl live ↦
              let formed =
                retired_candidate-formed at why q (v'.formed key q found) aware
                  (before q (expire-get later key key s q found) (ground (arith, live))) in
              (
                (some (retired_candidate at why q), ground (arith, aware, found, live, formed)),
                λ k r h fresh.
                    let r' = retired_candidate at why q in
                    let e : Dict.get (Dict.put s'.records key r') k ≡ some r =
                      ground (arith, h, aware, found, live, formed) in
                    let (same_record, other) =
                      put_other key k s' r' r e fresh (λ bad. ground (arith, bad)) in
                    (expire-get later key k s r same_record, other),
              )
        ]
      ]

module _ (at older_than : DateTime) (later : ℕ) (aware : at.aware ≡ true)
    (past : older_than.micros ≤ at.micros) where
  -- where a candidate's record is still received, it is due
  abbrev pub Ready : Store → IngestionRecord → Type 0
  Ready s c =
      (r : IngestionRecord)
      → Dict.get s.records (c.tenant_id, c.ingestion_id) ≡ some r
      → r.status ≡ received
      → is_expired older_than r ≡ true

  -- all that is due is among the candidates
  abbrev pub Covers : Store → List IngestionRecord → Type 0
  Covers s cs =
      (k : Key) (r : IngestionRecord)
      → Dict.get s.records k ≡ some r
      → is_expired older_than r ≡ true
      → Memᴰ r cs

  abbrev pub Swept : Result (List IngestionRecord) × Store → Type 0
  Swept x =
      ((l : List IngestionRecord) × (x.0 ≡ ok l))
      × ((k : Key) (r : IngestionRecord)
          → Dict.get x.1.records k ≡ some r
          → is_expired older_than r ≡ false)

  due-status : (r : IngestionRecord) → is_expired older_than r ≡ true → r.status ≡ received
  unfolding is_expired
  due-status r h = ground (arith, h)

  due-before :
      (r : IngestionRecord) → is_expired older_than r ≡ true → r.received_at.micros ≤ at.micros
  unfolding is_expired
  due-before r h = ground (arith, h, past)

  Ready-kept :
      (key : Key) (s s' : Store) (cs : List IngestionRecord)
      → Others key s s'
      → All (Ready s) cs
      → All (Ready s') cs
  Ready-kept key s s' [] others ready = tt
  Ready-kept key s s' (c ∷ cs) others (now, ready) = (
    λ r h fresh. now r (others (c.tenant_id, c.ingestion_id) r h fresh).0 fresh,
    Ready-kept key s s' cs others ready,
  )

  Covers-kept :
      (c : IngestionRecord) (s s' : Store) (cs : List IngestionRecord)
      → IsValid s
      → Others (c.tenant_id, c.ingestion_id) s s'
      → Covers s (c ∷ cs)
      → Covers s' cs
  Covers-kept c s s' cs v others covers k r h due =
      let (h', other) = others k r h (due-status r due) in
      elim (covers k r h' due) [
        | head same ↦ ground (arith, other, same, v.keyed k r h')
        | tail m ↦ m
      ]

  sweep_step :
      (c : IngestionRecord) (cs : List IngestionRecord) (s : Store) (o : Option IngestionRecord)
      (l : List IngestionRecord)
      → let key : Key = (c.tenant_id, c.ingestion_id) in
        let s' = (mark_retired later key at retention_expired s).1 in
        (mark_retired later key at retention_expired s).0 ≡ ok o
        → (sweep at later cs s').0 ≡ ok l
        → sweep at later (c ∷ cs) s ≡ (ok (keep_retired at o l), (sweep at later cs s').1)
  unfolding sweep
  sweep_step c cs s o l returned rest = rw (returned, rest, sweep) refl

  pub sweep-Swept :
      (cs : List IngestionRecord) (s : Store)
      → IsValid s
      → All (Ready s) cs
      → Covers s cs
      → Swept (sweep at later cs s)
  unfolding sweep
  sweep-Swept [] s v ready covers = (
    ([], refl),
    λ k r h. elim (Bool-cases (is_expired older_than r)) [
      | inr free ↦ free
      | inl due ↦ elim (covers k r h due) [ ]
    ],
  )
  sweep-Swept (c ∷ cs) s v (now, ready) covers =
      let key : Key = (c.tenant_id, c.ingestion_id) in
      let s' = (mark_retired later key at retention_expired s).1 in
      let ((o, returned), others) =
        retire_step later key at retention_expired s v aware
          (λ r h fresh. due-before r (now r h fresh)) in
      let ((l, rest_ok), swept) =
        sweep-Swept cs s' (mark_retired-IsValid at later key retention_expired v)
          (Ready-kept key s s' cs others ready) (Covers-kept c s s' cs v others covers) in
      (
        (
          keep_retired at o l,
          ap (λ (x : Result (List IngestionRecord) × Store). x.0)
              (sweep_step c cs s o l returned rest_ok),
        ),
        λ k r. λ h. swept k r (
            subst (λ (x : Result (List IngestionRecord) × Store). Dict.get x.1.records k ≡ some r)
              (sweep_step c cs s o l returned rest_ok) h),
      )
