-- ===== src/Ingestion/Metadata/Replay.antt =====
-- What `create_or_get_received` promises a client that sends a report again under its key, whatever calls
-- are made in between.
use cloudops_guard.Prelude.Dict
use cloudops_guard.Ingestion.Metadata.Calls.{Call, after_all}
use cloudops_guard.Prelude.{
  Option-cases, inl, inr, ◌∷◌, List, ◌≢◌, ℕ, ◌+◌, ◌≤◌, true, Option, some, ◌≡◌, arith,
}
use cloudops_guard.Ingestion.Metadata.{
  none, false, KeyBinding, idempotency_key_window, expire_tombstone_if_needed, insert_record,
  active_binding, bind_key, is_candidate, create_new, get_or_create, create_or_get_received, Store,
}
use cloudops_guard.Prelude.Result.{idempotency_key_conflict, err, ok}
use cloudops_guard.Prelude.Dict.{dict_laws}
use cloudops_guard.Ingestion.Models.{IngestionRecord, is_received}
use cloudops_guard.Prelude.Text.{Key, ◌≟◌, key_eq, Text, text_eq, key_eq}
use cloudops_guard.Prelude.{All, sym, ap, subst, ◌∙◌, []}
use cloudops_guard.Ingestion.Metadata.{forget, get, get_any_status, get_tombstone}
use cloudops_guard.Ingestion.Metadata.Lifecycle.{
  mark_retired, retire, commit_retired, mark_purged, purge_by_status, purge, commit_deleted,
  begin_purge, claim_by_status, claim, acquire_claim, release_purge_claim, finalize_purge, finalize,
  claim_key,
}
use cloudops_guard.Ingestion.Metadata.Calls.{
  create, read, read_any, read_tombstone, begin, release, after,
}
use cloudops_guard.Ingestion.Models.{DateTime, RetirementReason, PurgeClaim}
use cloudops_guard.Prelude.Text.{Key, ◌≟◌}

-- The calls that create read the clock at this time at the latest.
abbrev pub IsTimely : ℕ → Call → Type 0
IsTimely limit (create now later t f i r key sound) = now ≤ limit
IsTimely limit _ = Unit

-- The record is stored as it is before each of the calls and after the last.
unfoldable pub Stays : Text → IngestionRecord → List Call → Store → Type 0
Stays t r [] s = Dict.get s.records (t, r.ingestion_id) ≡ some r
Stays t r (c ∷ cs) s = (Dict.get s.records (t, r.ingestion_id) ≡ some r) × Stays t r cs (after c s)

-- the end of the window of a record's key
abbrev pub window_end : IngestionRecord → ℕ
window_end r = r.received_at.micros + idempotency_key_window

abbrev binding_of : IngestionRecord → KeyBinding
binding_of r = record { ingestion_id = r.ingestion_id; received_at = r.received_at }

module _ (later : ℕ) (key : Key) (s : Store) where
  expire-bindings : (expire_tombstone_if_needed later key s).bindings ≡ s.bindings
  unfolding expire_tombstone_if_needed forget
  expire-bindings = ground arith

  retire-bindings :
      (at : DateTime) (why : RetirementReason)
      → (mark_retired later key at why s).1.bindings ≡ s.bindings
  unfolding mark_retired retire commit_retired
  retire-bindings at why = ground (arith, expire-bindings)

  purge-bindings : (at : DateTime) → (mark_purged later key at s).1.bindings ≡ s.bindings
  unfolding mark_purged purge_by_status purge commit_deleted
  purge-bindings at = ground (arith, expire-bindings)

  begin-bindings : (at : DateTime) → (begin_purge later key at s).1.bindings ≡ s.bindings
  unfolding begin_purge claim_by_status claim acquire_claim
  begin-bindings at = ground (arith, expire-bindings)

release-bindings : (c : PurgeClaim) (s : Store) → (release_purge_claim c s).bindings ≡ s.bindings
unfolding release_purge_claim
release-bindings c s = ground arith

finalize-bindings :
    (later : ℕ) (c : PurgeClaim) (s : Store) → (finalize_purge later c s).1.bindings ≡ s.bindings
unfolding finalize_purge finalize commit_deleted
finalize-bindings later c s = ground (arith, expire-bindings later (claim_key c) s)

-- a creation writes no other key of a tenant
create-bindings_none :
    (now later : ℕ) (t' f i : Text) (r' : IngestionRecord) (s : Store)
    → (create_or_get_received now later t' f i r' none s).1.bindings ≡ s.bindings
unfolding create_or_get_received get_or_create create_new bind_key insert_record active_binding
create-bindings_none now later t' f i r' s =
    ground (arith, expire-bindings later (t', r'.ingestion_id) s)

bind-other :
    (t' x : Text) (r' : IngestionRecord) (s : Store) (j : Key)
    → (t', x) ≢ j
    → Dict.get (bind_key t' (some x) r' s).bindings j ≡ Dict.get s.bindings j
unfolding bind_key
bind-other t' x r' s j other =
    ground (arith, other, Dict.get-put s.bindings (t', x) j (binding_of r'))

create_new-other :
    (t' x : Text) (r' : IngestionRecord) (s : Store) (j : Key)
    → (t', x) ≢ j
    → Dict.get (create_new t' r' (some x) s).1.bindings j ≡ Dict.get s.bindings j
unfolding create_new insert_record
create_new-other t' x r' s j other =
    elim (Option-cases (Dict.get s.records (t', r'.ingestion_id))) [
      | inr (q, taken) ↦ ground (arith, taken)
      | inl free ↦ rw (free, create_new) (bind-other t' x r' (insert_record t' r' s) j other)
    ]

get_or_create-other :
    (later : ℕ) (t' x : Text) (r' : IngestionRecord) (s : Store) (j : Key)
    → (t', x) ≢ j
    → Dict.get (get_or_create later t' r' (some x) s).1.bindings j ≡ Dict.get s.bindings j
unfolding get_or_create
get_or_create-other later t' x r' s j other =
    elim (Option-cases (Dict.get s.fingerprints (t', r'.report_fingerprint))) [
      | inl unused ↦
          rw (unused, get_or_create)
            (create_new-other t' x r' (expire_tombstone_if_needed later (t', r'.ingestion_id) s) j
                other
              ∙ ap (λ d. Dict.get d j) (expire-bindings later (t', r'.ingestion_id) s))
      | inr (e, filed) ↦ elim (Option-cases (Dict.get s.records (t', e))) [
        | inl lost ↦ ground (arith, filed, lost)
        | inr (q, found) ↦ rw (filed, get_or_create, found) (bind-other t' x q s j other)
      ]
    ]

create-other :
    (now later : ℕ) (t' x f i : Text) (r' : IngestionRecord) (s : Store) (j : Key)
    → (t', x) ≢ j
    → Dict.get (create_or_get_received now later t' f i r' (some x) s).1.bindings j
      ≡ Dict.get s.bindings j
unfolding create_or_get_received
create-other now later t' x f i r' s j other =
    ground (arith, get_or_create-other later t' x r' s j other)

module _ (t key : Text) (r : IngestionRecord) (fresh : is_received r.status ≡ true) where
  abbrev Bound : Store → Type 0
  Bound s = Dict.get s.bindings (t, key) ≡ some (binding_of r)

  Bound-active_binding :
      (now : ℕ) (s : Store)
      → Bound s
      → Dict.get s.records (t, r.ingestion_id) ≡ some r
      → now ≤ window_end r
      → active_binding now t (some key) s ≡ some r
  unfolding active_binding
  Bound-active_binding now s bound kept recent = ground (arith, bound, kept, recent, fresh)

  -- while the binding is live, a creation under its key changes nothing
  create-same :
      (now later : ℕ) (f i : Text) (r' : IngestionRecord) (s : Store)
      → Bound s
      → Dict.get s.records (t, r.ingestion_id) ≡ some r
      → now ≤ window_end r
      → (create_or_get_received now later t f i r' (some key) s).1 ≡ s
  unfolding create_or_get_received
  create-same now later f i r' s bound kept recent =
      ground (arith, Bound-active_binding now s bound kept recent)

  create-Bound :
      (now later : ℕ) (t' f i : Text) (r' : IngestionRecord) (k : Option Text) (s : Store)
      → Bound s
      → Dict.get s.records (t, r.ingestion_id) ≡ some r
      → now ≤ window_end r
      → Bound (create_or_get_received now later t' f i r' k s).1
  create-Bound now later t' f i r' none s bound kept recent =
      ap (λ d. Dict.get d (t, key)) (create-bindings_none now later t' f i r' s) ∙ bound
  create-Bound now later t' f i r' (some x) s bound kept recent =
      let here : Key = (t', x) in
      let there : Key = (t, key) in
      elim (here ≟ there) [
        | yes same ↦
            subst (λ (j : Key). Bound (create_or_get_received now later j.0 f i r' (some j.1) s).1)
              (sym same)
              (subst Bound (sym (create-same now later f i r' s bound kept recent)) bound)
        | no distinct ↦ create-other now later t' x f i r' s (t, key) distinct ∙ bound
      ]

  after-Bound :
      (c : Call) (s : Store)
      → Bound s
      → Dict.get s.records (t, r.ingestion_id) ≡ some r
      → IsTimely (window_end r) c
      → Bound (after c s)
  unfolding after get get_any_status get_tombstone
  after-Bound (create now later t' f i r' k sound) s bound kept recent =
      create-Bound now later t' f i r' k s bound kept recent
  after-Bound (read later k) s bound kept u =
      ap (λ d. Dict.get d (t, key)) (expire-bindings later k s) ∙ bound
  after-Bound (read_any later k) s bound kept u =
      ap (λ d. Dict.get d (t, key)) (expire-bindings later k s) ∙ bound
  after-Bound (read_tombstone later k) s bound kept u =
      ap (λ d. Dict.get d (t, key)) (expire-bindings later k s) ∙ bound
  after-Bound (Call.retire later k at why) s bound kept u =
      ap (λ d. Dict.get d (t, key)) (retire-bindings later k s at why) ∙ bound
  after-Bound (Call.purge later k at) s bound kept u =
      ap (λ d. Dict.get d (t, key)) (purge-bindings later k s at) ∙ bound
  after-Bound (begin later k at) s bound kept u =
      ap (λ d. Dict.get d (t, key)) (begin-bindings later k s at) ∙ bound
  after-Bound (release c) s bound kept u =
      ap (λ d. Dict.get d (t, key)) (release-bindings c s) ∙ bound
  after-Bound (Call.finalize later c) s bound kept u =
      ap (λ d. Dict.get d (t, key)) (finalize-bindings later c s) ∙ bound

  after_all-Bound :
      (cs : List Call) (s : Store)
      → Bound s
      → Stays t r cs s
      → All (IsTimely (window_end r)) cs
      → Bound (after_all cs s) × (Dict.get (after_all cs s).records (t, r.ingestion_id) ≡ some r)
  unfolding after_all Stays
  after_all-Bound [] s bound kept timely = (bound, kept)
  after_all-Bound (c ∷ cs) s bound (kept, stays) (now, timely) =
      after_all-Bound cs (after c s) (after-Bound c s bound kept now) stays timely

-- what a call that created a record under a key has written
created-Bound :
    (now later : ℕ) (t f i key : Text) (r : IngestionRecord) (s s' : Store)
    → create_or_get_received now later t f i r (some key) s ≡ (ok (r, true), s')
    → (is_candidate t f i r ≡ true) × (Dict.get s'.bindings (t, key) ≡ some (binding_of r))
unfolding create_or_get_received get_or_create create_new bind_key
created-Bound now later t f i key r s s' h = (
  ground (arith, h),
  ground (
    arith,
    h,
    Dict.get-put_self
        (insert_record t r (expire_tombstone_if_needed later (t, r.ingestion_id) s)).bindings
        (t, key) (binding_of r),
  ),
)

candidate-received :
    (t f i : Text) (r : IngestionRecord)
    → is_candidate t f i r ≡ true
    → (is_received r.status ≡ true) × (r.report_fingerprint ≡ f)
unfolding is_candidate
candidate-received t f i r h = (ground (arith, h), ground (arith, h))

-- A client that sends a report under an idempotency key and sends the same report under the same key
-- again, within 24 hours of the first receipt, gets the record of the first request, whatever new id
-- and record its retry proposes, and the store does not change. Any calls may come in between, creations
-- among them within these hours, as long as the record stays received.
pub replay :
    (now later now' later' : ℕ) (t f i i' key : Text) (r r' : IngestionRecord) (s s' : Store)
    (cs : List Call)
    → create_or_get_received now later t f i r (some key) s ≡ (ok (r, true), s')
    → Stays t r cs s'
    → All (IsTimely (window_end r)) cs
    → is_candidate t f i' r' ≡ true
    → now' ≤ window_end r
    → create_or_get_received now' later' t f i' r' (some key) (after_all cs s')
      ≡ (ok (r, false), after_all cs s')
unfolding create_or_get_received
replay now later now' later' t f i i' key r r' s s' cs first stays timely candidate recent =
    let (own, bound) = created-Bound now later t f i key r s s' first in
    let (fresh, same) = candidate-received t f i r own in
    let (bound', kept) = after_all-Bound t key r fresh cs s' bound stays timely in
    ground (
      arith,
      candidate,
      same,
      Bound-active_binding t key r fresh now' (after_all cs s') bound' kept recent,
    )

-- Under the same conditions, but where the report that is sent is another one, the store raises a
-- conflict and does not change.
pub replay_conflict :
    (now later now' later' : ℕ) (t f f' i i' key : Text) (r r' : IngestionRecord) (s s' : Store)
    (cs : List Call)
    → create_or_get_received now later t f i r (some key) s ≡ (ok (r, true), s')
    → Stays t r cs s'
    → All (IsTimely (window_end r)) cs
    → is_candidate t f' i' r' ≡ true
    → f ≢ f'
    → now' ≤ window_end r
    → create_or_get_received now' later' t f' i' r' (some key) (after_all cs s')
      ≡ (err idempotency_key_conflict, after_all cs s')
unfolding create_or_get_received
replay_conflict now later now' later' t f f' i i' key r r' s s' cs first stays timely candidate
      other recent =
    let (own, bound) = created-Bound now later t f i key r s s' first in
    let (fresh, same) = candidate-received t f i r own in
    let (bound', kept) = after_all-Bound t key r fresh cs s' bound stays timely in
    ground (
      arith,
      candidate,
      other,
      same,
      Bound-active_binding t key r fresh now' (after_all cs s') bound' kept recent,
    )
