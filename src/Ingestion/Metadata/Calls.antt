-- ===== src/Ingestion/Metadata/Calls.antt =====
-- The store as its callers see it: each method runs under the store's lock, so what threads do to it
-- is a sequence of calls, whatever the interleaving.
use cloudops_guard.Prelude.{◌≡◌, ℕ, Option, List, [], ◌∷◌}
use cloudops_guard.Prelude.Text.{Text, Key, key_eq}
use cloudops_guard.Prelude.Dict
use cloudops_guard.Prelude.Result.{ok}
use cloudops_guard.Prelude.Dict.{get-empty}
use cloudops_guard.Ingestion.Models.{
  DateTime, RetirementReason, IngestionRecord, ingestion_record, PurgeClaim,
}
use cloudops_guard.Ingestion.Metadata.{
  Store, new_store, create_or_get_received, get, get_any_status, get_tombstone,
}
use cloudops_guard.Ingestion.Metadata.Lifecycle.{
  mark_retired, mark_purged, begin_purge, release_purge_claim, finalize_purge,
}
use cloudops_guard.Ingestion.Metadata.Invariant.{IsValid}
use cloudops_guard.Ingestion.Metadata.Creation.{expire-IsValid, create_or_get_received-IsValid}
use cloudops_guard.Ingestion.Metadata.Transitions.{
  mark_retired-IsValid, mark_purged-IsValid, begin_purge-IsValid, release_purge_claim-IsValid,
  finalize_purge-IsValid,
}

-- A call, with the readings of the clock that it makes.
pub data Call : Type 0 where
  -- the new record is one that its constructor let through
  create :
      (now later : ℕ) (t f i : Text) (r : IngestionRecord) (key : Option Text)
      → ingestion_record r ≡ ok r
      → Call
  read : ℕ → Key → Call
  read_any : ℕ → Key → Call
  read_tombstone : ℕ → Key → Call
  retire : ℕ → Key → DateTime → RetirementReason → Call
  purge : ℕ → Key → DateTime → Call
  begin : ℕ → Key → DateTime → Call
  release : PurgeClaim → Call
  finalize : ℕ → PurgeClaim → Call

-- what a call leaves, whether it returned or raised
unfoldable pub after : Call → Store → Store
after (create now later t f i r key sound) s = (create_or_get_received now later t f i r key s).1
after (read later key) s = (get later key s).1
after (read_any later key) s = (get_any_status later key s).1
after (read_tombstone later key) s = (get_tombstone later key s).1
after (retire later key at why) s = (mark_retired later key at why s).1
after (purge later key at) s = (mark_purged later key at s).1
after (begin later key at) s = (begin_purge later key at s).1
after (release c) s = release_purge_claim c s
after (finalize later c) s = (finalize_purge later c s).1

unfoldable pub after_all : List Call → Store → Store
after_all [] s = s
after_all (c ∷ cs) s = after_all cs (after c s)

-- Every call keeps the invariant of the store, whether it returns or raises.
pub after-IsValid : (c : Call) {s : Store} → IsValid s → IsValid (after c s)
unfolding after get get_any_status get_tombstone
after-IsValid (create now later t f i r key sound) v =
    create_or_get_received-IsValid now later t f i r key sound v
after-IsValid (read later key) v = expire-IsValid v later key
after-IsValid (read_any later key) v = expire-IsValid v later key
after-IsValid (read_tombstone later key) v = expire-IsValid v later key
after-IsValid (retire later key at why) v = mark_retired-IsValid at later key why v
after-IsValid (purge later key at) v = mark_purged-IsValid later key at v
after-IsValid (begin later key at) v = begin_purge-IsValid later key at v
after-IsValid (release c) v = release_purge_claim-IsValid c v
after-IsValid (finalize later c) v = finalize_purge-IsValid later c v

pub after_all-IsValid : (cs : List Call) {s : Store} → IsValid s → IsValid (after_all cs s)
unfolding after_all
after_all-IsValid [] v = v
after_all-IsValid (c ∷ cs) v = after_all-IsValid cs (after-IsValid c v)

-- an empty store is valid
pub new_store-IsValid : (retention : ℕ) → IsValid (new_store retention)
unfolding Dict.get
new_store-IsValid retention = record {
  keyed = λ k r h. cc;
  formed = λ k r h. cc;
  indexed = λ t f i h. cc;
  active = λ t i f h. cc;
  buried = λ k h. cc;
  marked = λ k h. cc;
  claimed = λ k h. cc;
  candidate = λ k c h. cc;
  numbered = λ k c h. cc;
  counted = λ k g h. cc;
  born = λ k h. cc;
}

-- Whatever calls were made on a new store, in whatever order and with whatever outcomes, the store
-- keeps its invariant: the fingerprint index holds exactly the received records, the deleted records
-- are exactly those with a tombstone, and a claim is held only on a retired record.
pub calls-IsValid : (retention : ℕ) (cs : List Call) → IsValid (after_all cs (new_store retention))
calls-IsValid retention cs = after_all-IsValid cs (new_store-IsValid retention)
