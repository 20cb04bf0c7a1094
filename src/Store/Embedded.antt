-- ===== src/Store/Embedded.antt =====
-- crates/rollout-storage/src/embedded: `EmbeddedStorage` and its transactions, over the tables of
-- the redb crate. Faults of the medium and of the blocking tasks are left out.
use rollout.Prelude.{
  ℕ, ◌≡◌, Bool, true, false, ◌&&◌, leb, List, [], ◌∷◌, ◌++◌, Option, none, some, if◌then◌else◌,
  bytes_eq, length, codes,
}
use rollout.Core.Ids.{Bytes, RunId}
use rollout.Core.Keys.{StorageKey, key_has_prefix, option_eq, path_has_prefix}
use rollout.Core.Errors.{Result, ok, err, CoreError, fatal, config_invalid, internal}
use rollout.Store.Cas.{value_eq}
pub mod View
pub mod Commit
pub mod Limit
pub mod Many

abbrev pub find_bytes : Bytes → List (Bytes × Bytes) → Option Bytes
find_bytes k [] = none
find_bytes k ((j, v) ∷ rows) = if bytes_eq j k then some v else find_bytes k rows

-- The redb crate: for each name a table from bytes to bytes, empty until it is written. A write
-- transaction starts from the committed contents, and its commit makes its contents the committed
-- ones. Documented behaviour: a read gives the last write, and `iter` each entry of the table.
pub record Redb : Type 1 where
  pub Db : Type 0
  pub get : Bytes → Bytes → Db → Option Bytes
  pub insert : Bytes → Bytes → Bytes → Db → Db
  pub remove : Bytes → Bytes → Db → Db
  pub iter : Bytes → Db → List (Bytes × Bytes)
  pub get-insert :
      (u t j k v : Bytes) (db : Db)
      → get u j (insert t k v db) ≡ (if bytes_eq t u && bytes_eq k j then some v else get u j db)
  pub get-remove :
      (u t j k : Bytes) (db : Db)
      → get u j (remove t k db) ≡ (if bytes_eq t u && bytes_eq k j then none else get u j db)
  pub find-iter : (t k : Bytes) (db : Db) → find_bytes k (iter t db) ≡ get t k db

-- The postcard encoding of a key without its namespace, which does not fail in memory.
pub record KeyCodec : Type 0 where
  pub to_allocvec : Option RunId → List Bytes → Bytes
  pub from_bytes : Bytes → Option (Option RunId × List Bytes)
  pub round_trip :
      (run_id : Option RunId) (path : List Bytes)
      → from_bytes (to_allocvec run_id path) ≡ some (run_id, path)

abbrev pub encode_key : ⦃keys : KeyCodec⦄ → StorageKey → Bytes
encode_key ⦃keys⦄ key = keys.to_allocvec key.run_id key.path

-- The names of the tables.
abbrev pub all_tables : List (Bytes × Bytes)
all_tables =
    (codes "runs", codes "runs")
    ∷ (codes "workers", codes "workers")
    ∷ (codes "heartbeats", codes "heartbeats")
    ∷ (codes "queue", codes "queue")
    ∷ (codes "plugins", codes "plugins")
    ∷ (codes "cloudlocal_queue", codes "cloudlocal_queue")
    ∷ (codes "infer", codes "infer")
    ∷ (codes "snapshots", codes "snapshots")
    ∷ (codes "coordinator_lease", codes "coordinator_lease")
    ∷ (codes "epoch", codes "epoch")
    ∷ (codes "work", codes "work")
    ∷ (codes "queue_items", codes "queue_items")
    ∷ (codes "eval_reports", codes "eval_reports")
    ∷ []

abbrev pub or_unknown : Option Bytes → Result Bytes
or_unknown none = err (fatal (config_invalid "unknown storage namespace: "))
or_unknown (some table) = ok table

-- The arms of the match are those of `all_tables`, tried in their order.
unfoldable pub table_for : Bytes → Result Bytes
table_for namespace = or_unknown (find_bytes namespace all_tables)

pub data StorageEvent : Type 0 where
  put : StorageKey → StorageEvent
  delete : StorageKey → StorageEvent

abbrev pub event_key : StorageEvent → StorageKey
event_key (put key) = key
event_key (delete key) = key

-- `prefix_matches` of watch.rs: the run must be the same, also where the prefix has none.
abbrev pub prefix_matches : StorageKey → StorageKey → Bool
prefix_matches prefix candidate =
    bytes_eq prefix.namespace candidate.namespace
    && option_eq prefix.run_id candidate.run_id
    && path_has_prefix candidate.path prefix.path

-- An event only where there was an entry.
abbrev pub deleted : StorageKey → Option Bytes → List StorageEvent
deleted key none = []
deleted key (some prev) = delete key ∷ []

-- A channel: the prefix that it was opened for, and what has been sent to it.
abbrev pub Channel : Type 0
Channel = StorageKey × List StorageEvent

-- `WatchRouter::publish`
unfoldable pub publish : StorageEvent → List Channel → List Channel
publish event [] = []
publish event ((prefix, sent) ∷ channels) =
    (if prefix_matches prefix (event_key event)
      then (prefix, sent ++ event ∷ [])
      else (prefix, sent))
    ∷ publish event channels

unfoldable pub publish_all : List StorageEvent → List Channel → List Channel
publish_all [] channels = channels
publish_all (event ∷ pending) channels = publish_all pending (publish event channels)

-- `if let Some(n) = limit { if out.len() >= n { break; } }`
abbrev pub limit_reached : Option ℕ → ℕ → Bool
limit_reached none n = false
limit_reached (some limit) n = leb limit n

abbrev pub candidate : StorageKey → Option RunId × List Bytes → StorageKey
candidate prefix (run_id, path) = record {
  namespace = prefix.namespace;
  run_id = run_id;
  path = path;
}

-- One entry of the table, by what its key decodes to; `rest` is the remaining loop.
abbrev pub scan_entry :
    StorageKey
    → Option ℕ
    → Bytes
    → List (StorageKey × Bytes)
    → (List (StorageKey × Bytes) → Result (List (StorageKey × Bytes)))
    → Option (Option RunId × List Bytes)
    → Result (List (StorageKey × Bytes))
scan_entry prefix limit value out rest none = err (fatal (internal "postcard key: "))
scan_entry prefix limit value out rest (some payload) =
    let found = out ++ (candidate prefix payload, value) ∷ [] in
    if key_has_prefix (candidate prefix payload) prefix
    then (if limit_reached limit (length found) then ok found else rest found)
    else rest out

unfoldable pub scan_loop :
    ⦃keys : KeyCodec⦄
    → StorageKey
    → Option ℕ
    → List (Bytes × Bytes)
    → List (StorageKey × Bytes)
    → Result (List (StorageKey × Bytes))
scan_loop ⦃keys⦄ prefix limit [] out = ok out
scan_loop ⦃keys⦄ prefix limit ((key, value) ∷ rows) out =
    scan_entry prefix limit value out (scan_loop prefix limit rows) (keys.from_bytes key)

module _ ⦃redb : Redb⦄ where
  -- `watch` stands for the channels of the router.
  pub record EmbeddedStorage : Type 0 where
    pub db : redb.Db
    pub watch : List Channel

  -- `txn` is `none` once the transaction has been consumed.
  pub record EmbeddedTxn : Type 0 where
    pub txn : Option redb.Db
    pub pending : List StorageEvent

  unfoldable pub begin : EmbeddedStorage → EmbeddedTxn
  begin storage = record { txn = some storage.db; pending = [] }

  abbrev pub consumed : CoreError
  consumed = fatal (internal "txn already consumed")

  -- `commit` takes the staged contents and then publishes the pending events.
  unfoldable pub commit : EmbeddedTxn → EmbeddedStorage → Result (Unit {0}) × EmbeddedStorage
  commit t storage = elim t.txn [
    | none ↦ (err consumed, storage)
    | some staged ↦ (ok tt, record { db = staged; watch = publish_all t.pending storage.watch })
  ]

  -- The staged contents and the pending events are dropped.
  unfoldable pub abort : EmbeddedTxn → EmbeddedStorage → Result (Unit {0}) × EmbeddedStorage
  abort t storage = (ok tt, storage)

  module _ ⦃keys : KeyCodec⦄ where
    unfoldable pub get_bytes : StorageKey → redb.Db → Result (Option Bytes)
    get_bytes key db = elim (table_for key.namespace) [
      | err failure ↦ err failure
      | ok table ↦ ok (redb.get table (encode_key key) db)
    ]

    -- What a call does to the table it has opened, and the event that it leaves.
    abbrev pub Staged : Type 0 → Type 0
    Staged A = A × redb.Db × List StorageEvent

    -- A call: its table, then the transaction, then its work on the table.
    abbrev pub stage_on :
        {A : Type 0}
        → (Bytes → redb.Db → Staged A)
        → Result Bytes
        → Option redb.Db
        → EmbeddedTxn
        → Result A × EmbeddedTxn
    stage_on work (err failure) txn t = (err failure, t)
    stage_on work (ok table) none t = (err consumed, t)
    stage_on work (ok table) (some staged) t =
        let (a, db, events) = work table staged in
        (ok a, record { txn = some db; pending = t.pending ++ events })

    abbrev pub stage :
        {A : Type 0} → Bytes → (Bytes → redb.Db → Staged A) → EmbeddedTxn → Result A × EmbeddedTxn
    stage namespace work t = stage_on work (table_for namespace) t.txn t

    unfoldable pub put_bytes : StorageKey → Bytes → EmbeddedTxn → Result (Unit {0}) × EmbeddedTxn
    put_bytes key value =
        stage key.namespace
          (λ table db. (tt, redb.insert table (encode_key key) value db, put key ∷ []))

    unfoldable pub delete_key : StorageKey → EmbeddedTxn → Result (Unit {0}) × EmbeddedTxn
    delete_key key = stage key.namespace (λ table db. (
      tt,
      redb.remove table (encode_key key) db,
      deleted key (redb.get table (encode_key key) db),
    ))

    -- The swap itself, once the current value is the expected one.
    abbrev pub swapped : StorageKey → Option Bytes → Option Bytes → Bytes → redb.Db → Staged Bool
    swapped key current (some v) table db =
        (true, redb.insert table (encode_key key) v db, put key ∷ [])
    swapped key none none table db = (true, db, [])
    swapped key (some prev) none table db =
        (true, redb.remove table (encode_key key) db, delete key ∷ [])

    unfoldable pub cas_bytes :
        StorageKey → Option Bytes → Option Bytes → EmbeddedTxn → Result Bool × EmbeddedTxn
    cas_bytes key expected new = stage key.namespace (λ table db.
        let current = redb.get table (encode_key key) db in
        if value_eq current expected then swapped key current new table db else (false, db, []))

    unfoldable pub scan_bytes : StorageKey → Option ℕ → redb.Db → Result (List (StorageKey × Bytes))
    scan_bytes prefix limit db = elim (table_for prefix.namespace) [
      | err failure ↦ err failure
      | ok table ↦ scan_loop prefix limit (redb.iter table db) []
    ]
