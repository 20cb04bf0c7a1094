-- ===== src/Store/Embedded/Many.antt =====
-- `get_many_bytes` of embedded/mod.rs, which opens each table once, against the reads one by one.
pub mod Slots
pub mod Groups
pub mod Reads
use rollout.Prelude.{
  ℕ, zero, suc, ◌+◌, ◌<◌, ◌==◌, ◌≡◌, refl, ap, Bool, true, false, List, [], ◌∷◌, ◌++◌, Option, none,
  some, if◌then◌else◌, arith, All, Member, map, length, get_elem?, set, replicate, length-set,
  length-replicate, get_elem?-set_self, get_elem?-set_ne, get_elem?-replicate, get_elem?-lt,
  Bool-cases, Option-cases, ==_iff, bytes_eq, bytes_eq→eq, ◌⊎◌, inl, inr, codes,
}
use rollout.Core.Ids.{Bytes}
use rollout.Core.Keys.{StorageKey}
use rollout.Core.Errors.{Result, ok, err, fatal, internal}
use rollout.Store.Embedded.{Redb, KeyCodec, find_bytes, table_for, encode_key}
use rollout.Store.Embedded.View.{view, view-get}

-- The arms of the second match on the namespace, which lacks "eval_reports".
abbrev pub static_names : List (Bytes × Bytes)
static_names =
    (codes "runs", codes "runs")
    ∷ (codes "workers", codes "workers")
    ∷ (codes "heartbeats", codes "heartbeats")
    ∷ (codes "queue", codes "queue")
    ∷ (codes "plugins", codes "plugins")
    ∷ (codes "cloudlocal_queue", codes "cloudlocal_queue")
    ∷ (codes "infer", codes "infer")
    ∷ (codes "snapshots", codes "snapshots")
    ∷ (codes "coordinator_lease", codes "coordinator_lease")
    ∷ (codes "epoch", codes "epoch")
    ∷ (codes "work", codes "work")
    ∷ (codes "queue_items", codes "queue_items")
    ∷ []

-- The indices of the keys of one table.
abbrev pub Group : Type 0
Group = Bytes × List ℕ

-- `by_table.entry(static_ns).or_default().push(i)`
abbrev pub push_index : Bytes → ℕ → List Group → List Group
push_index name i [] = (name, i ∷ []) ∷ []
push_index name i ((m, idxs) ∷ groups) =
    if bytes_eq m name then (m, idxs ++ i ∷ []) ∷ groups else (m, idxs) ∷ push_index name i groups

-- A closure that panics has no result. It runs in a task, and the join of one that has panicked is an
-- error of the call.
abbrev pub Panics : Type 0 → Type 0
Panics A = Option (Result A)

-- `spawn_blocking(..).await.map_err(|e| internal(format!("join: {e}")))?`
abbrev pub joined : {A : Type 0} → Panics A → Result A
joined none = err (fatal (internal "join: "))
joined (some r) = r

abbrev pub group_key :
    ℕ
    → (List Group → Panics (List Group))
    → Result Bytes
    → Option Bytes
    → List Group
    → Panics (List Group)
group_key i rest (err failure) name groups = some (err failure)
group_key i rest (ok table) none groups = none
group_key i rest (ok table) (some name) groups = rest (push_index name i groups)

unfoldable pub group_keys : ℕ → List StorageKey → List Group → Panics (List Group)
group_keys i [] groups = some (ok groups)
group_keys i (k ∷ ks) groups =
    group_key i (group_keys (suc i) ks) (table_for k.namespace)
      (find_bytes k.namespace static_names) groups

-- `if let Some(g) = .. { out[i] = Some(..) }`
abbrev pub store_found : ℕ → Option Bytes → List (Option Bytes) → List (Option Bytes)
store_found i none out = out
store_found i (some v) out = set out i (some v)

module _ ⦃redb : Redb⦄ ⦃keys : KeyCodec⦄ where
  -- `table.get(encode_key(&owned[i]))`; the indices are those of keys.
  abbrev pub found_at : Bytes → redb.Db → Option StorageKey → Option Bytes
  found_at table db none = none
  found_at table db (some key) = redb.get table (encode_key key) db

  unfoldable pub read_group :
      List StorageKey → Bytes → redb.Db → List ℕ → List (Option Bytes) → List (Option Bytes)
  read_group owned table db [] out = out
  read_group owned table db (i ∷ idxs) out =
      read_group owned table db idxs (store_found i (found_at table db (get_elem? owned i)) out)

  abbrev pub read_table :
      List StorageKey
      → redb.Db
      → List ℕ
      → (List (Option Bytes) → Result (List (Option Bytes)))
      → Result Bytes
      → List (Option Bytes)
      → Result (List (Option Bytes))
  read_table owned db idxs rest (err failure) out = err failure
  read_table owned db idxs rest (ok table) out = rest (read_group owned table db idxs out)

  unfoldable pub read_groups :
      List StorageKey → redb.Db → List Group → List (Option Bytes) → Result (List (Option Bytes))
  read_groups owned db [] out = ok out
  read_groups owned db ((name, idxs) ∷ groups) out =
      read_table owned db idxs (read_groups owned db groups) (table_for name) out

  abbrev pub read_grouped :
      (List Group → List Group)
      → List StorageKey
      → redb.Db
      → Panics (List Group)
      → Panics (List (Option Bytes))
  read_grouped visit owned db none = none
  read_grouped visit owned db (some (err failure)) = some (err failure)
  read_grouped visit owned db (some (ok groups)) =
      some (read_groups owned db (visit groups) (replicate (length owned) none))

  -- `visit` is the order in which the hash map of the groups is gone through.
  unfoldable pub get_many_bytes :
      (List Group → List Group) → List StorageKey → redb.Db → Result (List (Option Bytes))
  unfolding group_keys read_groups read_group
  get_many_bytes visit owned db = joined (read_grouped visit owned db (group_keys 0 owned []))
