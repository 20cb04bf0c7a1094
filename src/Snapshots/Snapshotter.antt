-- ===== src/Snapshots/Snapshotter.antt =====
-- crates/rollout-snapshots/src/lib.rs: `list`, `read_meta`, `save` and `restore` of `SnapshotterImpl`.
-- A message of `restore` leaves out the id it prints. The codec is that of the whole row.
use rollout.Prelude.{
  ℕ, leb, Bool, true, false, List, [], ◌∷◌, Option, none, some, keep, take, bytes_eq, codes,
  if◌then◌else◌,
}
use rollout.Prelude.Sort.{sort_by}
use Prim.Native.String.{String}
use rollout.Core.Ids.{Bytes, RunId, WorkerId, ContentId}
use rollout.Core.Errors.{Result, ok, err, ◌>>=◌, fatal, plugin_contract}
use rollout.Core.Keys.{StorageKey}
use rollout.Store.{Storage, Codec, decode}
use rollout.Coordinator.Drain.{SnapshotKind, train_state, buffer, process, episodic_memory}
use rollout.Egress.Fetch.{contains}
use rollout.Snapshots.{Snapshot}

pub record SnapshotFilter : Type 0 where
  pub run_id : Option RunId
  pub kind : Option SnapshotKind
  pub label_contains : Option Bytes
  pub limit : Option ℕ

pub data RestoreTarget : Type 0 where
  same_run : RestoreTarget
  fork : RunId → RestoreTarget
  worker : WorkerId → RestoreTarget

-- The derived `PartialEq`.
abbrev pub kind_eq : SnapshotKind → SnapshotKind → Bool
kind_eq train_state train_state = true
kind_eq buffer buffer = true
kind_eq process process = true
kind_eq episodic_memory episodic_memory = true
kind_eq _ _ = false

abbrev pub filter_prefix : Option RunId → StorageKey
filter_prefix run_id = record { namespace = codes "snapshots"; run_id = run_id; path = [] }

-- A test of the filter, passed where it is not set.
abbrev pub of_kind : Option SnapshotKind → Snapshot → Bool
of_kind none s = true
of_kind (some kind) s = kind_eq s.kind kind

abbrev pub label_has : Bytes → Option Bytes → Bool
label_has needle none = false
label_has needle (some label) = contains needle label

abbrev pub labeled : Option Bytes → Snapshot → Bool
labeled none s = true
labeled (some needle) s = label_has needle s.label

abbrev pub truncated : Option ℕ → List Snapshot → List Snapshot
truncated none out = out
truncated (some limit) out = take limit out

-- The later first.
abbrev pub later_leb : Snapshot → Snapshot → Bool
later_leb a b = leb b.created_at a.created_at

abbrev pub contract : {A : Type 0} → String → Result A
contract msg = err (fatal (plugin_contract "rollout-snapshots" msg))

-- The bare `save` has a directory for no kind.
unfoldable pub save : SnapshotKind → Result Snapshot
save train_state =
    contract
      "TrainState save requires save_train_state(request, accelerate_dir); the bare Snapshotter::save trait method has no place to source the directory from, and is reserved for dir-less kinds (Buffer / EpisodicMemory) — neither implemented in Phase 4."
save buffer = contract "Phase 9: SnapshotKind::Buffer"
save process = contract "Phase 11: SnapshotKind::Process"
save episodic_memory = contract "Phase 8: SnapshotKind::EpisodicMemory"

abbrev pub restore_to : RestoreTarget → Result (Unit {0})
restore_to same_run =
    contract
      "TrainState restore_train_state(snapshot, dst_dir) is the correct entry point; bare Snapshotter::restore(, SameRun) has no destination directory."
restore_to (fork new_run_id) = contract "Phase 9: Fork restore (new_run_id=)"
restore_to (worker worker_id) = contract "Phase 6: Worker restore (worker_id=)"

module _ ⦃st : Storage⦄ ⦃codec : Codec Snapshot⦄ where
  unfoldable pub decode_values : List (StorageKey × Bytes) → Result (List Snapshot)
  decode_values [] = ok []
  decode_values ((key, bytes) ∷ rows) = do
    snap ← decode bytes
    snaps ← decode_values rows
    ok (snap ∷ snaps)

  unfoldable pub list : SnapshotFilter → st.Contents → Result (List Snapshot)
  unfolding decode_values
  list filter c = do
    out ← decode_values (st.scan_bytes (filter_prefix filter.run_id) c)
    ok (
        truncated filter.limit (
          sort_by later_leb
            (keep (labeled filter.label_contains) (keep (of_kind filter.kind) out))))

  -- The first row with the id; the rows behind it are not decoded.
  abbrev pub meta_of : ContentId → Snapshot → Result (Option Snapshot) → Result (Option Snapshot)
  meta_of id snap rest = if bytes_eq snap.id id then ok (some snap) else rest

  unfoldable pub read_rows : ContentId → List (StorageKey × Bytes) → Result (Option Snapshot)
  read_rows id [] = ok none
  read_rows id ((key, bytes) ∷ rows) = do snap ← decode bytes; meta_of id snap (read_rows id rows)

  unfoldable pub read_meta : ContentId → st.Contents → Result (Option Snapshot)
  unfolding read_rows
  read_meta id c = read_rows id (st.scan_bytes (filter_prefix none) c)

  unfoldable pub restore : ContentId → RestoreTarget → st.Contents → Result (Unit {0})
  unfolding read_meta
  restore id target c = read_meta id c >>= λ found. restore_to target
