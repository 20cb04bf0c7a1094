-- ===== src/Snapshots/TrainState.antt =====
-- crates/rollout-snapshots/src/kind/train_state.rs: a train state is saved as an archive in the object
-- store and a row in the storage, and restored from the archive. The object store is the part of the
-- trait of crates/rollout-core/src/traits/cloud.rs that is called here.
pub mod RoundTrip
use rollout.Prelude.{
  ℕ, Bool, true, false, List, [], ◌∷◌, Option, none, some, length, bytes_eq, codes, if◌then◌else◌,
}
use rollout.Core.Ids.{Bytes, RunId, ContentId, content_str}
use rollout.Core.Errors.{Result, ok, err, CoreError, fatal, plugin_contract}
use rollout.Core.Keys.{StorageKey}
use rollout.Core.Externals.{Blake3}
use rollout.Store.{Storage, Codec, encode}
use rollout.Coordinator.Drain.{SnapshotKind, train_state}
use rollout.Snapshots.{Snapshot, SnapshotPart}
use rollout.Snapshots.Archive.{Tar, DirEntry, build_deterministic_tar, extract_tar}

pub record ObjectStore : Type 1 where
  pub Objects : Type 0
  pub put_bytes : Bytes → Objects → Result ContentId × Objects
  pub get_bytes : ContentId → Objects → Result Bytes

pub record SnapshotRequest : Type 0 where
  pub run_id : RunId
  pub kind : SnapshotKind
  pub label : Option Bytes

abbrev pub snapshot_key : RunId → ContentId → StorageKey
snapshot_key run_id id = record {
  namespace = codes "snapshots";
  run_id = some run_id;
  path = content_str id ∷ [];
}

abbrev pub mismatched : CoreError
mismatched =
    fatal
      (plugin_contract "rollout-snapshots" "ObjectStore returned mismatched ContentId: expected ")

abbrev pub missing_part : CoreError
missing_part =
    fatal (plugin_contract "rollout-snapshots" "missing 'tar' part on TrainState snapshot")

abbrev pub corrupted : CoreError
corrupted = fatal (plugin_contract "rollout-snapshots" "blake3 mismatch on restore: expected ")

abbrev pub tar_snapshot : SnapshotRequest → ℕ → ContentId → ℕ → Snapshot
tar_snapshot request now id size = record {
  id = id;
  kind = train_state;
  run_id = request.run_id;
  created_at = now;
  label = request.label;
  parts = record { role = codes "tar"; content = id; size = size } ∷ [];
}

module _ ⦃st : Storage⦄ where
  abbrev pub persist_as : Snapshot → Result Bytes → st.Contents → Result Snapshot × st.Contents
  persist_as snap (err e) c = (err e, c)
  persist_as snap (ok value) c = (ok snap, st.put_bytes (snapshot_key snap.run_id snap.id) value c)

module _ ⦃st : Storage⦄ ⦃codec : Codec Snapshot⦄ ⦃blake3 : Blake3⦄ where
  -- What follows the put of the archive, at a time.
  unfoldable pub persist :
      SnapshotRequest → ℕ → Bytes → Result ContentId → st.Contents → Result Snapshot × st.Contents
  persist request now tar_bytes (err e) c = (err e, c)
  persist request now tar_bytes (ok id) c =
      let snap = tar_snapshot request now id (length tar_bytes) in
      if bytes_eq id (blake3.content_of tar_bytes)
      then persist_as snap (encode snap) c
      else (err mismatched, c)

module _ ⦃st : Storage⦄ ⦃codec : Codec Snapshot⦄ ⦃blake3 : Blake3⦄ ⦃object : ObjectStore⦄ where
  unfoldable pub save_tar :
      SnapshotRequest
      → ℕ
      → Result Bytes
      → st.Contents
      → object.Objects
      → Result Snapshot × st.Contents × object.Objects
  unfolding persist
  save_tar request now (err e) c objects = (err e, c, objects)
  save_tar request now (ok tar_bytes) c objects =
      let put = object.put_bytes tar_bytes objects in
      let saved = persist request now tar_bytes put.0 c in (saved.0, saved.1, put.1)

  -- The debug assertion of the kind is left out.
  unfoldable pub save_train_state :
      ⦃tar : Tar⦄
      → SnapshotRequest
      → ℕ
      → List DirEntry
      → st.Contents
      → object.Objects
      → Result Snapshot × st.Contents × object.Objects
  unfolding save_tar
  save_train_state request now entries = save_tar request now (build_deterministic_tar entries)

abbrev pub tar_part : List SnapshotPart → Option SnapshotPart
tar_part [] = none
tar_part (p ∷ parts) = if bytes_eq p.role (codes "tar") then some p else tar_part parts

module _ ⦃blake3 : Blake3⦄ ⦃tar : Tar⦄ where
  abbrev pub extract_checked : ContentId → Result Bytes → tar.Dirs → Result (Unit {0}) × tar.Dirs
  extract_checked id (err e) dirs = (err e, dirs)
  extract_checked id (ok tar_bytes) dirs =
      if bytes_eq (blake3.content_of tar_bytes) id
      then extract_tar tar_bytes dirs
      else (err corrupted, dirs)

module _ ⦃blake3 : Blake3⦄ ⦃tar : Tar⦄ ⦃object : ObjectStore⦄ where
  abbrev pub restore_part :
      Option SnapshotPart → object.Objects → tar.Dirs → Result (Unit {0}) × tar.Dirs
  restore_part none objects dirs = (err missing_part, dirs)
  restore_part (some p) objects dirs =
      extract_checked p.content (object.get_bytes p.content objects) dirs

  unfoldable pub restore_train_state :
      Snapshot → object.Objects → tar.Dirs → Result (Unit {0}) × tar.Dirs
  restore_train_state snapshot objects dirs = restore_part (tar_part snapshot.parts) objects dirs
