-- ===== src/Snapshots.antt =====
-- crates/rollout-snapshots/src/policy.rs: the retention policy, applied to the snapshots of a run.
-- Times are counted in one unit from one origin. The algorithm and the metadata of a snapshot, which
-- no code looks at, are left out of it; the codec is that of the whole row.
pub mod Retention
pub mod Snapshotter
pub mod Listing
pub mod Archive
pub mod TrainState
use rollout.Prelude.{
  ℕ, zero, suc, ◌+◌, ◌-◌, ◌^◌, ltb, leb, min, Bool, true, false, not, ◌&&◌, ◌||◌, List, [], ◌∷◌,
  Option, none, some, codes, if◌then◌else◌,
}
use rollout.Prelude.Sort.{sort_by}
use rollout.Core.Ids.{Bytes, RunId, ContentId}
use rollout.Core.Errors.{Result, ok, err, ◌>>=◌}
use rollout.Core.Keys.{StorageKey}
use rollout.Store.{Storage, Codec, decode}
use rollout.Coordinator.Drain.{SnapshotKind}

pub record SnapshotPart : Type 0 where
  pub role : Bytes
  pub content : ContentId
  pub size : ℕ

pub record Snapshot : Type 0 where
  pub id : ContentId
  pub kind : SnapshotKind
  pub run_id : RunId
  pub created_at : ℕ
  pub label : Option Bytes
  pub parts : List SnapshotPart

pub record RetentionPolicy : Type 0 where
  pub keep_last : ℕ
  pub keep_labeled : Bool
  pub max_age : Option ℕ

pub record PrunePolicy : Type 0 where
  pub run_id : RunId
  pub retention : RetentionPolicy

abbrev pub snapshot_prefix : RunId → StorageKey
snapshot_prefix run_id = record { namespace = codes "snapshots"; run_id = some run_id; path = [] }

-- The later first.
abbrev pub newer_leb : StorageKey × Snapshot → StorageKey × Snapshot → Bool
newer_leb a b = leb b.1.created_at a.1.created_at

abbrev pub u32_max : ℕ
u32_max = 2 ^ 32 - 1

abbrev pub has_label : Option Bytes → Bool
has_label none = false
has_label (some l) = true

-- Younger than the age of the policy; the age of a snapshot from the future is 0.
abbrev pub is_young : ℕ → Option ℕ → Snapshot → Bool
is_young now none snap = false
is_young now (some age) snap = ltb (now - snap.created_at) age

-- The three reasons to pass on to the next snapshot.
abbrev pub kept : RetentionPolicy → ℕ → ℕ → Snapshot → Bool
kept policy now idx snap =
    ltb (min idx u32_max) policy.keep_last
    || (policy.keep_labeled && has_label snap.label)
    || is_young now policy.max_age snap

module _ ⦃codec : Codec Snapshot⦄ where
  -- The rows decoded in order; one that does not decode is an error.
  unfoldable pub decode_rows : List (StorageKey × Bytes) → Result (List (StorageKey × Snapshot))
  decode_rows [] = ok []
  decode_rows ((key, bytes) ∷ rows) = do
    snap ← decode bytes
    snaps ← decode_rows rows
    ok ((key, snap) ∷ snaps)

module _ ⦃st : Storage⦄ where
  -- Each deletion is a transaction of its own.
  unfoldable pub prune_from :
      RetentionPolicy → ℕ → ℕ → List (StorageKey × Snapshot) → st.Contents → ℕ × st.Contents
  prune_from policy now idx [] c = (0, c)
  prune_from policy now idx ((key, snap) ∷ snaps) c =
      let rest_kept = prune_from policy now (idx + 1) snaps c in
      let rest_gone = prune_from policy now (idx + 1) snaps (st.delete key c) in
      if kept policy now idx snap then rest_kept else (rest_gone.0 + 1, rest_gone.1)

module _ ⦃st : Storage⦄ ⦃codec : Codec Snapshot⦄ where
  unfoldable pub apply_prune : PrunePolicy → ℕ → st.Contents → Result (ℕ × st.Contents)
  unfolding decode_rows prune_from
  apply_prune policy now c = do
    snaps ← decode_rows (st.scan_bytes (snapshot_prefix policy.run_id) c)
    ok (prune_from policy.retention now 0 (sort_by newer_leb snaps) c)
