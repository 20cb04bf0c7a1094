-- ===== src/Examples/Archives.antt =====
-- A prune and a listing of three snapshots, and a train state that is saved.
use mathlib.Core.List.{Permᴰ}
use rollout.Snapshots.Archive.Stable.{Dir, entry_at, build_deterministic_tar-Perm}
use rollout.Prelude.{
  map, false, keep, ℕ, zero, suc, ◌≡◌, refl, true, List, [], ◌∷◌, ◌++◌, Option, some, none, take,
  drop, take-length-append, drop-length-append, codes,
}
use rollout.Prelude.Sort.{sort_by, insert_by, IsSortedBy}
use rollout.Core.Ids.{Bytes}
use rollout.Core.Errors.{ok}
use rollout.Core.Keys.{StorageKey}
use rollout.Store.{Codec, decode, encode}
use rollout.Snapshots.Archive.{Tar, DirEntry, append_entries, build_deterministic_tar}
use rollout.Snapshots.TrainState.{
  ObjectStore, SnapshotRequest, snapshot_key, tar_snapshot, persist, save_tar, save_train_state,
}
use rollout.Snapshots.TrainState.RoundTrip.{Saved, save_train_state-Saved}
use rollout.Store.Assoc.{assoc_storage, delete_row, scan_rows}
use rollout.Coordinator.Drain.{SnapshotKind, train_state, buffer, process, episodic_memory}
use rollout.Snapshots.{
  Snapshot, SnapshotPart, PrunePolicy, snapshot_prefix, newer_leb, decode_rows, prune_from,
  apply_prune,
}
use rollout.Snapshots.Snapshotter.{SnapshotFilter, filter_prefix, list, decode_values}
use rollout.Snapshots.Listing.{Listed, list-Listed}
use rollout.Snapshots.Retention.{Unlisted, Verdicts, count_gone, apply_prune-Verdicts}
use rollout.Examples.Data.{reads, framed, plain_hash}

abbrev Rows : Type 0
Rows = List (StorageKey × Bytes)

abbrev kind_code : SnapshotKind → ℕ
kind_code train_state = 0
kind_code buffer = 1
kind_code process = 2
kind_code episodic_memory = 3

abbrev kind_of_code : ℕ → SnapshotKind
kind_of_code zero = train_state
kind_of_code (suc zero) = buffer
kind_of_code (suc (suc zero)) = process
kind_of_code _ = episodic_memory

kind_round_trip : (kind : SnapshotKind) → kind_of_code (kind_code kind) ≡ kind
kind_round_trip train_state = refl
kind_round_trip buffer = refl
kind_round_trip process = refl
kind_round_trip episodic_memory = refl

-- A snapshot with no parts, or with one and no label.
abbrev snapshot_bytes : Snapshot → Option Bytes → List SnapshotPart → Option Bytes
snapshot_bytes s none [] = some (kind_code s.kind ∷ s.run_id ∷ s.created_at ∷ 0 ∷ s.id)
snapshot_bytes s (some l) [] = some (kind_code s.kind ∷ s.run_id ∷ s.created_at ∷ 1 ∷ framed l s.id)
snapshot_bytes s none (p ∷ []) = some (
    kind_code s.kind ∷ s.run_id ∷ s.created_at ∷ 2 ∷ p.size ∷ framed p.role (framed p.content s.id))
snapshot_bytes s _ _ = none

abbrev with_part : ℕ → ℕ → ℕ → ℕ → Bytes → Bytes → Option Snapshot
with_part k r t size role (n ∷ rest) = some (record {
  id = drop n rest;
  kind = kind_of_code k;
  run_id = r;
  created_at = t;
  label = none;
  parts = record { role = role; content = take n rest; size = size } ∷ [];
})
with_part k r t size role [] = none

abbrev snapshot_of_bytes : Bytes → Option Snapshot
snapshot_of_bytes (k ∷ r ∷ t ∷ zero ∷ id) = some (record {
  id = id;
  kind = kind_of_code k;
  run_id = r;
  created_at = t;
  label = none;
  parts = [];
})
snapshot_of_bytes (k ∷ r ∷ t ∷ suc zero ∷ n ∷ rest) = some (record {
  id = drop n rest;
  kind = kind_of_code k;
  run_id = r;
  created_at = t;
  label = some (take n rest);
  parts = [];
})
snapshot_of_bytes (k ∷ r ∷ t ∷ suc (suc zero) ∷ size ∷ n ∷ rest) =
    with_part k r t size (take n rest) (drop n rest)
snapshot_of_bytes _ = none

snapshot_round_trip :
    (s : Snapshot) (label : Option Bytes) (parts : List SnapshotPart) (b : Bytes)
    → s.label ≡ label
    → s.parts ≡ parts
    → snapshot_bytes s label parts ≡ some b
    → snapshot_of_bytes b ≡ some s
snapshot_round_trip s none [] b e f h =
    reads snapshot_of_bytes s (rw (kind_round_trip s.kind, ← e, ← f) refl) h
snapshot_round_trip s (some l) [] b e f h =
    reads snapshot_of_bytes s
      (rw (kind_round_trip s.kind, take-length-append l s.id, drop-length-append l s.id, ← e, ← f)
        refl)
      h
snapshot_round_trip s none (p ∷ []) b e f h =
    let rest = framed p.content s.id in
    reads snapshot_of_bytes s
      (rw
        (
          take-length-append p.role rest,
          drop-length-append p.role rest,
          take-length-append p.content s.id,
          drop-length-append p.content s.id,
          kind_round_trip s.kind,
          ← e,
          ← f,
        )
        refl)
      h
snapshot_round_trip s (some l) (p ∷ parts) b e f h = absurd (cc (h))
snapshot_round_trip s none (p ∷ q ∷ parts) b e f h = absurd (cc (h))

instance abbrev snapshot_codec : Codec Snapshot
snapshot_codec = record {
  to_stdvec = λ s. snapshot_bytes s s.label s.parts;
  from_bytes = snapshot_of_bytes;
  round_trip = λ s b h. snapshot_round_trip s s.label s.parts b refl refl h;
}

abbrev snapshot_row : ℕ → Bytes → StorageKey × Bytes
snapshot_row n bytes =
    (record { namespace = codes "snapshots"; run_id = some 1; path = (n ∷ []) ∷ [] }, bytes)

-- Three snapshots, the oldest one with a label.
abbrev taken : Rows
taken =
    snapshot_row 5 (0 ∷ 1 ∷ 100 ∷ 1 ∷ 1 ∷ 65 ∷ 5 ∷ [])
    ∷ snapshot_row 6 (0 ∷ 1 ∷ 300 ∷ 0 ∷ 6 ∷ [])
    ∷ snapshot_row 7 (1 ∷ 1 ∷ 200 ∷ 0 ∷ 7 ∷ [])
    ∷ []

abbrev pruned : Rows
pruned =
    snapshot_row 5 (0 ∷ 1 ∷ 100 ∷ 1 ∷ 1 ∷ 65 ∷ 5 ∷ [])
    ∷ snapshot_row 6 (0 ∷ 1 ∷ 300 ∷ 0 ∷ 6 ∷ [])
    ∷ []

abbrev last_and_labeled : PrunePolicy
last_and_labeled = record {
  run_id = 1;
  retention = record { keep_last = 1; keep_labeled = true; max_age = none };
}

apply_prune-Verdicts_example :
    (snaps : List (StorageKey × Snapshot)) × (decode_rows
        (assoc_storage.scan_bytes (snapshot_prefix 1) taken)
      ≡ ok snaps)
    × IsSortedBy newer_leb (sort_by newer_leb snaps)
    × Verdicts last_and_labeled.retention 400 0 (sort_by newer_leb snaps) taken pruned
    × (1 ≡ count_gone last_and_labeled.retention 400 0 (sort_by newer_leb snaps))
    × ((j : StorageKey)
        → Unlisted j (sort_by newer_leb snaps)
        → assoc_storage.get_bytes j pruned ≡ assoc_storage.get_bytes j taken)
unfolding apply_prune decode_rows prune_from scan_rows delete_row sort_by insert_by decode
apply_prune-Verdicts_example = apply_prune-Verdicts last_and_labeled 400 taken 1 pruned refl

-- Two snapshots of the run at most, of any kind and label.
abbrev two_of_run : SnapshotFilter
two_of_run = record { run_id = some 1; kind = none; label_contains = none; limit = some 2 }

list-Listed_example : Listed two_of_run (assoc_storage.scan_bytes (filter_prefix (some 1)) taken) (
    record {
      id = 6 ∷ [];
      kind = train_state;
      run_id = 1;
      created_at = 300;
      label = none;
      parts = [];
    }
    ∷ record { id = 7 ∷ []; kind = buffer; run_id = 1; created_at = 200; label = none; parts = [] }
    ∷ [])
unfolding list decode_values scan_rows delete_row sort_by insert_by keep decode
list-Listed_example = list-Listed two_of_run taken _ refl

-- A crate that writes each content with its length, and unpacks an archive as it is.
instance abbrev plain_tar : Tar
plain_tar = record {
  Dirs = List Bytes;
  append_data = λ header path contents buf. some (buf ++ framed contents []);
  finish = λ buf. some buf;
  create_dir_all = λ dirs. (true, dirs);
  unpack = λ bytes dirs. (true, bytes ∷ dirs);
}

-- A store of one object, under its hash.
instance abbrev one_object : ObjectStore
one_object = record {
  Objects = Bytes;
  put_bytes = λ bytes held. (ok bytes, bytes);
  get_bytes = λ id held. ok held;
}

-- Listed out of order, the directory first.
abbrev state_dir : List DirEntry
state_dir =
    record { path = codes "b" ∷ []; metadata = some (false, 1); contents = some (9 ∷ []) }
    ∷ record { path = codes "a" ∷ []; metadata = some (true, 0); contents = none }
    ∷ []

abbrev request : SnapshotRequest
request = record { run_id = 1; kind = train_state; label = none }

abbrev saved : Snapshot
saved = tar_snapshot request 500 (0 ∷ 1 ∷ 9 ∷ []) 3

abbrev saved_rows : Rows
saved_rows =
    assoc_storage.put_bytes (snapshot_key 1 saved.id)
      (0 ∷ 1 ∷ 500 ∷ 2 ∷ 3 ∷ framed (codes "tar") (framed saved.id saved.id)) []

save_train_state-Saved_example : Saved request 500 state_dir [] saved_rows [] (0 ∷ 1 ∷ 9 ∷ []) saved
unfolding save_train_state save_tar persist build_deterministic_tar append_entries sort_by insert_by
    encode
save_train_state-Saved_example =
    save_train_state-Saved request 500 state_dir [] saved_rows [] (0 ∷ 1 ∷ 9 ∷ []) saved refl

abbrev two_files : Dir
two_files = record { metadata = λ path. some (false, 1); contents = λ path. some (9 ∷ []) }

build_deterministic_tar-Perm_example :
    build_deterministic_tar (map (entry_at two_files) ((codes "b" ∷ []) ∷ (codes "a" ∷ []) ∷ []))
    ≡ build_deterministic_tar (map (entry_at two_files) ((codes "a" ∷ []) ∷ (codes "b" ∷ []) ∷ []))
build_deterministic_tar-Perm_example =
    build_deterministic_tar-Perm two_files ((codes "b" ∷ []) ∷ (codes "a" ∷ []) ∷ [])
      ((codes "a" ∷ []) ∷ (codes "b" ∷ []) ∷ []) (Permᴰ.swap refl refl)
