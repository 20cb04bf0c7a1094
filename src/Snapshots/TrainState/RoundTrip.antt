-- ===== src/Snapshots/TrainState/RoundTrip.antt =====
-- A train state that was saved is restored.
use rollout.Prelude.{
  ℕ, ◌≡◌, refl, List, some, bytes_eq, bytes_eq→eq, bytes_eq_refl, if-elim, subst, sym, ◌∙◌, length,
}
use rollout.Core.Ids.{Bytes, ContentId}
use rollout.Core.Errors.{Result, ok, err}
use rollout.Core.Keys.{key_eq_refl}
use rollout.Core.Externals.{Blake3}
use rollout.Store.{Storage, Codec, encode, decode, decode-encode}
use rollout.Snapshots.{Snapshot}
use rollout.Snapshots.Archive.{Tar, DirEntry, build_deterministic_tar, extract_tar}
use rollout.Snapshots.TrainState.{
  ObjectStore, SnapshotRequest, snapshot_key, tar_snapshot, persist_as, persist, save_tar,
  save_train_state, restore_train_state, extract_checked, mismatched, corrupted,
}

module _ ⦃st : Storage⦄ ⦃codec : Codec Snapshot⦄ ⦃blake3 : Blake3⦄ where
  -- The snapshot of an archive, with its row and no other change.
  pub record Persisted (request : SnapshotRequest) (now : ℕ) (bytes : Bytes)
      (answer : Result ContentId) (c c' : st.Contents) (snap : Snapshot) : Type 0 where
    pub value : Bytes
    pub answered : answer ≡ ok (blake3.content_of bytes)
    pub snap_so : snap ≡ tar_snapshot request now (blake3.content_of bytes) (length bytes)
    pub row_so : decode value ≡ ok snap
    pub found : st.get_bytes (snapshot_key snap.run_id snap.id) c' ≡ some value
    pub stored : c' ≡ st.put_bytes (snapshot_key snap.run_id snap.id) value c

  persist_as-Persisted :
      (snap snap' : Snapshot) (r : Result Bytes) (c c' : st.Contents)
      → encode snap ≡ r
      → persist_as snap r c ≡ (ok snap', c')
      → (value : Bytes) × (snap' ≡ snap)
        × (decode value ≡ ok snap)
        × (c' ≡ st.put_bytes (snapshot_key snap.run_id snap.id) value c)
  persist_as-Persisted snap snap' (err e) c c' f h = cc
  persist_as-Persisted snap snap' (ok value) c c' f h = (value, cc, decode-encode snap f, cc)

  persist-Persisted :
      (request : SnapshotRequest) (now : ℕ) (bytes : Bytes) (r : Result ContentId)
      (c c' : st.Contents) (snap : Snapshot)
      → persist request now bytes r c ≡ (ok snap, c')
      → Persisted request now bytes r c c' snap
  unfolding persist
  persist-Persisted request now bytes (err e) c c' snap h = cc
  persist-Persisted request now bytes (ok id) c c' snap h =
      let made = tar_snapshot request now id (length bytes) in
      if-elim (λ r. r ≡ (ok snap, c') → Persisted request now bytes (ok id) c c' snap)
        (bytes_eq id (blake3.content_of bytes)) (persist_as made (encode made) c)
        (err mismatched, c)
        (λ t e.
          let (value, e', d, s) = persist_as-Persisted made snap (encode made) c c' refl e in
          let key = snapshot_key made.run_id made.id in
          let same = bytes_eq→eq id (blake3.content_of bytes) t in
          record {
            value = value;
            answered = rw same refl;
            snap_so = rw (e', same) refl;
            row_so = rw e' d;
            found = rw (e', s, st.get-put key key value c, key_eq_refl key) refl;
            stored = rw e' s;
          })
        (λ f e. absurd (cc (e))) h

module _ ⦃blake3 : Blake3⦄ ⦃tar : Tar⦄ ⦃object : ObjectStore⦄ where
  -- What a restore does that succeeds: it unpacks bytes of the hash that the object store has.
  pub record Genuine (id : ContentId) (objects : object.Objects) (dirs dirs' : tar.Dirs)
      : Type 0 where
    pub bytes : Bytes
    pub read : object.get_bytes id objects ≡ ok bytes
    pub hashed : blake3.content_of bytes ≡ id
    pub unpacked : extract_tar bytes dirs ≡ (ok tt, dirs')

  extract_checked-Genuine :
      (id : ContentId) (r : Result Bytes) (objects : object.Objects) (dirs dirs' : tar.Dirs)
      → object.get_bytes id objects ≡ r
      → extract_checked id r dirs ≡ (ok tt, dirs')
      → Genuine id objects dirs dirs'
  extract_checked-Genuine id (err e) objects dirs dirs' g h = cc
  extract_checked-Genuine id (ok bytes) objects dirs dirs' g h =
      if-elim (λ r. r ≡ (ok tt, dirs') → Genuine id objects dirs dirs')
        (bytes_eq (blake3.content_of bytes) id) (extract_tar bytes dirs) (err corrupted, dirs)
        (λ t e. record {
          bytes = bytes;
          read = g;
          hashed = bytes_eq→eq (blake3.content_of bytes) id t;
          unpacked = e;
        })
        (λ f e. absurd (cc (e))) h

  restore-checked :
      (request : SnapshotRequest) (now size : ℕ) (id : ContentId) (snap : Snapshot)
      (objects : object.Objects) (dirs : tar.Dirs)
      → snap ≡ tar_snapshot request now id size
      → restore_train_state snap objects dirs
        ≡ extract_checked id (object.get_bytes id objects) dirs
  unfolding restore_train_state
  restore-checked request now size id snap objects dirs e = rw e refl

  extract_checked-extract :
      (bytes : Bytes) (r : Result Bytes) (dirs : tar.Dirs)
      → r ≡ ok bytes
      → extract_checked (blake3.content_of bytes) r dirs ≡ extract_tar bytes dirs
  extract_checked-extract bytes r dirs e = rw (e, bytes_eq_refl (blake3.content_of bytes)) refl

module _ ⦃st : Storage⦄ ⦃codec : Codec Snapshot⦄ ⦃blake3 : Blake3⦄ ⦃tar : Tar⦄
    ⦃object : ObjectStore⦄ where
  pub record Saved (request : SnapshotRequest) (now : ℕ) (entries : List DirEntry)
      (c c' : st.Contents) (objects objects' : object.Objects) (snap : Snapshot) : Type 0 where
    pub bytes : Bytes
    pub built : build_deterministic_tar entries ≡ ok bytes
    pub put : (object.put_bytes bytes objects).1 ≡ objects'
    pub row : Persisted request now bytes (object.put_bytes bytes objects).0 c c' snap
    pub restores :
        (later : object.Objects) (dirs : tar.Dirs)
        → object.get_bytes snap.id later ≡ ok bytes
        → restore_train_state snap later dirs ≡ extract_tar bytes dirs
    pub genuine :
        (later : object.Objects) (dirs dirs' : tar.Dirs)
        → restore_train_state snap later dirs ≡ (ok tt, dirs')
        → Genuine snap.id later dirs dirs'

  save_tar-Saved :
      (request : SnapshotRequest) (now : ℕ) (entries : List DirEntry) (r : Result Bytes)
      (c c' : st.Contents) (objects objects' : object.Objects) (snap : Snapshot)
      → build_deterministic_tar entries ≡ r
      → save_tar request now r c objects ≡ (ok snap, c', objects')
      → Saved request now entries c c' objects objects' snap
  unfolding save_tar restore_train_state
  save_tar-Saved request now entries (err e) c c' objects objects' snap b h = cc
  save_tar-Saved request now entries (ok bytes) c c' objects objects' snap b h =
      let put = object.put_bytes bytes objects in
      let row = persist-Persisted request now bytes put.0 c c' snap (cc (h)) in
      let id = blake3.content_of bytes in
      let checked = λ (later : object.Objects) (dirs : tar.Dirs).
        restore-checked request now (length bytes) id snap later dirs row.snap_so in
      let same : snap.id ≡ id = rw row.snap_so refl in
      record {
        bytes = bytes;
        built = b;
        put = cc (h);
        row = row;
        restores = λ later dirs g.
            let g' : object.get_bytes id later ≡ ok bytes =
              subst (λ i. object.get_bytes i later ≡ ok bytes) same g in
            checked later dirs ∙ extract_checked-extract bytes _ dirs g';
        genuine = λ later dirs dirs' g.
            subst (λ i. Genuine i later dirs dirs') (sym same)
              (extract_checked-Genuine id (object.get_bytes id later) later dirs dirs' refl
                (sym (checked later dirs) ∙ g));
      }

  -- A save of a train state that returns has put the archive of the directory into the object store,
  -- which named it by its hash, and has written the row of the snapshot and no other, from which the
  -- snapshot is read back. While the object store gives the archive under that id, a restore unpacks
  -- it; and a restore that succeeds has unpacked bytes of that hash, whatever the object store gave.
  pub save_train_state-Saved :
      (request : SnapshotRequest) (now : ℕ) (entries : List DirEntry) (c c' : st.Contents)
      (objects objects' : object.Objects) (snap : Snapshot)
      → save_train_state request now entries c objects ≡ (ok snap, c', objects')
      → Saved request now entries c c' objects objects' snap
  unfolding save_train_state
  save_train_state-Saved request now entries c c' objects objects' snap h =
      save_tar-Saved request now entries (build_deterministic_tar entries) c c' objects objects'
        snap refl h
