-- ===== src/Blobs/Local.antt =====
-- crates/rollout-cloud-local/src/object_store.rs: `FsObjectStore`. A path is the list of its segments,
-- the file system a map from paths to contents; which of its operations fail, and after how many
-- bytes a write does, is an argument. Directories are not followed.
pub mod Sound
pub mod Puts
pub mod Integrity
use rollout.Prelude.{
  ℕ, zero, suc, ◌*◌, Bool, true, false, List, [], ◌∷◌, ◌++◌, Option, none, some, if◌then◌else◌,
  length, take, drop, codes,
}
use rollout.Core.Ids.{Bytes, ContentId, content_str}
use rollout.Core.Keys.{path_eq}
use rollout.Core.Errors.{Result, ok, err, CoreError, fatal, internal, recoverable, transient, after}
use rollout.Core.Externals.{Blake3, UlidText}
use rollout.Blobs.{Stream, read}

abbrev pub FilePath : Type 0
FilePath = List Bytes

abbrev pub Files : Type 0
Files = FilePath → Option Bytes

abbrev pub set_file : FilePath → Option Bytes → Files → Files
set_file path v files = λ p. if path_eq path p then v else files p

-- `tokio::fs::rename`: the content under one path goes to the other; without the file, an error.
abbrev pub move : FilePath → FilePath → Option Bytes → Files → Option Files
move from to none files = none
move from to (some content) files = some (set_file to (some content) (set_file from none files))

abbrev pub rename : FilePath → FilePath → Files → Option Files
rename from to files = move from to (files from) files

-- How a write ends: whole, broken off after some bytes, or without the file.
pub data Write : Type 0 where
  written : Write
  broken : ℕ → Write
  not_opened : Write

abbrev pub write : FilePath → Bytes → Write → Files → Bool × Files
write path bytes written files = (true, set_file path (some bytes) files)
write path bytes (broken n) files = (false, set_file path (some (take n bytes)) files)
write path bytes not_opened files = (false, files)

-- The answers of the file system during a `put_bytes`, and the text of the metadata with its time.
pub record PutIo : Type 0 where
  pub creates_dir : Bool
  pub checks : Bool
  pub writes : Write
  pub renames : Bool
  pub meta : Option Bytes
  pub writes_meta : Write

-- The same for a `put_stream`: a broken write of a chunk keeps some of its bytes.
pub record StreamIo : Type 0 where
  pub creates_pending : Bool
  pub creates_file : Bool
  pub writes_chunk : ℕ → Option ℕ
  pub syncs : Bool
  pub creates_dir : Bool
  pub checks : Bool
  pub removes : Bool
  pub renames : Bool

abbrev pub internal_error : CoreError
internal_error = fatal (internal "")

abbrev pub fs_error : CoreError
fs_error = recoverable (transient "fs object_store io: " (after 50))

abbrev pub is_some : Option Bytes → Bool
is_some none = false
is_some (some b) = true

-- `root` is that of the store.
abbrev pub path_for : FilePath → ContentId → FilePath
path_for root id = let hex = content_str id in root ++ take 2 hex ∷ take 2 (drop 2 hex) ∷ hex ∷ []

abbrev pub tmp_path_for : FilePath → ContentId → FilePath
tmp_path_for root id =
    let hex = content_str id in
    root ++ take 2 hex ∷ take 2 (drop 2 hex) ∷ (hex ++ codes ".tmp") ∷ []

abbrev pub meta_path_for : FilePath → ContentId → FilePath
meta_path_for root id =
    let hex = content_str id in
    root ++ take 2 hex ∷ take 2 (drop 2 hex) ∷ (hex ++ codes ".meta.json") ∷ []

-- What follows a step that may fail.
abbrev pub step_to :
    {A : Type 0} → CoreError → Bool → (Files → Result A × Files) → Files → Result A × Files
step_to e done next files = if done then next files else (err e, files)

abbrev pub after_write :
    {A : Type 0} → CoreError → (Files → Result A × Files) → Bool × Files → Result A × Files
after_write e next (done, files) = step_to e done next files

abbrev pub after_rename :
    {A : Type 0} → CoreError → (Files → Result A × Files) → Option Files → Files → Result A × Files
after_rename e next none files = (err e, files)
after_rename e next (some files') files = next files'

abbrev pub renamed :
    {A : Type 0}
    → CoreError
    → Bool
    → FilePath
    → FilePath
    → (Files → Result A × Files)
    → Files
    → Result A × Files
renamed e done from to next files =
    if done then after_rename e next (rename from to files) files else (err e, files)

abbrev pub put_meta : PutIo → FilePath → ContentId → Option Bytes → Files → Result ContentId × Files
put_meta io root id none files = (err internal_error, files)
put_meta io root id (some meta) files =
    after_write internal_error (λ files'. (ok id, files'))
      (write (meta_path_for root id) meta io.writes_meta files)

-- The blob is written where there is none, through a sibling file.
abbrev pub put_blob :
    PutIo
    → FilePath
    → ContentId
    → Bytes
    → (Files → Result ContentId × Files)
    → Files
    → Result ContentId × Files
put_blob io root id bytes next files =
    after_write internal_error
      (λ files'.
        renamed internal_error io.renames (tmp_path_for root id) (path_for root id) next files')
      (write (tmp_path_for root id) bytes io.writes files)

-- Idempotent: an existing blob is kept.
abbrev pub put_absent : PutIo → FilePath → ContentId → Bytes → Files → Result ContentId × Files
put_absent io root id bytes files =
    if is_some (files (path_for root id))
    then put_meta io root id io.meta files
    else put_blob io root id bytes (put_meta io root id io.meta) files

abbrev pub put_checked : PutIo → FilePath → ContentId → Bytes → Files → Result ContentId × Files
put_checked io root id bytes = step_to internal_error io.checks (put_absent io root id bytes)

module _ ⦃blake3 : Blake3⦄ where
  unfoldable pub put_bytes : PutIo → FilePath → Bytes → Files → Result ContentId × Files
  put_bytes io root bytes files =
      step_to internal_error io.creates_dir (put_checked io root (blake3.content_of bytes) bytes)
        files

abbrev pub found : CoreError → Bool → Option Bytes → Result Bytes
found e false content = err e
found e true none = err (fatal (internal "object not found: "))
found e true (some bytes) = ok bytes

-- `reads` says whether the file system answers at all.
unfoldable pub get_bytes : Bool → FilePath → ContentId → Files → Result Bytes
get_bytes reads root id files = found internal_error reads (files (path_for root id))

-- The stream that is opened is the content of the file.
unfoldable pub get_stream : Bool → FilePath → ContentId → Files → Result Bytes
get_stream reads root id files = found fs_error reads (files (path_for root id))

unfoldable pub exists : Bool → FilePath → ContentId → Files → Result Bool
exists reads root id files =
    if reads then ok (is_some (files (path_for root id))) else err internal_error

-- The content of the pending file, which is what has been hashed, unless a write broke off.
abbrev pub Copied : Type 0
Copied = Result Bytes × Bytes

abbrev pub after_chunk : (Bytes → Option Copied) → Bytes → Bytes → Option ℕ → Option Copied
after_chunk next hashed got (some n) = some (err fs_error, hashed ++ take n got)
after_chunk next hashed got none = next (hashed ++ got)

abbrev pub copy_round : (Bytes → Option Copied) → Bytes → Bytes → Option ℕ → Option Copied
copy_round next hashed [] answer = some (ok hashed, hashed)
copy_round next hashed (b ∷ got) answer = after_chunk next hashed (b ∷ got) answer

-- The loop, on fuel; `i` counts the reads.
unfoldable pub copy_loop : StreamIo → Stream → ℕ → ℕ → Bytes → Bytes → Option Copied
copy_loop io s zero i left hashed = none
copy_loop io s (suc fuel) i left hashed =
    let got = read s i (64 * 1024) left in
    let round =
      copy_round (λ hashed'. copy_loop io s fuel (suc i) (drop (length got) left) hashed') hashed
        got (io.writes_chunk i) in
    if s.fails i then some (err fs_error, hashed) else round

abbrev pub temp_path_for_pending : ⦃ulids : UlidText⦄ → FilePath → ℕ → FilePath
temp_path_for_pending ⦃ulids⦄ root ulid = root ++ codes "pending" ∷ ulids.ulid_str ulid ∷ []

-- `remove_file(..).ok()`: a pending file that cannot be removed stays.
abbrev pub discard : StreamIo → FilePath → ContentId → Files → Result ContentId × Files
discard io temp id files = (ok id, if io.removes then set_file temp none files else files)

abbrev pub place_absent :
    StreamIo → FilePath → FilePath → ContentId → Files → Result ContentId × Files
place_absent io root temp id files =
    if is_some (files (path_for root id))
    then discard io temp id files
    else renamed fs_error io.renames temp (path_for root id) (λ files'. (ok id, files')) files

abbrev pub place_checked :
    StreamIo → FilePath → FilePath → ContentId → Files → Result ContentId × Files
place_checked io root temp id = step_to fs_error io.checks (place_absent io root temp id)

abbrev pub place : StreamIo → FilePath → FilePath → ContentId → Files → Result ContentId × Files
place io root temp id = step_to fs_error io.creates_dir (place_checked io root temp id)

module _ ⦃blake3 : Blake3⦄ where
  abbrev pub after_copy :
      StreamIo → FilePath → FilePath → Files → Option Copied → Option (Result ContentId × Files)
  after_copy io root temp files none = none
  after_copy io root temp files (some (err e, content)) =
      some (err e, set_file temp (some content) files)
  after_copy io root temp files (some (ok hashed, content)) = some (
      step_to fs_error io.syncs (place io root temp (blake3.content_of hashed))
        (set_file temp (some content) files))

  -- `ulid` names the pending file.
  unfoldable pub put_stream :
      ⦃ulids : UlidText⦄
      → StreamIo
      → FilePath
      → ℕ
      → Stream
      → Files
      → Option (Result ContentId × Files)
  unfolding copy_loop
  put_stream ⦃ulids⦄ io root ulid s files =
      let temp = temp_path_for_pending root ulid in
      if io.creates_pending
      then (if io.creates_file
          then after_copy io root temp files
              (copy_loop io s (suc (length s.content)) 0 s.content [])
          else some (err fs_error, files))
      else some (err fs_error, files)
