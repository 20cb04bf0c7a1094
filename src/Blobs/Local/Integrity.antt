-- ===== src/Blobs/Local/Integrity.antt =====
-- The store addresses by content: what is under an id has that hash, after any puts and failures.
use rollout.Prelude.{ℕ, ◌≡◌, refl, true, List, [], ◌∷◌, Option, none, some, subst}
use rollout.Core.Ids.{Bytes, ContentId}
use rollout.Core.Errors.{Result, ok}
use rollout.Core.Externals.{Blake3, UlidText}
use rollout.Blobs.{Stream}
use rollout.Blobs.Local.{
  FilePath, Files, PutIo, StreamIo, path_for, put_bytes, put_stream, get_bytes, get_stream, exists,
}
use rollout.Blobs.Local.Sound.{Sound, Stored}
use rollout.Blobs.Local.Puts.{put_bytes-Stored, put_stream-EndsStored}

-- A put, with the answers of the file system while it runs.
pub data Put : Type 0 where
  whole : PutIo → Bytes → Put
  streamed : StreamIo → ℕ → Stream → Put

abbrev pub content : Put → Bytes
content (whole io bytes) = bytes
content (streamed io ulid s) = s.content

module _ ⦃blake3 : Blake3⦄ ⦃ulids : UlidText⦄ (root : FilePath) where
  abbrev pub run : Put → Files → Option (Result ContentId × Files)
  run (whole io bytes) files = some (put_bytes io root bytes files)
  run (streamed io ulid s) files = put_stream io root ulid s files

  run-Stored :
      (put : Put) (files : Files)
      → Sound root files
      → (r : Result ContentId × Files) × (run put files ≡ some r)
        × Stored root (blake3.content_of (content put)) r
  run-Stored (whole io bytes) files h =
      (put_bytes io root bytes files, refl, put_bytes-Stored root io bytes files h)
  run-Stored (streamed io ulid s) files h = put_stream-EndsStored root io ulid s files h

  abbrev pub then_puts : (Files → Option Files) → Option (Result ContentId × Files) → Option Files
  then_puts next none = none
  then_puts next (some (r, files)) = next files

  -- A put that fails does not stop those after it.
  abbrev pub run_puts : List Put → Files → Option Files
  run_puts [] files = some files
  run_puts (put ∷ puts) files = then_puts (run_puts puts) (run put files)

  -- Any sequence of puts ends, wherever the file system fails or breaks off a write, and keeps the
  -- store sound: each blob has the content that its name is the hash of.
  pub run_puts-Sound :
      (puts : List Put) (files : Files)
      → Sound root files
      → (files' : Files) × (run_puts puts files ≡ some files') × Sound root files'
  unfolding Stored
  run_puts-Sound [] files h = (files, refl, h)
  run_puts-Sound (put ∷ puts) files h =
      let (r, e, stored) = run-Stored put files h in
      let (files', f, h') = run_puts-Sound puts r.1 stored.0 in (files', rw (e, then_puts) f, h')

  -- A put that succeeds on a sound store returns the hash of its content, and then the store has under
  -- that id a content of that hash, which both reads give.
  pub put-get :
      (put : Put) (files files' : Files) (id : ContentId)
      → Sound root files
      → run put files ≡ some (ok id, files')
      → (id ≡ blake3.content_of (content put))
        × (exists true root id files' ≡ ok true)
        × ((bytes : Bytes) × (get_bytes true root id files' ≡ ok bytes)
            × (get_stream true root id files' ≡ ok bytes)
            × (blake3.content_of bytes ≡ id))
  unfolding get_bytes get_stream exists Stored Sound
  put-get put files files' id h done =
      let (r, e, stored) = run-Stored put files h in
      let same : r ≡ (ok id, files') = cc in
      let (sound, has) : Stored root (blake3.content_of (content put)) (ok id, files') =
        subst (Stored root (blake3.content_of (content put))) same stored in
      let (named, blob) = has id refl in
      let (bytes, at) = blob in
      let there : files' (path_for root id) ≡ some bytes = rw (← named) at at in
      (named, rw there refl, (bytes, rw there refl, rw there refl, sound id bytes there))
