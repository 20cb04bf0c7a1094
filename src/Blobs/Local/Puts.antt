-- ===== src/Blobs/Local/Puts.antt =====
-- What a put leaves in the store, on every branch.
use rollout.Prelude.{
  if-elim, ℕ, zero, suc, ◌*◌, ◌-◌, ◌≡◌, ◌<◌, refl, ap, ◌∙◌, subst, true, [], ◌∷◌, ◌++◌, Option,
  none, some, if◌then◌else◌, arith, min, length, take, drop, codes, take-nil, take-drop,
  length-drop-le, Bool-cases, inl, inr,
}
use mathlib.Core.List.{append-nil, append_assoc}
use rollout.Core.Ids.{Bytes, ContentId, content_str}
use rollout.Core.Errors.{Result, ok, err, CoreError}
use rollout.Core.Externals.{Blake3, UlidText}
use rollout.Blobs.{Stream}
use rollout.Blobs.Local.{
  FilePath, Files, set_file, Write, written, broken, not_opened, write, PutIo, StreamIo,
  internal_error, fs_error, is_some, path_for, tmp_path_for, meta_path_for, after_write, renamed,
  put_meta, put_blob, put_bytes, put_checked, put_absent, place_checked, place_absent, Copied,
  copy_round, temp_path_for_pending, discard, place, after_copy, copy_loop, put_stream,
}
use rollout.Blobs.Local.Sound.{
  NotBlob, sibling-NotBlob, pending-NotBlob, set_file_self, Sound, set_other-Sound, Has, Stored,
  step_to-Stored, write-Sound, write-Has, renamed-Stored,
}

some_Has : (o : Option Bytes) → is_some o ≡ true → (b : Bytes) × (o ≡ some b)
some_Has none h = absurd (cc)
some_Has (some b) h = (b, refl)

module _ ⦃blake3 : Blake3⦄ (root : FilePath) where
  put_meta-Stored :
      (io : PutIo) (id : ContentId) (meta : Option Bytes) (files : Files)
      → Sound root files
      → Has root id files
      → Stored root id (put_meta io root id meta files)
  unfolding Stored
  put_meta-Stored io id none files h has = (h, λ returned same. absurd (cc))
  put_meta-Stored io id (some meta) files h has =
      step_to-Stored root id internal_error
        (write (meta_path_for root id) meta io.writes_meta files).0 (λ files'. (ok id, files'))
        (write (meta_path_for root id) meta io.writes_meta files).1
        (write-Sound root (meta_path_for root id) meta io.writes_meta files beside h)
        (λ done. (
          write-Sound root (meta_path_for root id) meta io.writes_meta files beside h,
          λ returned same. (
            cc (same),
            write-Has root id (meta_path_for root id) meta io.writes_meta files beside has,
          ),
        ))
    where
      beside : NotBlob root (meta_path_for root id)
      beside =
          sibling-NotBlob root id (take 2 (content_str id)) (take 2 (drop 2 (content_str id)))
            (codes "meta.json")

  -- The sibling file is written whole, or the put ends.
  written-Stored :
      (id : ContentId) (p : FilePath) (bytes : Bytes) (w : Write)
      (next : Files → Result ContentId × Files) (files : Files)
      → NotBlob root p
      → Sound root files
      → Stored root id (next (set_file p (some bytes) files))
      → Stored root id (after_write internal_error next (write p bytes w files))
  unfolding Stored
  written-Stored id p bytes written next files other h k = k
  written-Stored id p bytes (broken n) next files other h k =
      (set_other-Sound root p (some (take n bytes)) files other h, λ returned same. absurd (cc))
  written-Stored id p bytes not_opened next files other h k = (h, λ returned same. absurd (cc))

  pub put_bytes-Stored :
      (io : PutIo) (bytes : Bytes) (files : Files)
      → Sound root files
      → Stored root (blake3.content_of bytes) (put_bytes io root bytes files)
  unfolding put_bytes
  put_bytes-Stored io bytes files h =
      step_to-Stored root id internal_error io.creates_dir (put_checked io root id bytes) files h
        (λ made.
          step_to-Stored root id internal_error io.checks (put_absent io root id bytes) files h
            (λ checked.
              if-elim (Stored root id) (is_some (files (path_for root id)))
                (put_meta io root id io.meta files)
                (put_blob io root id bytes (put_meta io root id io.meta) files)
                (λ there.
                  put_meta-Stored io id io.meta files h (some_Has (files (path_for root id)) there))
                (λ absent.
                  written-Stored id tmp bytes io.writes
                    (renamed internal_error io.renames tmp (path_for root id)
                      (put_meta io root id io.meta))
                    files beside h
                    (renamed-Stored root id internal_error io.renames tmp bytes
                      (put_meta io root id io.meta) (set_file tmp (some bytes) files) beside
                      (set_file_self tmp (some bytes) files) refl
                      (set_other-Sound root tmp (some bytes) files beside h)
                      (λ files' h' has. put_meta-Stored io id io.meta files' h' has)))))
    where
      id : ContentId
      id = blake3.content_of bytes

      tmp : FilePath
      tmp = tmp_path_for root id

      beside : NotBlob root tmp
      beside =
          sibling-NotBlob root id (take 2 (content_str id)) (take 2 (drop 2 (content_str id)))
            (codes "tmp")

-- What the copy of a stream has written: all of it, where it succeeds.
abbrev Copies : Bytes → Copied → Type 0
Copies content c = (hashed : Bytes) → c.0 ≡ ok hashed → (hashed ≡ c.1) × (hashed ≡ content)

Finishes : Bytes → Option Copied → Type 0
Finishes content o = (c : Copied) × (o ≡ some c) × Copies content c

stops : (content bytes : Bytes) (e : CoreError) → Finishes content (some (err e, bytes))
unfolding Finishes
stops content bytes e = (_, refl, λ hashed same. absurd (cc))

whole : (hashed : Bytes) → Finishes hashed (some (ok hashed, hashed))
unfolding Finishes
whole hashed = (_, refl, λ h same. (cc (same), cc (same)))

chunk :
    (content hashed got : Bytes) (b : ℕ) (next : Bytes → Option Copied) (answer : Option ℕ)
    → Finishes content (next (hashed ++ b ∷ got))
    → Finishes content (copy_round next hashed (b ∷ got) answer)
chunk content hashed got b next (some n) h = stops content (hashed ++ take n (b ∷ got)) fs_error
chunk content hashed got b next none h = h

copy_loop-Finishes :
    (io : StreamIo) (s : Stream) (fuel i : ℕ) (left hashed : Bytes)
    → length left < fuel
    → Finishes (hashed ++ left) (copy_loop io s fuel i left hashed)
unfolding copy_loop
copy_loop-Finishes io s zero i left hashed enough = absurd (omega (arith, enough))
copy_loop-Finishes io s (suc fuel) i [] hashed enough = elim (Bool-cases (s.fails i)) [
  | inl bad ↦ rw bad (stops (hashed ++ []) hashed fs_error)
  | inr good ↦ rw (good, take-nil (min (64 * 1024) (suc (s.ready i))), append-nil) (whole hashed)
]
copy_loop-Finishes io s (suc fuel) i (b ∷ bs) hashed enough = elim (Bool-cases (s.fails i)) [
  | inl bad ↦ rw bad (stops (hashed ++ b ∷ bs) hashed fs_error)
  | inr good ↦
      let k = min (64 * 1024) (suc (s.ready i)) - 1 in
      let e : min (64 * 1024) (suc (s.ready i)) ≡ suc k = omega arith in
      let got = take k bs in
      let left = drop (length got) bs in
      rw (good, e)
        (chunk (hashed ++ b ∷ bs) hashed got b (λ hashed'. copy_loop io s fuel (suc i) left hashed')
          (io.writes_chunk i)
          (subst (λ l. Finishes l (copy_loop io s fuel (suc i) left (hashed ++ b ∷ got)))
            (append_assoc hashed (b ∷ got) left ∙ ap (λ l. hashed ++ b ∷ l) (take-drop k bs))
            (copy_loop-Finishes io s fuel (suc i) left (hashed ++ b ∷ got)
              (omega (arith, length-drop-le (length got) bs, enough)))))
]

module _ ⦃blake3 : Blake3⦄ (root : FilePath) where
  place-Stored :
      (io : StreamIo) (temp : FilePath) (content : Bytes) (files : Files)
      → NotBlob root temp
      → files temp ≡ some content
      → Sound root files
      → Stored root
          (blake3.content_of content)
          (place io root temp (blake3.content_of content) files)
  unfolding Stored
  place-Stored io temp content files other at h =
      step_to-Stored root id fs_error io.creates_dir (place_checked io root temp id) files h
        (λ made.
          step_to-Stored root id fs_error io.checks (place_absent io root temp id) files h
            (λ checked.
              if-elim (Stored root id) (is_some (files (path_for root id)))
                (discard io temp id files)
                (renamed fs_error io.renames temp (path_for root id) (λ files'. (ok id, files'))
                  files)
                (λ there. dropped (some_Has (files (path_for root id)) there))
                (λ absent.
                  renamed-Stored root id fs_error io.renames temp content
                    (λ files'. (ok id, files')) files other at refl h
                    (λ files' h' has. here files' h' has))))
    where
      id : ContentId
      id = blake3.content_of content

      here :
          (files' : Files) → Sound root files' → Has root id files' → Stored root id (ok id, files')
      here files' h' has = (h', λ returned same. (cc (same), has))

      dropped : Has root id files → Stored root id (discard io temp id files)
      dropped (b, e) =
          here (if io.removes then set_file temp none files else files)
            (if-elim (Sound root) io.removes _ _ (λ r. set_other-Sound root temp none files other h)
              (λ r. h))
            (if-elim (Has root id) io.removes (set_file temp none files) files
              (λ r. (b, rw (other id) e)) (λ r. (b, e)))

  -- A put of a stream ends.
  abbrev EndsStored : ContentId → Option (Result ContentId × Files) → Type 0
  EndsStored id o = (r : Result ContentId × Files) × (o ≡ some r) × Stored root id r

  ends_early :
      (id : ContentId) (e : CoreError) (files : Files)
      → Sound root files
      → EndsStored id (some (err e, files))
  unfolding Stored
  ends_early id e files h = (_, refl, (h, λ returned same. absurd (cc)))

  after_copy-EndsStored :
      (io : StreamIo) (temp : FilePath) (content : Bytes) (files : Files) (c : Copied)
      → NotBlob root temp
      → Copies content c
      → Sound root files
      → EndsStored (blake3.content_of content) (after_copy io root temp files (some c))
  after_copy-EndsStored io temp content files (err e, bytes) other copied h =
      ends_early (blake3.content_of content) e (set_file temp (some bytes) files)
        (set_other-Sound root temp (some bytes) files other h)
  after_copy-EndsStored io temp content files (ok hashed, bytes) other copied h =
      let (same, all) = copied hashed refl in
      rw (← same, all)
        (
          _,
          refl,
          step_to-Stored root (blake3.content_of content) fs_error io.syncs
              (place io root temp (blake3.content_of content)) (set_file temp (some content) files)
              (set_other-Sound root temp (some content) files other h)
              (λ synced.
                place-Stored io temp content (set_file temp (some content) files) other
                  (set_file_self temp (some content) files)
                  (set_other-Sound root temp (some content) files other h)),
        )

  pub put_stream-EndsStored :
      ⦃ulids : UlidText⦄ (io : StreamIo) (ulid : ℕ) (s : Stream) (files : Files)
      → Sound root files
      → EndsStored (blake3.content_of s.content) (put_stream io root ulid s files)
  unfolding put_stream Finishes
  put_stream-EndsStored io ulid s files h =
      let id = blake3.content_of s.content in
      let (c, e, copied) =
        copy_loop-Finishes io s (suc (length s.content)) 0 s.content [] (omega arith) in
      if-elim (EndsStored id) io.creates_pending _ _
        (λ made.
          if-elim (EndsStored id) io.creates_file _ _
            (λ created. rw e (
              after_copy-EndsStored io (temp_path_for_pending root ulid) s.content files c
                (pending-NotBlob root ulid) copied h))
            (λ failed. ends_early id fs_error files h))
        (λ failed. ends_early id fs_error files h)
