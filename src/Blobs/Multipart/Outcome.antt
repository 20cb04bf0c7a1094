-- ===== src/Blobs/Multipart/Outcome.antt =====
-- What an upload of a stream returns and which requests it has made.
use mathlib.Core.Path.{◌∙◌}
use rollout.Prelude.{
  ℕ, suc, ◌≤◌, ◌<◌, ◌≡◌, refl, Bool, true, false, List, [], ◌∷◌, ◌++◌, Option, none, some, arith,
  if◌then◌else◌, length, take, Bool-cases, inl, inr,
}
use rollout.Core.Ids.{Bytes, ContentId}
use rollout.Core.Errors.{Result, ok, err, CoreError, fatal, internal}
use rollout.Core.Externals.{Blake3, UlidText}
use rollout.Blobs.{Stream, mib, sharded_key}
use rollout.Blobs.Chunks.{chunks, concat, concat-chunks, IsFull, chunks-IsFull}
use rollout.Blobs.Multipart.{
  S3, Upload, Request, create_multipart_upload, complete_multipart_upload, copy_object,
  delete_object, upload_loop, drop_guard, temp_key, deleted, copied, completed, with_guard, created,
  chunk_bytes, put_stream_impl,
}
use rollout.Blobs.Multipart.Parts.{
  numbered, numbers, at_least_one, Failed, Ends, sent_all, failed, upload_loop-Ends,
}

if_true : {A : Type 0} {b : Bool} (x y : A) → b ≡ true → (if b then x else y) ≡ x
if_true x y h = rw h refl

if_false : {A : Type 0} {b : Bool} (x y : A) → b ≡ false → (if b then x else y) ≡ y
if_false x y h = rw h refl

-- The parts of a content: its chunks, and one empty part where it is empty.
abbrev pub parts_of : ℕ → Bytes → List Bytes
parts_of size content = at_least_one 1 (chunks size [] content)

concat-parts : (cs : List Bytes) → concat (at_least_one 1 cs) ≡ concat cs
concat-parts [] = refl
concat-parts (c ∷ cs) = refl

IsFull-parts : (size : ℕ) (cs : List Bytes) → IsFull size cs → IsFull size (at_least_one 1 cs)
IsFull-parts size [] h = omega arith
IsFull-parts size (c ∷ cs) h = h

module _ ⦃blake3 : Blake3⦄ ⦃ulids : UlidText⦄ (s3 : S3) (prefix : Bytes) (temp : Bytes)
    (parts : List Bytes) (s : Stream) where
  -- The requests up to the last part.
  abbrev sent_parts : List Request
  sent_parts = create_multipart_upload temp ∷ numbered 1 parts

  abbrev sent_complete : List Request
  sent_complete = sent_parts ++ complete_multipart_upload (numbers 1 parts) ∷ []

  abbrev final_key : Bytes
  final_key = sharded_key prefix (blake3.content_of s.content)

  abbrev sent_copy : List Request
  sent_copy = sent_complete ++ copy_object temp final_key ∷ []

  -- How an upload ends, by its result and its requests.
  pub data Uploaded : Result ContentId → List Request → Type 0 where
    stored : Uploaded (ok (blake3.content_of s.content)) (sent_copy ++ delete_object temp ∷ [])
    not_created :
        (e : CoreError)
        → s3.on_create ≡ some e
        → Uploaded (err e) (create_multipart_upload temp ∷ [])
    no_upload_id :
        s3.upload_id ≡ false
        → Uploaded
            (err (fatal (internal "CreateMultipartUpload missing upload_id")))
            (create_multipart_upload temp ∷ [])
    given_up :
        (e : CoreError) (done : ℕ)
        → Failed s3 s e
        → Uploaded
            (err e)
            (drop_guard s3 (create_multipart_upload temp ∷ take done (numbered 1 parts)))
    not_completed :
        (e : CoreError) → s3.on_complete ≡ some e → Uploaded (err e) (drop_guard s3 sent_complete)
    not_copied : (e : CoreError) → s3.on_copy ≡ some e → Uploaded (err e) sent_copy
    not_deleted :
        (e : CoreError)
        → s3.on_delete ≡ some e
        → Uploaded (err e) (sent_copy ++ delete_object temp ∷ [])

  abbrev Ended : Result ContentId × List Request → Type 0
  Ended (r, sent) = Uploaded r sent

  deleted-Uploaded :
      (answer : Option CoreError)
      → s3.on_delete ≡ answer
      → Ended (deleted (blake3.content_of s.content) (sent_copy ++ delete_object temp ∷ []) answer)
  deleted-Uploaded none q = stored
  deleted-Uploaded (some e) q = not_deleted e q

  copied-Uploaded :
      (answer : Option CoreError)
      → s3.on_copy ≡ answer
      → Ended (copied s3 temp (blake3.content_of s.content) sent_copy answer)
  copied-Uploaded none q = deleted-Uploaded s3.on_delete refl
  copied-Uploaded (some e) q = not_copied e q

  completed-Uploaded :
      (answer : Option CoreError)
      → s3.on_complete ≡ answer
      → Ended (completed s3 prefix temp (blake3.content_of s.content) sent_complete answer)
  completed-Uploaded none q = copied-Uploaded s3.on_copy refl
  completed-Uploaded (some e) q = not_completed e q

  abbrev start : Upload
  start = record { hashed = []; parts = []; sent = create_multipart_upload temp ∷ [] }

  -- The upload has come to an end.
  abbrev Done : Option (Result ContentId × List Request) → Type 0
  Done o = (r : Result ContentId) × (sent : List Request) × (o ≡ some (r, sent)) × Uploaded r sent

  with_guard-Done :
      {o : Option (Result (Unit {0}) × Upload)}
      → Ends s3 s 1 s.content parts start o
      → Done (with_guard s3 prefix temp o)
  with_guard-Done (sent_all u' eh ep et) =
      let all : Upload = record {
        hashed = s.content;
        parts = numbers 1 parts;
        sent = sent_parts;
      } in
      let same : u' ≡ all = cc (eh, ep, et) in
      rw same (_, _, refl, completed-Uploaded s3.on_complete refl)
  with_guard-Done (failed e u' done why et) = rw et (_, _, refl, given_up e done why)

  created-Done :
      (size : ℕ) (answer : Option CoreError)
      → s3.on_create ≡ answer
      → parts ≡ parts_of size s.content
      → 0 < size
      → Done (created s3 size prefix temp s answer)
  created-Done size (some e) q h pos = (_, _, refl, not_created e q)
  created-Done size none q h pos = elim (Bool-cases s3.upload_id) [
    | inr missing ↦ (_, _, if_false _ _ missing, no_upload_id missing)
    | inl there ↦
        let ends : Ends s3 s 1 s.content parts start
            (upload_loop s3 size s (suc (length s.content)) 0 s.content [] 1 start) =
          rw h (
            upload_loop-Ends s3 size s (suc (length s.content)) 0 s.content [] 1 start pos
              (omega arith) (omega arith)) in
        let (r, sent, e, up) = with_guard-Done ends in (r, sent, if_true _ _ there ∙ e, up)
  ]

module _ ⦃blake3 : Blake3⦄ ⦃ulids : UlidText⦄ where
  pub put_stream_impl-Uploaded :
      (s3 : S3) (prefix : Bytes) (multipart_chunk_bytes ulid : ℕ) (s : Stream)
      → (r : Result ContentId) × (sent : List Request) × (put_stream_impl s3 prefix
            multipart_chunk_bytes ulid s
          ≡ some (r, sent))
        × Uploaded s3 prefix
            (temp_key prefix ulid)
            (parts_of (chunk_bytes multipart_chunk_bytes) s.content)
            s
            r
            sent
        × (concat (parts_of (chunk_bytes multipart_chunk_bytes) s.content) ≡ s.content)
        × IsFull
            (chunk_bytes multipart_chunk_bytes)
            (parts_of (chunk_bytes multipart_chunk_bytes) s.content)
        × (mib 5 ≤ chunk_bytes multipart_chunk_bytes)
  unfolding put_stream_impl
  put_stream_impl-Uploaded s3 prefix multipart_chunk_bytes ulid s =
      let size = chunk_bytes multipart_chunk_bytes in
      let pos : 0 < size = omega arith in
      let (r, sent, e, up) =
        created-Done s3 prefix (temp_key prefix ulid) (parts_of size s.content) s size s3.on_create
          refl refl pos in
      (
        r,
        sent,
        e,
        up,
        concat-parts (chunks size [] s.content) ∙ concat-chunks size [] s.content,
        IsFull-parts size (chunks size [] s.content) (chunks-IsFull size [] s.content pos pos),
        omega arith,
      )
