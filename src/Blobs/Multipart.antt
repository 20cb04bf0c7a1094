-- ===== src/Blobs/Multipart.antt =====
-- crates/rollout-cloud-aws/src/s3/put_stream.rs: the multipart upload of a stream to S3, as the
-- requests that it makes and what it returns. What the service answers is an argument; an error is
-- the one that `map_s3_sdk_error` makes of the answer. The part number stays in its `i32`: the service
-- takes ten thousand parts at most.
pub mod Parts
pub mod Outcome
pub mod Configured
use rollout.Prelude.{
  ℕ, zero, suc, ◌+◌, ◌-◌, ltb, leb, max, ◌==◌, Bool, true, false, ◌||◌, List, [], ◌∷◌, ◌++◌, Option,
  none, some, if◌then◌else◌, length, drop, codes,
}
use rollout.Core.Ids.{Bytes, ContentId}
use rollout.Core.Errors.{Result, ok, err, CoreError, recoverable, transient, never, fatal, internal}
use rollout.Core.Externals.{Blake3, UlidText}
use rollout.Blobs.{Stream, read, mib, sharded_key}

pub data Request : Type 0 where
  create_multipart_upload : Bytes → Request
  upload_part : ℕ → Bytes → Request
  complete_multipart_upload : List ℕ → Request
  copy_object : Bytes → Bytes → Request
  delete_object : Bytes → Request
  abort_multipart_upload : Request

-- The answers of the service, `none` where a request succeeds. `runtime` says whether the runtime
-- still runs when the guard is dropped.
pub record S3 : Type 0 where
  pub on_create : Option CoreError
  pub upload_id : Bool
  pub on_part : ℕ → Option CoreError
  pub on_complete : Option CoreError
  pub on_copy : Option CoreError
  pub on_delete : Option CoreError
  pub runtime : Bool

-- The hasher, the parts that are completed, and the requests made.
pub record Upload : Type 0 where
  pub hashed : Bytes
  pub parts : List ℕ
  pub sent : List Request

abbrev part_answer : ℕ → Upload → Option CoreError → Result (Unit {0}) × Upload
part_answer n u (some e) = (err e, u)
part_answer n u none = (ok tt, record u { parts = u.parts ++ n ∷ [] })

-- The chunk is hashed before it is sent.
unfoldable pub upload_one_part : S3 → ℕ → Bytes → Upload → Result (Unit {0}) × Upload
upload_one_part s3 n chunk u =
    part_answer n
      (record u { hashed = u.hashed ++ chunk; sent = u.sent ++ upload_part n chunk ∷ [] })
      (s3.on_part n)

-- `?` after a part, and then the next round with an empty buffer.
abbrev pub after_part :
    (Bytes → ℕ → Upload → Option (Result (Unit {0}) × Upload))
    → ℕ
    → Result (Unit {0}) × Upload
    → Option (Result (Unit {0}) × Upload)
after_part next n (err e, u) = some (err e, u)
after_part next n (ok done, u) = next [] (n + 1) u

-- What a round makes of the bytes that it has read; `next` is the following round.
abbrev pub after_read :
    S3
    → ℕ
    → (Bytes → ℕ → Upload → Option (Result (Unit {0}) × Upload))
    → Bytes
    → ℕ
    → Upload
    → Bytes
    → Option (Result (Unit {0}) × Upload)
after_read s3 chunk_size next filled n u [] =
    some (if ltb 0 (length filled) || n == 1 then upload_one_part s3 n filled u else (ok tt, u))
after_read s3 chunk_size next filled n u (b ∷ got) =
    let filled' = filled ++ b ∷ got in
    if length filled' == chunk_size
    then after_part next n (upload_one_part s3 n filled' u)
    else next filled' n u

abbrev pub read_error : CoreError
read_error = recoverable (transient "stream read: " never)

-- The loop, on fuel; `i` counts the reads.
unfoldable pub upload_loop :
    S3 → ℕ → Stream → ℕ → ℕ → Bytes → Bytes → ℕ → Upload → Option (Result (Unit {0}) × Upload)
upload_loop s3 chunk_size s zero i left filled n u = none
upload_loop s3 chunk_size s (suc fuel) i left filled n u =
    let got = read s i (chunk_size - length filled) left in
    let round =
      after_read s3 chunk_size
        (λ filled' n' u'.
          upload_loop s3 chunk_size s fuel (suc i) (drop (length got) left) filled' n' u')
        filled n u got in
    if s.fails i then some (err read_error, u) else round

-- The drop of a guard that has not committed: the abort needs the runtime.
abbrev pub drop_guard : S3 → List Request → List Request
drop_guard s3 sent = if s3.runtime then sent ++ abort_multipart_upload ∷ [] else sent

-- `store.multipart_chunk_bytes.max(5 * 1024 * 1024)`
abbrev pub chunk_bytes : ℕ → ℕ
chunk_bytes multipart_chunk_bytes = max multipart_chunk_bytes (mib 5)

module _ ⦃blake3 : Blake3⦄ ⦃ulids : UlidText⦄ where
  abbrev pub temp_key : Bytes → ℕ → Bytes
  temp_key prefix ulid = prefix ++ (codes "temp/pending-" ++ ulids.ulid_str ulid)

  abbrev pub deleted : ContentId → List Request → Option CoreError → Result ContentId × List Request
  deleted id sent (some e) = (err e, sent)
  deleted id sent none = (ok id, sent)

  abbrev pub copied :
      S3 → Bytes → ContentId → List Request → Option CoreError → Result ContentId × List Request
  copied s3 temp id sent (some e) = (err e, sent)
  copied s3 temp id sent none = deleted id (sent ++ delete_object temp ∷ []) s3.on_delete

  -- From the commit of the guard on.
  abbrev pub completed :
      S3
      → Bytes
      → Bytes
      → ContentId
      → List Request
      → Option CoreError
      → Result ContentId × List Request
  completed s3 prefix temp id sent (some e) = (err e, drop_guard s3 sent)
  completed s3 prefix temp id sent none =
      copied s3 temp id (sent ++ copy_object temp (sharded_key prefix id) ∷ []) s3.on_copy

  abbrev pub finish_upload :
      S3 → Bytes → Bytes → Result (Unit {0}) × Upload → Result ContentId × List Request
  finish_upload s3 prefix temp (err e, u) = (err e, drop_guard s3 u.sent)
  finish_upload s3 prefix temp (ok done, u) =
      completed s3 prefix temp (blake3.content_of u.hashed)
        (u.sent ++ complete_multipart_upload u.parts ∷ []) s3.on_complete

  abbrev pub with_guard :
      S3
      → Bytes
      → Bytes
      → Option (Result (Unit {0}) × Upload)
      → Option (Result ContentId × List Request)
  with_guard s3 prefix temp none = none
  with_guard s3 prefix temp (some r) = some (finish_upload s3 prefix temp r)

  abbrev pub created :
      S3 → ℕ → Bytes → Bytes → Stream → Option CoreError → Option (Result ContentId × List Request)
  created s3 chunk_size prefix temp s (some e) = some (err e, create_multipart_upload temp ∷ [])
  created s3 chunk_size prefix temp s none =
      if s3.upload_id
      then with_guard s3 prefix temp (
          upload_loop s3 chunk_size s (suc (length s.content)) 0 s.content [] 1
            (record { hashed = []; parts = []; sent = create_multipart_upload temp ∷ [] }))
      else some (
        err (fatal (internal "CreateMultipartUpload missing upload_id")),
        create_multipart_upload temp ∷ [],
      )

  -- `prefix` and `multipart_chunk_bytes` are the store's, `ulid` names the pending upload.
  unfoldable pub put_stream_impl :
      S3 → Bytes → ℕ → ℕ → Stream → Option (Result ContentId × List Request)
  unfolding upload_loop
  put_stream_impl s3 prefix multipart_chunk_bytes ulid s =
      created s3 (chunk_bytes multipart_chunk_bytes) prefix (temp_key prefix ulid) s s3.on_create
