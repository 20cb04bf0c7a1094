-- ===== src/Examples/Uploads.antt =====
-- An upload of a short text in one part, and one that is refused.
use rollout.Prelude.{◌≡◌, ◌≤◌, ◌==◌, refl, true, false, List, [], ◌∷◌, none, some, codes}
use rollout.Core.Ids.{ContentId}
use rollout.Core.Errors.{Result, ok, err, recoverable, transient, never}
use rollout.Blobs.{Stream}
use rollout.Blobs.Chunks.{IsFull}
use rollout.Blobs.Multipart.{
  S3, Request, create_multipart_upload, abort_multipart_upload, temp_key, upload_one_part,
  upload_loop, put_stream_impl,
}
use rollout.Blobs.Multipart.Outcome.{Uploaded, parts_of}
use rollout.Blobs.Multipart.Configured.{accepted_upload-Uploaded}
use rollout.Blobs.Settings.{
  AwsConfig, aws, five_mib, default_multipart_chunk, default_max_snapshot_part,
  validate_cross_fields,
}
use rollout.Examples.Data.{plain_hash, plain_ulids}

-- Two bytes are ready at each read.
abbrev hello : Stream
hello = record { content = codes "hello"; ready = λ i. 1; fails = λ i. false }

abbrev willing : S3
willing = record {
  on_create = none;
  upload_id = true;
  on_part = λ n. none;
  on_complete = none;
  on_copy = none;
  on_delete = none;
  runtime = true;
}

-- The second read fails: no part was sent, and the upload is aborted.
interrupted :
    put_stream_impl willing (codes "p/") 0 9 (record hello { fails = λ i. i == 1 })
    ≡ some (
      err (recoverable (transient "stream read: " never)),
      create_multipart_upload (temp_key (codes "p/") 9) ∷ abort_multipart_upload ∷ [],
    )
unfolding put_stream_impl upload_loop upload_one_part
interrupted = refl

abbrev on_s3 : AwsConfig
on_s3 = record {
  region = codes "us-west-2";
  s3 = record {
    bucket = codes "x";
    prefix = none;
    multipart_chunk_bytes = default_multipart_chunk;
    max_snapshot_part_bytes = default_max_snapshot_part;
  };
  sqs = record { queue_url = codes "u"; visibility_timeout_secs = 300 };
  allowlist = [];
}

on_s3_accepted : validate_cross_fields (aws on_s3) ≡ ok tt
unfolding validate_cross_fields
on_s3_accepted = refl

accepted_upload-Uploaded_example :
    (r : Result ContentId) × (sent : List Request) × (put_stream_impl willing
        (codes "p/")
        default_multipart_chunk
        9
        hello
      ≡ some (r, sent))
    × Uploaded willing
        (codes "p/")
        (temp_key (codes "p/") 9)
        (parts_of default_multipart_chunk (codes "hello"))
        hello
        r
        sent
    × IsFull default_multipart_chunk (parts_of default_multipart_chunk (codes "hello"))
    × (five_mib ≤ default_multipart_chunk)
accepted_upload-Uploaded_example =
    accepted_upload-Uploaded on_s3 willing (codes "p/") 9 hello on_s3_accepted
