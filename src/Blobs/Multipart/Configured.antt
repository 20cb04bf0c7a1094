-- ===== src/Blobs/Multipart/Configured.antt =====
-- Uploads to S3 under a configuration that crates/rollout-core/src/config/cloud.rs accepts.
use rollout.Prelude.{ℕ, ◌≤◌, ◌≡◌, ltb, arith, some, List, Bool-cases, inl, inr, subst}
use Prim.Native.String.{String}
use rollout.Core.Ids.{Bytes, ContentId}
use rollout.Core.Errors.{Result, ok}
use rollout.Core.Externals.{Blake3, UlidText}
use rollout.Blobs.{Stream}
use rollout.Blobs.Chunks.{IsFull}
use rollout.Blobs.Settings.{AwsConfig, aws, five_mib, ten_gib, bounded, validate_cross_fields}
use rollout.Blobs.Multipart.{S3, Request, temp_key, chunk_bytes, put_stream_impl}
use rollout.Blobs.Multipart.Outcome.{parts_of, Uploaded, put_stream_impl-Uploaded}

bounded-chunk :
    (part chunk : ℕ) (part_msg chunk_msg : String)
    → bounded part chunk part_msg chunk_msg ≡ ok tt
    → (part ≤ ten_gib) × (five_mib ≤ chunk)
bounded-chunk part chunk part_msg chunk_msg h = elim (Bool-cases (ltb ten_gib part)) [
  | inl over ↦ absurd (cc (rw over at h))
  | inr part_ok ↦ elim (Bool-cases (ltb chunk five_mib)) [
    | inl under ↦ absurd (cc (rw (part_ok, under) at h))
    | inr chunk_ok ↦ (ground (arith, part_ok), ground (arith, chunk_ok))
  ]
]

module _ ⦃blake3 : Blake3⦄ ⦃ulids : UlidText⦄ where
  -- An upload under an accepted configuration sends parts of the configured size, which is not raised:
  -- it ends as an upload does whose parts are those of the content in chunks of that size, all but the
  -- last have exactly it, and it is at least the minimum of the service.
  pub accepted_upload-Uploaded :
      (a : AwsConfig) (s3 : S3) (prefix : Bytes) (ulid : ℕ) (s : Stream)
      → validate_cross_fields (aws a) ≡ ok tt
      → (r : Result ContentId) × (sent : List Request) × (put_stream_impl s3 prefix
            a.s3.multipart_chunk_bytes ulid s
          ≡ some (r, sent))
        × Uploaded s3 prefix
            (temp_key prefix ulid)
            (parts_of a.s3.multipart_chunk_bytes s.content)
            s
            r
            sent
        × IsFull a.s3.multipart_chunk_bytes (parts_of a.s3.multipart_chunk_bytes s.content)
        × (five_mib ≤ a.s3.multipart_chunk_bytes)
  unfolding validate_cross_fields
  accepted_upload-Uploaded a s3 prefix ulid s h =
      let chunk = a.s3.multipart_chunk_bytes in
      let (part, least) = bounded-chunk a.s3.max_snapshot_part_bytes chunk _ _ h in
      let same : chunk_bytes chunk ≡ chunk = omega (arith, least) in
      let (r, sent, e, up, whole, full, big) = put_stream_impl-Uploaded s3 prefix chunk ulid s in
      (
        r,
        sent,
        e,
        subst (λ n. Uploaded s3 prefix (temp_key prefix ulid) (parts_of n s.content) s r sent) same
            up,
        subst (λ n. IsFull n (parts_of n s.content)) same full,
        least,
      )
