-- ===== src/Blobs/Settings.antt =====
-- `CloudConfig` of crates/rollout-core/src/config/cloud.rs, its check, and the size of the parts that
-- an upload makes under it.
use rollout.Prelude.{ℕ, ◌*◌, ltb, List, Option, if◌then◌else◌}
use Prim.Native.String.{String}
use rollout.Core.Ids.{Bytes}
use rollout.Core.Errors.{Result, ok, err, fatal, config_invalid}

pub record AwsS3Config : Type 0 where
  pub bucket : Bytes
  pub prefix : Option Bytes
  pub multipart_chunk_bytes : ℕ
  pub max_snapshot_part_bytes : ℕ

pub record AwsSqsConfig : Type 0 where
  pub queue_url : Bytes
  pub visibility_timeout_secs : ℕ

pub record AwsConfig : Type 0 where
  pub region : Bytes
  pub s3 : AwsS3Config
  pub sqs : AwsSqsConfig
  pub allowlist : List Bytes

pub record GcpGcsConfig : Type 0 where
  pub bucket : Bytes
  pub prefix : Option Bytes
  pub resumable_chunk_bytes : ℕ
  pub max_snapshot_part_bytes : ℕ

pub record GcpPubSubConfig : Type 0 where
  pub subscription : Bytes
  pub topic : Bytes
  pub ack_deadline_secs : ℕ

pub record GcpConfig : Type 0 where
  pub project : Bytes
  pub gcs : GcpGcsConfig
  pub pubsub : GcpPubSubConfig
  pub allowlist : List Bytes

pub data CloudConfig : Type 0 where
  local : CloudConfig
  aws : AwsConfig → CloudConfig
  gcp : GcpConfig → CloudConfig

abbrev pub five_mib : ℕ
five_mib = 5 * 1024 * 1024

abbrev pub ten_gib : ℕ
ten_gib = 10 * 1024 * 1024 * 1024

abbrev pub default_multipart_chunk : ℕ
default_multipart_chunk = 16 * 1024 * 1024

abbrev pub default_max_snapshot_part : ℕ
default_max_snapshot_part = 5 * 1024 * 1024 * 1024

-- The two bounds, each with its message.
abbrev pub bounded : ℕ → ℕ → String → String → Result (Unit {0})
bounded part chunk part_msg chunk_msg =
    if ltb ten_gib part
    then err (fatal (config_invalid part_msg))
    else if ltb chunk five_mib
    then err (fatal (config_invalid chunk_msg))
    else ok tt

unfoldable pub validate_cross_fields : CloudConfig → Result (Unit {0})
validate_cross_fields local = ok tt
validate_cross_fields (aws a) =
    bounded a.s3.max_snapshot_part_bytes a.s3.multipart_chunk_bytes
      "cloud.aws.s3.max_snapshot_part_bytes exceeds 10 GiB hard cap (D-SNAP-03)"
      "cloud.aws.s3.multipart_chunk_bytes below S3 5 MiB minimum"
validate_cross_fields (gcp g) =
    bounded g.gcs.max_snapshot_part_bytes g.gcs.resumable_chunk_bytes
      "cloud.gcp.gcs.max_snapshot_part_bytes exceeds 10 GiB hard cap (D-SNAP-03)"
      "cloud.gcp.gcs.resumable_chunk_bytes below 5 MiB minimum"
