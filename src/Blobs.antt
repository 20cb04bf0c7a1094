-- ===== src/Blobs.antt =====
-- The object stores: rollout-cloud-aws/src/s3, rollout-cloud-gcp/src/gcs and
-- rollout-cloud-local/src/object_store.rs under crates/. Here: the stream that they read, and the
-- chunks of a content. A `blake3::Hasher` is the bytes it was given: its `finalize` is documented to
-- be the hash of all of them.
pub mod Chunks
pub mod Multipart
pub mod Local
pub mod Settings
use rollout.Prelude.{
  ℕ, zero, suc, ◌+◌, ◌*◌, Bool, true, false, leb, ltb, ◌==◌, ◌||◌, max, min, List, [], ◌∷◌, ◌++◌,
  if◌then◌else◌, length, take, drop, codes,
}
use rollout.Core.Ids.{Bytes, ContentId, content_str}

-- An `AsyncRead`: its bytes, how many more than one are ready at each read, and which reads fail.
pub record Stream : Type 0 where
  pub content : Bytes
  pub ready : ℕ → ℕ
  pub fails : ℕ → Bool

-- The bytes that the i-th read puts into a buffer with some room, of those that are left.
abbrev pub read : Stream → ℕ → ℕ → Bytes → Bytes
read s i room left = take (min room (suc (s.ready i))) left

abbrev pub mib : ℕ → ℕ
mib n = n * 1024 * 1024

-- `sharded_key`: `<prefix>cas/<ab>/<cd>/<hex>`, the same for both clouds.
unfoldable pub sharded_key : Bytes → ContentId → Bytes
sharded_key prefix id =
    let hex = content_str id in
    prefix
    ++ (codes "cas/" ++ (take 2 hex ++ (codes "/" ++ (take 2 (drop 2 hex) ++ (codes "/" ++ hex)))))
