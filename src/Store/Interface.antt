-- ===== src/Store/Interface.antt =====
-- The contents of a store as the traits show them. A transaction starts from the committed
-- contents, reads its own writes, and `commit` makes its contents the committed ones, so each
-- operation below maps contents to contents; an aborted transaction leaves the contents it began with.
-- Faults of the medium (disk, network) are left out.
use rollout.Prelude.{◌≡◌, List, Option, none, some, if◌then◌else◌}
use rollout.Core.Ids.{Bytes}
use rollout.Core.Keys.{StorageKey, key_eq, key_has_prefix}
use rollout.Store.Rows.{find_row, IsDistinct}

pub record Storage : Type 1 where
  pub Contents : Type 0
  pub get_bytes : StorageKey → Contents → Option Bytes
  pub put_bytes : StorageKey → Bytes → Contents → Contents
  pub delete : StorageKey → Contents → Contents
  pub scan_bytes : StorageKey → Contents → List (StorageKey × Bytes)
  pub get-put :
      (j k : StorageKey) (v : Bytes) (c : Contents)
      → get_bytes j (put_bytes k v c) ≡ (if key_eq k j then some v else get_bytes j c)
  pub get-delete :
      (j k : StorageKey) (c : Contents)
      → get_bytes j (delete k c) ≡ (if key_eq k j then none else get_bytes j c)
  -- A scan holds the rows under its prefix, each once, with their values.
  pub find-scan :
      (j p : StorageKey) (c : Contents)
      → find_row j (scan_bytes p c) ≡ (if key_has_prefix j p then get_bytes j c else none)
  pub scan-IsDistinct : (p : StorageKey) (c : Contents) → IsDistinct (scan_bytes p c)
