-- ===== src/Snapshots/Archive.antt =====
-- crates/rollout-snapshots/src/tar_build.rs: the archive of a directory. The `tar` crate and the file
-- system are arguments; a file that is listed is given with what its metadata and its content read.
pub mod Stable
use rollout.Prelude.{
  ℕ, Bool, true, false, ◌&&◌, ◌||◌, ltb, ◌==◌, List, [], ◌∷◌, Option, none, some, bytes_eq,
  if◌then◌else◌,
}
use rollout.Prelude.Sort.{sort_by}
use rollout.Core.Ids.{Bytes}
use rollout.Core.Errors.{Result, ok, err, CoreError, ◌>>=◌, recoverable, transient, never}

-- The header of an entry; its time, user and group are 0.
pub record TarHeader : Type 0 where
  pub size : ℕ
  pub mode : ℕ
  pub is_dir : Bool

-- The `tar` crate: an entry is added to the bytes of an archive, or the writer fails.
pub record Tar : Type 1 where
  pub Dirs : Type 0
  pub append_data : TarHeader → List Bytes → Bytes → Bytes → Option Bytes
  pub finish : Bytes → Option Bytes
  pub create_dir_all : Dirs → Bool × Dirs
  pub unpack : Bytes → Dirs → Bool × Dirs

-- An entry of the walk: its relative path, whether it is a directory and its size, and its content.
pub record DirEntry : Type 0 where
  pub path : List Bytes
  pub metadata : Option (Bool × ℕ)
  pub contents : Option Bytes

abbrev pub io_err : CoreError
io_err = recoverable (transient "" never)

abbrev pub or_io {ℓ} : {A : Type ℓ} → Option A → Result A
or_io none = err io_err
or_io (some a) = ok a

-- The `Ord` of a component of a path and of a path.
abbrev pub bytes_leb : Bytes → Bytes → Bool
bytes_leb [] ys = true
bytes_leb (x ∷ xs) [] = false
bytes_leb (x ∷ xs) (y ∷ ys) = ltb x y || ((x == y) && bytes_leb xs ys)

abbrev pub path_leb : List Bytes → List Bytes → Bool
path_leb [] ys = true
path_leb (x ∷ xs) [] = false
path_leb (x ∷ xs) (y ∷ ys) =
    let rest = path_leb xs ys in if bytes_eq x y then rest else bytes_leb x y

abbrev pub entry_leb : DirEntry → DirEntry → Bool
entry_leb a b = path_leb a.path b.path

-- 0o755 for a directory and 0o644 for a file.
abbrev pub header : Bool → ℕ → TarHeader
header is_dir len = record {
  size = if is_dir then 0 else len;
  mode = if is_dir then 493 else 420;
  is_dir = is_dir;
}

module _ ⦃tar : Tar⦄ where
  abbrev pub append_entry : DirEntry → Bytes → Bool × ℕ → Result Bytes
  append_entry entry buf (true, len) = or_io (tar.append_data (header true len) entry.path [] buf)
  append_entry entry buf (false, len) = do
    contents ← or_io entry.contents
    or_io (tar.append_data (header false len) entry.path contents buf)

  unfoldable pub append_entries : List DirEntry → Bytes → Result Bytes
  append_entries [] buf = ok buf
  append_entries (entry ∷ entries) buf = do
    meta ← or_io entry.metadata
    buf' ← append_entry entry buf meta
    append_entries entries buf'

  unfoldable pub build_deterministic_tar : List DirEntry → Result Bytes
  unfolding append_entries
  build_deterministic_tar entries = do
    buf ← append_entries (sort_by entry_leb entries) []
    or_io (tar.finish buf)

  abbrev pub done : Bool × tar.Dirs → Result (Unit {0}) × tar.Dirs
  done (true, dirs) = (ok tt, dirs)
  done (false, dirs) = (err io_err, dirs)

  abbrev pub unpack_into : Bytes → Bool × tar.Dirs → Result (Unit {0}) × tar.Dirs
  unpack_into bytes (true, dirs) = done (tar.unpack bytes dirs)
  unpack_into bytes (false, dirs) = (err io_err, dirs)

  unfoldable pub extract_tar : Bytes → tar.Dirs → Result (Unit {0}) × tar.Dirs
  extract_tar bytes dirs = unpack_into bytes (tar.create_dir_all dirs)
