-- ===== src/Core/Keys.antt =====
-- crates/rollout-core/src/traits/storage.rs: `StorageKey`, and the prefix test of a scan.
-- A `SmolStr` is its bytes.
use rollout.Prelude.{
  ℕ, ◌==◌, ◌≡◌, refl, Bool, true, false, ◌&&◌, List, [], ◌∷◌, Option, none, some, arith, bytes_eq,
  bytes_eq→eq, bytes_eq_refl,
}
use rollout.Core.Ids.{Bytes, RunId}

pub record StorageKey : Type 0 where
  pub namespace : Bytes
  pub run_id : Option RunId
  pub path : List Bytes

abbrev pub option_eq : Option ℕ → Option ℕ → Bool
option_eq none none = true
option_eq (some a) (some b) = a == b
option_eq _ _ = false

abbrev pub path_eq : List Bytes → List Bytes → Bool
path_eq [] [] = true
path_eq (x ∷ xs) (y ∷ ys) = bytes_eq x y && path_eq xs ys
path_eq _ _ = false

-- The derived `PartialEq`.
abbrev pub key_eq : StorageKey → StorageKey → Bool
key_eq j k =
    bytes_eq j.namespace k.namespace && option_eq j.run_id k.run_id && path_eq j.path k.path

pub path_eq→eq : (xs ys : List Bytes) → path_eq xs ys ≡ true → xs ≡ ys
path_eq→eq [] [] h = refl
path_eq→eq [] (y ∷ ys) h = cc
path_eq→eq (x ∷ xs) [] h = cc
path_eq→eq (x ∷ xs) (y ∷ ys) h = ground (arith, bytes_eq→eq x y, path_eq→eq xs ys)

pub path_eq_refl : (xs : List Bytes) → path_eq xs xs ≡ true
path_eq_refl [] = refl
path_eq_refl (x ∷ xs) = ground (arith, bytes_eq_refl x, path_eq_refl xs)

pub key_eq→eq : (j k : StorageKey) → key_eq j k ≡ true → j ≡ k
key_eq→eq j k h = ground (arith, bytes_eq→eq j.namespace k.namespace, path_eq→eq j.path k.path)

pub key_eq_refl : (k : StorageKey) → key_eq k k ≡ true
key_eq_refl k = ground (arith, bytes_eq_refl k.namespace, path_eq_refl k.path)

-- The segments of `prefix` begin the path.
abbrev pub path_has_prefix : List Bytes → List Bytes → Bool
path_has_prefix path [] = true
path_has_prefix [] (y ∷ ys) = false
path_has_prefix (x ∷ xs) (y ∷ ys) = bytes_eq x y && path_has_prefix xs ys

abbrev pub run_id_ok : Option RunId → Option RunId → Bool
run_id_ok none candidate = true
run_id_ok (some r) candidate = option_eq candidate (some r)

-- crates/rollout-storage/src/encoding.rs: `key_has_prefix`. A prefix with no run matches any run.
abbrev pub key_has_prefix : StorageKey → StorageKey → Bool
key_has_prefix candidate prefix =
    bytes_eq candidate.namespace prefix.namespace
    && run_id_ok prefix.run_id candidate.run_id
    && path_has_prefix candidate.path prefix.path
