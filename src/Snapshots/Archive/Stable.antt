-- ===== src/Snapshots/Archive/Stable.antt =====
-- The archive of a directory does not depend on the order in which the walk lists it.
use rollout.Prelude.{
  ℕ, ◌≡◌, refl, ◌∙◌, Bool, true, false, List, [], ◌∷◌, map, Option, arith, bytes_eq→eq,
  bytes_eq_refl, Bool-cases, inl, inr,
}
use mathlib.Core.List.{Permᴰ}
use rollout.Prelude.Sort.{insert_by, sort_by}
use rollout.Core.Ids.{Bytes}
use rollout.Snapshots.Archive.{
  Tar, DirEntry, bytes_leb, path_leb, entry_leb, build_deterministic_tar,
}

bytes_leb_total : (xs ys : Bytes) → bytes_leb xs ys ≡ false → bytes_leb ys xs ≡ true
bytes_leb_total [] ys h = cc
bytes_leb_total (x ∷ xs) [] h = refl
bytes_leb_total (x ∷ xs) (y ∷ ys) h = ground (arith, bytes_leb_total xs ys)

bytes_leb_antisym : (xs ys : Bytes) → bytes_leb xs ys ≡ true → bytes_leb ys xs ≡ true → xs ≡ ys
bytes_leb_antisym [] [] h k = refl
bytes_leb_antisym [] (y ∷ ys) h k = cc
bytes_leb_antisym (x ∷ xs) [] h k = cc
bytes_leb_antisym (x ∷ xs) (y ∷ ys) h k = ground (arith, bytes_leb_antisym xs ys)

bytes_leb_trans :
    (xs ys zs : Bytes) → bytes_leb xs ys ≡ true → bytes_leb ys zs ≡ true → bytes_leb xs zs ≡ true
bytes_leb_trans [] ys zs h k = refl
bytes_leb_trans (x ∷ xs) [] zs h k = cc
bytes_leb_trans (x ∷ xs) (y ∷ ys) [] h k = cc
bytes_leb_trans (x ∷ xs) (y ∷ ys) (z ∷ zs) h k = ground (arith, bytes_leb_trans xs ys zs)

path_leb_total : (xs ys : List Bytes) → path_leb xs ys ≡ false → path_leb ys xs ≡ true
path_leb_total [] ys h = cc
path_leb_total (x ∷ xs) [] h = refl
path_leb_total (x ∷ xs) (y ∷ ys) h = ground (
  arith,
  path_leb_total xs ys,
  bytes_leb_total x y,
  bytes_eq→eq x y,
  bytes_eq→eq y x,
  bytes_eq_refl x,
)

path_leb_antisym : (xs ys : List Bytes) → path_leb xs ys ≡ true → path_leb ys xs ≡ true → xs ≡ ys
path_leb_antisym [] [] h k = refl
path_leb_antisym [] (y ∷ ys) h k = cc
path_leb_antisym (x ∷ xs) [] h k = cc
path_leb_antisym (x ∷ xs) (y ∷ ys) h k = ground (
  arith,
  path_leb_antisym xs ys,
  bytes_leb_antisym x y,
  bytes_eq→eq x y,
  bytes_eq→eq y x,
  bytes_eq_refl x,
)

path_leb_trans :
    (xs ys zs : List Bytes) → path_leb xs ys ≡ true → path_leb ys zs ≡ true → path_leb xs zs ≡ true
path_leb_trans [] ys zs h k = refl
path_leb_trans (x ∷ xs) [] zs h k = cc
path_leb_trans (x ∷ xs) (y ∷ ys) [] h k = cc
path_leb_trans (x ∷ xs) (y ∷ ys) (z ∷ zs) h k = ground (
  arith,
  path_leb_trans xs ys zs,
  bytes_leb_trans x y z,
  bytes_leb_antisym x y,
  bytes_eq→eq x y,
  bytes_eq→eq y z,
  bytes_eq→eq x z,
  bytes_eq_refl x,
)

insert_by_comm :
    (a b : List Bytes) (ps : List (List Bytes))
    → insert_by path_leb a (insert_by path_leb b ps)
      ≡ insert_by path_leb b (insert_by path_leb a ps)
unfolding insert_by
insert_by_comm a b [] = ground (arith, path_leb_total a b, path_leb_antisym a b)
insert_by_comm a b (p ∷ ps) = ground (
  arith,
  insert_by_comm a b ps,
  path_leb_total a b,
  path_leb_antisym a b,
  path_leb_trans a b p,
  path_leb_trans b a p,
)

sort_by-Perm : {ps qs : List (List Bytes)} → Permᴰ ps qs → sort_by path_leb ps ≡ sort_by path_leb qs
unfolding sort_by
sort_by-Perm Permᴰ.nil = refl
sort_by-Perm (Permᴰ.cons e p) = rw (e, sort_by-Perm p) refl
sort_by-Perm (Permᴰ.swap {a} {b} {a'} {b'} {l} e f) =
    rw (e, f) (insert_by_comm b' a' (sort_by path_leb l))
sort_by-Perm (Permᴰ.trans p q) = sort_by-Perm p ∙ sort_by-Perm q

-- A directory gives each path its metadata and its content.
pub record Dir : Type 0 where
  pub metadata : List Bytes → Option (Bool × ℕ)
  pub contents : List Bytes → Option Bytes

abbrev pub entry_at : Dir → List Bytes → DirEntry
entry_at dir path = record {
  path = path;
  metadata = dir.metadata path;
  contents = dir.contents path;
}

insert_by-map :
    (dir : Dir) (p : List Bytes) (ps : List (List Bytes))
    → insert_by entry_leb (entry_at dir p) (map (entry_at dir) ps)
      ≡ map (entry_at dir) (insert_by path_leb p ps)
unfolding insert_by
insert_by-map dir p [] = refl
insert_by-map dir p (q ∷ qs) = elim (Bool-cases (path_leb p q)) [
  | inl t ↦ rw (t, map) refl
  | inr f ↦ rw (f, map, insert_by-map dir p qs) refl
]

sort_by-map :
    (dir : Dir) (ps : List (List Bytes))
    → sort_by entry_leb (map (entry_at dir) ps) ≡ map (entry_at dir) (sort_by path_leb ps)
unfolding sort_by
sort_by-map dir [] = refl
sort_by-map dir (p ∷ ps) = rw (sort_by-map dir ps) (insert_by-map dir p (sort_by path_leb ps))

module _ ⦃tar : Tar⦄ where
  -- The archive of a directory is the same in whatever order the walk lists its paths, also where a
  -- file cannot be read or the writer fails.
  pub build_deterministic_tar-Perm :
      (dir : Dir) (ps qs : List (List Bytes))
      → Permᴰ ps qs
      → build_deterministic_tar (map (entry_at dir) ps)
        ≡ build_deterministic_tar (map (entry_at dir) qs)
  unfolding build_deterministic_tar
  build_deterministic_tar-Perm dir ps qs p =
      rw (sort_by-map dir ps, sort_by-map dir qs, sort_by-Perm p) refl
