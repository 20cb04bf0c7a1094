-- ===== src/Store/Embedded/Many/Reads.antt =====
-- `get_many_bytes` against the reads one by one.
use rollout.Prelude.{
  ℕ, suc, ◌≡◌, refl, ap, subst, false, List, [], ◌∷◌, ◌++◌, Option, none, some, arith, All, Member,
  map, length, get_elem?, replicate, length-replicate, get_elem?-replicate, get_elem?-lt, bytes_eq,
  inl, inr, ◌↔◌,
}
use rollout.Core.Ids.{Bytes}
use rollout.Core.Keys.{StorageKey}
use rollout.Core.Errors.{ok, err, fatal, internal}
use rollout.Store.Embedded.{Redb, KeyCodec, table_for, get_bytes}
use rollout.Store.Embedded.View.{IsRegistered, view, view-get}
use rollout.Store.Embedded.Many.{
  Group, read_group, read_grouped, joined, read_groups, get_many_bytes,
}
use rollout.Store.Embedded.Many.Groups.{
  eval_reports, Covered, covering, IsGood, Named, Grouped, group_keys-Grouped, group_keys-stops,
}
use rollout.Store.Embedded.Many.Slots.{IndexOf, Slots, Filled, read_group-Filling}

-- A list is a map where it is one at each index.
map_at :
    {A B : Type 0} (f : A → B) (xs : List A) (ys : List B)
    → length ys ≡ length xs
    → ((j : ℕ) (x : A) → get_elem? xs j ≡ some x → get_elem? ys j ≡ some (f x))
    → ys ≡ map f xs
map_at f [] [] e h = refl
map_at f [] (y ∷ ys) e h = absurd (omega (arith, e))
map_at f (x ∷ xs) [] e h = absurd (omega (arith, e))
map_at f (x ∷ xs) (y ∷ ys) e h = cc (h 0 x refl, map_at f xs ys (omega (arith, e)) (λ j. h (suc j)))

All-of_members :
    {A : Type 0} (P : A → Type 0) (xs : List A) → ((x : A) → Member x xs → P x) → All P xs
All-of_members P [] h = tt
All-of_members P (x ∷ xs) h = (h x (inl refl), All-of_members P xs (λ y m. h y (inr m)))

All-at : {A : Type 0} (P : A → Type 0) (xs : List A) (x : A) → All P xs → Member x xs → P x
All-at P [] x h m = absurd m
All-at P (y ∷ xs) x h (inl e) = rw e h.0
All-at P (y ∷ xs) x h (inr m) = All-at P xs x h.1 m

module _ ⦃redb : Redb⦄ ⦃keys : KeyCodec⦄ (owned : List StorageKey) (db : redb.Db) where
  indices :
      (name table : Bytes) (idxs : List ℕ)
      → table_for name ≡ ok table
      → All (Named owned name) idxs
      → All (IndexOf owned db table) idxs
  indices name table [] t h = tt
  indices name table (i ∷ idxs) t h =
      let (k, at, e) = h.0 in ((k, at, rw e t), indices name table idxs t h.1)

  -- After the reads of some groups.
  record Gathered (groups : List Group) (out : List (Option Bytes)) : Type 0 where
    out' : List (Option Bytes)
    so : read_groups owned db groups out ≡ ok out'
    slots : Slots owned db out'
    keeps : (j : ℕ) → Filled owned db j out → Filled owned db j out'
    fills : (g : Group) (j : ℕ) → Member g groups → Member j g.1 → Filled owned db j out'

  read_groups-Gathered :
      (groups : List Group) (out : List (Option Bytes))
      → IsGood owned groups
      → Slots owned db out
      → Gathered groups out
  unfolding read_groups
  read_groups-Gathered [] out h s = record {
    out' = out;
    so = refl;
    slots = s;
    keeps = λ j f. f;
    fills = λ g j m n. absurd m;
  }
  read_groups-Gathered ((name, idxs) ∷ groups) out h s =
      let (table, t) = h.0.0 in
      let one = read_group-Filling owned db table idxs out (indices name table idxs t h.0.1) s in
      let rest = read_groups-Gathered groups (read_group owned table db idxs out) h.1 one.slots in
      record {
        out' = rest.out';
        so = rw t rest.so;
        slots = rest.slots;
        keeps = λ j f. rest.keeps j (one.keeps j f);
        fills = λ g j m n. elim m [
          | inl e ↦ rest.keeps j (one.fills j (subst (λ (l : Group). Member j l.1) e n))
          | inr later ↦ rest.fills g j later n
        ];
      }

  -- The batched read answers as the reads one by one, in the order of the keys and whatever the
  -- order of the groups is, where every namespace has a table and none is "eval_reports"; `visit`
  -- goes through the groups that it is given.
  pub get_many_bytes-map :
      (visit : List Group → List Group)
      → ((groups : List Group) (g : Group) → Member g groups ↔ Member g (visit groups))
      → All (λ k. IsRegistered k × (bytes_eq eval_reports k.namespace ≡ false)) owned
      → get_many_bytes visit owned db ≡ ok (map (view db) owned)
  unfolding get_many_bytes
  get_many_bytes-map visit same reg =
      let g =
        group_keys-Grouped owned 0 owned []
          (λ m k e. subst (λ n. get_elem? owned n ≡ some k) (omega arith) e) reg tt in
      let good =
        All-of_members _ (visit g.groups')
          (λ x m. All-at _ g.groups' x g.named ((same g.groups' x).1 m)) in
      let r = read_groups-Gathered (visit g.groups') (replicate (length owned) none) good empty in
      rw (g.so, r.so) (ap (λ l. ok l) (map_at (view db) owned r.out' r.slots.sized (filled g r)))
    where
      empty : Slots owned db (replicate (length owned) none)
      empty = record {
        sized = length-replicate (length owned) none;
        slot = λ j k e. inl (get_elem?-replicate (length owned) j none (get_elem?-lt owned j e));
      }

      filled :
          (g : Grouped owned 0 owned [])
          (r : Gathered (visit g.groups') (replicate (length owned) none)) (j : ℕ) (k : StorageKey)
          → get_elem? owned j ≡ some k
          → get_elem? r.out' j ≡ some (view db k)
      filled g r j k e =
          let c = subst (λ n. Covered n g.groups') (omega arith) (g.covers j k e) in
          let (x, m, n) = covering j g.groups' c in
          let (l, at, f) = r.fills x j ((same g.groups' x).0 m) n in cc (at, e, f)

module _ ⦃redb : Redb⦄ ⦃keys : KeyCodec⦄ where
  reads_alone :
      (ks : List StorageKey) (db : redb.Db)
      → All IsRegistered ks
      → All (λ k. get_bytes k db ≡ ok (view db k)) ks
  unfolding get_bytes table_for
  reads_alone [] db h = tt
  reads_alone (k ∷ ks) db h =
      let (table, t) = h.0 in (rw t (ap (λ v. ok v) (view-get db k t)), reads_alone ks db h.1)

  -- A batched read fails as soon as one of its keys is in "eval_reports", although each of its keys, all
  -- in namespaces that have a table, can be read by itself: the second match lacks that name, the closure
  -- panics, and the join of its task is the error.
  pub get_many_bytes-fails :
      (visit : List Group → List Group) (before after : List StorageKey) (key : StorageKey)
      (db : redb.Db)
      → All IsRegistered (before ++ key ∷ after)
      → key.namespace ≡ eval_reports
      → All (λ k. get_bytes k db ≡ ok (view db k)) (before ++ key ∷ after)
        × (get_many_bytes visit (before ++ key ∷ after) db ≡ err (fatal (internal "join: ")))
  unfolding get_many_bytes
  get_many_bytes-fails visit before after key db reg e = (
    reads_alone (before ++ key ∷ after) db reg,
    rw (group_keys-stops 0 before after key [] reg e, read_grouped, joined) refl,
  )
