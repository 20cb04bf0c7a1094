-- ===== src/Store/Embedded/View.antt =====
-- The contents of the tables by storage key, and what a write to a table does to them.
use rollout.Prelude.{
  ◌≡◌, refl, ap, ◌∙◌, Bool, true, ◌&&◌, List, [], ◌∷◌, Option, none, some, if◌then◌else◌, arith,
  bytes_eq, bytes_eq→eq, bytes_eq_refl, Bool-cases, ◌⊎◌, inl, inr,
}
use rollout.Core.Ids.{Bytes}
use rollout.Core.Keys.{StorageKey, key_eq, key_eq→eq, key_eq_refl}
use rollout.Core.Errors.{Result, ok, err, CoreError}
use rollout.Store.Embedded.{
  Redb, KeyCodec, find_bytes, all_tables, or_unknown, table_for, encode_key,
}

Bool_eq : {a b : Bool} → (a ≡ true → b ≡ true) → (b ≡ true → a ≡ true) → a ≡ b
Bool_eq {a} {b} to from = elim (Bool-cases a) [
  | inl e ↦ cc (e, to e)
  | inr e ↦ elim (Bool-cases b) [ inl f ↦ cc (f, from f) | inr f ↦ cc (e, f) ]
]

Result-cases :
    {A : Type 0} (r : Result A) → ((e : CoreError) × (r ≡ err e)) ⊎ ((a : A) × (r ≡ ok a))
Result-cases (err e) = inl (e, refl)
Result-cases (ok a) = inr (a, refl)

-- Each entry has its own name as its value.
abbrev self_named : List (Bytes × Bytes) → Bool
self_named [] = true
self_named ((j, v) ∷ entries) = bytes_eq j v && self_named entries

find_self_named :
    (name : Bytes) (entries : List (Bytes × Bytes)) (table : Bytes)
    → self_named entries ≡ true
    → find_bytes name entries ≡ some table
    → table ≡ name
find_self_named name [] table h e = cc
find_self_named name ((j, v) ∷ entries) table h e =
    ground (arith, bytes_eq→eq j name, bytes_eq→eq j v, find_self_named name entries table)

or_unknown-ok : (o : Option Bytes) (table : Bytes) → or_unknown o ≡ ok table → o ≡ some table
or_unknown-ok none table h = cc
or_unknown-ok (some t) table h = cc

-- A namespace names its own table.
pub table_for-name : (name : Bytes) {table : Bytes} → table_for name ≡ ok table → table ≡ name
unfolding table_for
table_for-name name {table} h =
    find_self_named name all_tables table refl (or_unknown-ok (find_bytes name all_tables) table h)

pub table_for-found :
    (name : Bytes) {table : Bytes}
    → table_for name ≡ ok table
    → find_bytes name all_tables ≡ some name
unfolding table_for
table_for-found name {table} h =
    let e = or_unknown-ok (find_bytes name all_tables) table h in
    e ∙ ap some (find_self_named name all_tables table refl e)

-- The namespace of the key has a table.
abbrev pub IsRegistered : StorageKey → Type 0
IsRegistered key = (table : Bytes) × (table_for key.namespace ≡ ok table)

module _ ⦃redb : Redb⦄ ⦃keys : KeyCodec⦄ where
  -- The value of a key, none where its namespace has no table.
  pub view : redb.Db → StorageKey → Option Bytes
  view db key = elim (table_for key.namespace) [
    | err failure ↦ none
    | ok table ↦ redb.get table (encode_key key) db
  ]

  pub view-get :
      (db : redb.Db) (key : StorageKey) {table : Bytes}
      → table_for key.namespace ≡ ok table
      → redb.get table (encode_key key) db ≡ view db key
  unfolding view
  view-get db key h = rw (h, view) refl

  -- Two keys have the same entry exactly where they are equal.
  same_entry :
      (j k : StorageKey) {t u : Bytes}
      → table_for k.namespace ≡ ok t
      → table_for j.namespace ≡ ok u
      → (bytes_eq t u && bytes_eq (encode_key k) (encode_key j)) ≡ key_eq k j
  same_entry j k {t} {u} ht hu =
      Bool_eq (λ e. cc (key_eq_refl j, one e)) (λ e. both (key_eq→eq k j e))
    where
      both : k ≡ j → (bytes_eq t u && bytes_eq (encode_key k) (encode_key j)) ≡ true
      both e =
          let s : t ≡ u = cc (ht, hu, e) in
          rw (s, e, bytes_eq_refl u, bytes_eq_refl (encode_key j)) refl

      one : (bytes_eq t u && bytes_eq (encode_key k) (encode_key j)) ≡ true → k ≡ j
      one f =
          let e : _ = bytes_eq→eq (encode_key k) (encode_key j) (ground arith) in
          let s : _ = bytes_eq→eq t u (ground arith) in
          cc (
            e,
            s,
            table_for-name k.namespace ht,
            table_for-name j.namespace hu,
            keys.round_trip k.run_id k.path,
            keys.round_trip j.run_id j.path,
          )

  pub view-insert :
      (j k : StorageKey) (v : Bytes) (db : redb.Db) {t : Bytes}
      → table_for k.namespace ≡ ok t
      → view (redb.insert t (encode_key k) v db) j ≡ (if key_eq k j then some v else view db j)
  unfolding view
  view-insert j k v db {t} h = elim (Result-cases (table_for j.namespace)) [
    | inl (e, f) ↦ rw (f, view) (unregistered e f)
    | inr (u, f) ↦
        rw (f, view, redb.get-insert u t (encode_key j) (encode_key k) v db, same_entry j k h f)
          refl
  ]
    where
      unregistered :
          (e : CoreError)
          → table_for j.namespace ≡ err e
          → none ≡ (if key_eq k j then some v else none)
      unregistered e f = elim (Bool-cases (key_eq k j)) [
        | inl same ↦ absurd (cc (key_eq→eq k j same, h, f))
        | inr other ↦ rw other refl
      ]

  pub view-remove :
      (j k : StorageKey) (db : redb.Db) {t : Bytes}
      → table_for k.namespace ≡ ok t
      → view (redb.remove t (encode_key k) db) j ≡ (if key_eq k j then none else view db j)
  unfolding view
  view-remove j k db {t} h = elim (Result-cases (table_for j.namespace)) [
    | inl (e, f) ↦ rw (f, view) (ground arith)
    | inr (u, f) ↦
        rw (f, view, redb.get-remove u t (encode_key j) (encode_key k) db, same_entry j k h f) refl
  ]
