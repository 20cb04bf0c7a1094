-- ===== src/Store/Embedded/Many/Groups.antt =====
-- The groups that `get_many_bytes` makes of its keys.
use rollout.Prelude.{
  ℕ, zero, suc, ◌+◌, ◌≡◌, refl, subst, false, List, [], ◌∷◌, ◌++◌, none, some, arith, All, Member,
  get_elem?, Bool-cases, Option-cases, bytes_eq, bytes_eq→eq, ◌⊎◌, inl, inr, codes,
}
use rollout.Core.Ids.{Bytes}
use rollout.Core.Keys.{StorageKey}
use rollout.Core.Errors.{ok}
use rollout.Store.Embedded.{find_bytes, table_for}
use rollout.Store.Embedded.View.{IsRegistered, table_for-found}
use rollout.Store.Embedded.Many.{Group, static_names, push_index, group_keys}

find-drop_last :
    (name m v : Bytes) (entries : List (Bytes × Bytes)) (table : Bytes)
    → bytes_eq m name ≡ false
    → find_bytes name (entries ++ (m, v) ∷ []) ≡ some table
    → find_bytes name entries ≡ some table
find-drop_last name m v [] table e h = ground arith
find-drop_last name m v ((j, w) ∷ entries) table e h =
    ground (arith, find-drop_last name m v entries table)

abbrev pub eval_reports : Bytes
eval_reports = codes "eval_reports"

static_name :
    (name : Bytes) {table : Bytes}
    → bytes_eq eval_reports name ≡ false
    → table_for name ≡ ok table
    → find_bytes name static_names ≡ some name
static_name name e h =
    find-drop_last name eval_reports eval_reports static_names name e (table_for-found name h)

-- The index stands in a group.
abbrev pub Covered : ℕ → List Group → Type 0
Covered j [] = ⊥
Covered j ((name, idxs) ∷ groups) = Member j idxs ⊎ Covered j groups

pub covering :
    (j : ℕ) (groups : List Group) → Covered j groups → (g : Group) × Member g groups × Member j g.1
covering j [] h = absurd h
covering j ((name, idxs) ∷ groups) (inl here) = ((name, idxs), inl refl, here)
covering j ((name, idxs) ∷ groups) (inr later) =
    let (g, m, n) = covering j groups later in (g, inr m, n)

Member-append_last : (j i : ℕ) (idxs : List ℕ) → (j ≡ i) ⊎ Member j idxs → Member j (idxs ++ i ∷ [])
Member-append_last j i [] (inl e) = inl e
Member-append_last j i [] (inr m) = absurd m
Member-append_last j i (x ∷ idxs) (inl e) = inr (Member-append_last j i idxs (inl e))
Member-append_last j i (x ∷ idxs) (inr (inl e)) = inl e
Member-append_last j i (x ∷ idxs) (inr (inr m)) = inr (Member-append_last j i idxs (inr m))

push_index-Covered :
    (name : Bytes) (i j : ℕ) (groups : List Group)
    → (j ≡ i) ⊎ Covered j groups
    → Covered j (push_index name i groups)
push_index-Covered name i j [] (inl e) = inl (inl e)
push_index-Covered name i j [] (inr c) = absurd c
push_index-Covered name i j ((m, idxs) ∷ groups) h = elim (Bool-cases (bytes_eq m name)) [
  | inl same ↦
      rw (same, push_index)
        (elim h [
          | inl e ↦ inl (Member-append_last j i idxs (inl e))
          | inr c ↦ elim c [
            | inl here ↦ inl (Member-append_last j i idxs (inr here))
            | inr later ↦ inr later
          ]
        ])
  | inr other ↦
      rw (other, push_index)
        (elim h [
          | inl e ↦ inr (push_index-Covered name i j groups (inl e))
          | inr c ↦ elim c [
            | inl here ↦ inl here
            | inr later ↦ inr (push_index-Covered name i j groups (inr later))
          ]
        ])
]

push_index-groups :
    (Q : Bytes → Type 0) (P : Bytes → ℕ → Type 0) (name : Bytes) (i : ℕ) (groups : List Group)
    → Q name
    → P name i
    → All (λ g. Q g.0 × All (P g.0) g.1) groups
    → All (λ g. Q g.0 × All (P g.0) g.1) (push_index name i groups)
push_index-groups Q P name i [] r p h = ((r, (p, tt)), tt)
push_index-groups Q P name i ((m, idxs) ∷ groups) r p h = elim (Bool-cases (bytes_eq m name)) [
  | inl same ↦
      let q : P m i = rw (bytes_eq→eq m name same) p in
      rw (same, push_index) ((h.0.0, All-last (P m) idxs i h.0.1 q), h.1)
  | inr other ↦ rw (other, push_index) (h.0, push_index-groups Q P name i groups r p h.1)
]
  where
    All-last : (Q : ℕ → Type 0) (idxs : List ℕ) (i : ℕ) → All Q idxs → Q i → All Q (idxs ++ i ∷ [])
    All-last Q [] i h q = (q, tt)
    All-last Q (x ∷ idxs) i h q = (h.0, All-last Q idxs i h.1 q)

abbrev pub HasTable : Bytes → Type 0
HasTable name = (table : Bytes) × (table_for name ≡ ok table)

module _ (owned : List StorageKey) where
  -- The key at an index has that namespace.
  abbrev pub Named : Bytes → ℕ → Type 0
  Named name i = (k : StorageKey) × (get_elem? owned i ≡ some k) × (k.namespace ≡ name)

  abbrev pub IsGood : List Group → Type 0
  IsGood = All (λ g. HasTable g.0 × All (Named g.0) g.1)

  -- The groups of the keys from an index on.
  pub record Grouped (from : ℕ) (ks : List StorageKey) (groups : List Group) : Type 0 where
    pub groups' : List Group
    pub so : group_keys from ks groups ≡ some (ok groups')
    pub named : IsGood groups'
    pub keeps : (j : ℕ) → Covered j groups → Covered j groups'
    pub covers : (m : ℕ) (k : StorageKey) → get_elem? ks m ≡ some k → Covered (from + m) groups'

  pub group_keys-Grouped :
      (from : ℕ) (ks : List StorageKey) (groups : List Group)
      → ((m : ℕ) (k : StorageKey) → get_elem? ks m ≡ some k → get_elem? owned (from + m) ≡ some k)
      → All (λ k. IsRegistered k × (bytes_eq eval_reports k.namespace ≡ false)) ks
      → IsGood groups
      → Grouped from ks groups
  unfolding group_keys
  group_keys-Grouped from [] groups at reg h = record {
    groups' = groups;
    so = refl;
    named = h;
    keeps = λ j c. c;
    covers = λ m k e. cc;
  }
  group_keys-Grouped from (k ∷ ks) groups at reg h =
      let ((table, t), other) = reg.0 in
      let first : get_elem? owned from ≡ some k =
        subst (λ n. get_elem? owned n ≡ some k) (omega arith) (at 0 k refl) in
      let rest =
        group_keys-Grouped (suc from) ks (push_index k.namespace from groups)
          (λ m l e. subst (λ n. get_elem? owned n ≡ some l) (omega arith) (at (suc m) l e)) reg.1
          (push_index-groups HasTable Named k.namespace from groups (table, t) (k, first, refl)
            h) in
      record {
        groups' = rest.groups';
        so = rw (t, static_name k.namespace other t) rest.so;
        named = rest.named;
        keeps = λ j c. rest.keeps j (push_index-Covered k.namespace from j groups (inr c));
        covers = covers rest;
      }
    where
      covers :
          (rest : Grouped (suc from) ks (push_index k.namespace from groups)) (m : ℕ)
          (l : StorageKey)
          → get_elem? (k ∷ ks) m ≡ some l
          → Covered (from + m) rest.groups'
      covers rest zero l e =
          subst (λ n. Covered n rest.groups') (omega arith)
            (rest.keeps from (push_index-Covered k.namespace from from groups (inl refl)))
      covers rest (suc m) l e =
          subst (λ n. Covered n rest.groups') (omega arith) (rest.covers m l e)

-- A key in "eval_reports" stops the grouping.
pub group_keys-stops :
    (i : ℕ) (before after : List StorageKey) (key : StorageKey) (groups : List Group)
    → All IsRegistered (before ++ key ∷ after)
    → key.namespace ≡ eval_reports
    → group_keys i (before ++ key ∷ after) groups ≡ none
unfolding group_keys
group_keys-stops i [] after key groups h e =
    let missing : find_bytes key.namespace static_names ≡ none = rw e refl in
    rw (h.0.1, missing) refl
group_keys-stops i (k ∷ before) after key groups h e =
    elim (Option-cases (find_bytes k.namespace static_names)) [
      | inl missing ↦ rw (h.0.1, missing) refl
      | inr (name, found) ↦
          rw (h.0.1, found)
            (group_keys-stops (suc i) before after key (push_index name i groups) h.1 e)
    ]
