-- ===== src/Store/Embedded/Many/Slots.antt =====
-- The slots of the answer of `get_many_bytes`, as its groups fill them.
use mathlib.Core.Path.{◌∙◌}
use rollout.Prelude.{
  ℕ, ◌==◌, ◌≡◌, refl, List, [], ◌∷◌, Option, none, some, All, Member, length, get_elem?, set,
  length-set, get_elem?-set_self, get_elem?-set_ne, Bool-cases, ==_iff, ◌⊎◌, inl, inr,
}
use rollout.Core.Ids.{Bytes}
use rollout.Core.Keys.{StorageKey}
use rollout.Core.Errors.{ok}
use rollout.Store.Embedded.{Redb, KeyCodec, table_for}
use rollout.Store.Embedded.View.{view, view-get}
use rollout.Store.Embedded.Many.{Group, store_found, found_at, read_group}

module _ ⦃redb : Redb⦄ ⦃keys : KeyCodec⦄ (owned : List StorageKey) (db : redb.Db) where
  -- The key at an index lies in the table.
  abbrev pub IndexOf : Bytes → ℕ → Type 0
  IndexOf table i =
      (k : StorageKey) × (get_elem? owned i ≡ some k) × (table_for k.namespace ≡ ok table)

  abbrev pub IsGroup : Group → Type 0
  IsGroup (name, idxs) = (table : Bytes) × (table_for name ≡ ok table) × All (IndexOf table) idxs

  -- Each slot is still empty or holds the value of its key.
  pub record Slots (out : List (Option Bytes)) : Type 0 where
    pub sized : length out ≡ length owned
    pub slot :
        (j : ℕ) (k : StorageKey)
        → get_elem? owned j ≡ some k
        → (get_elem? out j ≡ some none) ⊎ (get_elem? out j ≡ some (view db k))

  abbrev pub Filled : ℕ → List (Option Bytes) → Type 0
  Filled j out =
      (k : StorageKey) × (get_elem? owned j ≡ some k) × (get_elem? out j ≡ some (view db k))

  -- After a write of the value of a key at its index.
  record Stored (i : ℕ) (out out' : List (Option Bytes)) : Type 0 where
    slots : Slots out'
    fills : Filled i out'
    keeps : (j : ℕ) → Filled j out → Filled j out'

  set-Stored :
      (i : ℕ) (k : StorageKey) (v : Bytes) (out : List (Option Bytes))
      → get_elem? owned i ≡ some k
      → view db k ≡ some v
      → Slots out
      → Stored i out (set out i (some v))
  set-Stored i k v out at e s = record {
    slots = record { sized = length-set out i (some v) ∙ s.sized; slot = slot };
    fills = (k, at, here);
    keeps = keeps;
  }
    where
      here : get_elem? (set out i (some v)) i ≡ some (view db k)
      here = elim (s.slot i k at) [
        | inl empty ↦ cc (get_elem?-set_self out i (some v) empty, e)
        | inr full ↦ cc (get_elem?-set_self out i (some v) full, e)
      ]

      slot :
          (j : ℕ) (l : StorageKey)
          → get_elem? owned j ≡ some l
          → (get_elem? (set out i (some v)) j ≡ some none)
            ⊎ (get_elem? (set out i (some v)) j ≡ some (view db l))
      slot j l at' = elim (Bool-cases (i == j)) [
        | inl same ↦ let q : i ≡ j = (==_iff i j).0 same in inr (cc (q, at, at', here))
        | inr other ↦ rw (get_elem?-set_ne out i j (some v) other) (s.slot j l at')
      ]

      keeps : (j : ℕ) → Filled j out → Filled j (set out i (some v))
      keeps j (l, at', full) = elim (Bool-cases (i == j)) [
        | inl same ↦ let q : i ≡ j = (==_iff i j).0 same in (l, at', cc (q, at, at', here))
        | inr other ↦ (l, at', rw (get_elem?-set_ne out i j (some v) other) full)
      ]

  store-Stored :
      (i : ℕ) (k : StorageKey) (value : Option Bytes) (out : List (Option Bytes))
      → get_elem? owned i ≡ some k
      → view db k ≡ value
      → Slots out
      → Stored i out (store_found i value out)
  store-Stored i k (some v) out at e s = set-Stored i k v out at e s
  store-Stored i k none out at e s = record {
    slots = s;
    fills = (k, at, elim (s.slot i k at) [ inl empty ↦ cc (empty, e) | inr full ↦ full ]);
    keeps = λ j f. f;
  }

  -- After the reads of some indices.
  pub record Filling (idxs : List ℕ) (out out' : List (Option Bytes)) : Type 0 where
    pub slots : Slots out'
    pub fills : (j : ℕ) → Member j idxs → Filled j out'
    pub keeps : (j : ℕ) → Filled j out → Filled j out'

  pub read_group-Filling :
      (table : Bytes) (idxs : List ℕ) (out : List (Option Bytes))
      → All (IndexOf table) idxs
      → Slots out
      → Filling idxs out (read_group owned table db idxs out)
  unfolding read_group
  read_group-Filling table [] out h s = record {
    slots = s;
    fills = λ j m. absurd m;
    keeps = λ j f. f;
  }
  read_group-Filling table (i ∷ idxs) out h s =
      let (k, at, reg) = h.0 in
      let value : found_at table db (get_elem? owned i) ≡ view db k =
        rw (at, found_at) (view-get db k reg) in
      let st : Stored i out (store_found i (found_at table db (get_elem? owned i)) out) =
        rw value (store-Stored i k (view db k) out at refl s) in
      let rest =
        read_group-Filling table idxs (store_found i (found_at table db (get_elem? owned i)) out)
          h.1 st.slots in
      record {
        slots = rest.slots;
        fills = λ j m. elim m [
          | inl same ↦ rw same (rest.keeps i st.fills)
          | inr later ↦ rest.fills j later
        ];
        keeps = λ j f. rest.keeps j (st.keeps j f);
      }
