-- ===== src/Store/Scan.antt =====
-- What a scan returns, row by row.
use rollout.Prelude.{◌≡◌, true, List, [], ◌∷◌, none, some, arith, All}
use rollout.Core.Ids.{Bytes}
use rollout.Core.Keys.{StorageKey, key_has_prefix, key_eq→eq, key_eq_refl}
use rollout.Store.Interface.{Storage}
use rollout.Store.Rows.{find_row, IsDistinct}

All-found :
    (k : StorageKey) (v : Bytes) (rows all : List (StorageKey × Bytes))
    → find_row k all ≡ none
    → All (λ e. find_row e.0 all ≡ some e.1) rows
    → All (λ e. find_row e.0 ((k, v) ∷ all) ≡ some e.1) rows
All-found k v [] all fresh h = tt
All-found k v ((j, w) ∷ rows) all fresh h =
    (ground (arith, key_eq→eq k j, h.0), All-found k v rows all fresh h.1)

-- Each row of a list without duplicates is found under its key.
rows-found :
    (rows : List (StorageKey × Bytes))
    → IsDistinct rows
    → All (λ e. find_row e.0 rows ≡ some e.1) rows
rows-found [] h = tt
rows-found ((k, v) ∷ rows) h =
    (rw (key_eq_refl k, find_row), All-found k v rows rows h.0 (rows-found rows h.1))

module _ ⦃st : Storage⦄ where
  -- A row of a scan lies under the prefix, and its value is the one that the store holds.
  abbrev pub Scanned : StorageKey → st.Contents → StorageKey × Bytes → Type 0
  Scanned p c e = (key_has_prefix e.0 p ≡ true) × (st.get_bytes e.0 c ≡ some e.1)

  found-Scanned :
      (p : StorageKey) (c : st.Contents) (e : StorageKey × Bytes)
      → find_row e.0 (st.scan_bytes p c) ≡ some e.1
      → Scanned p c e
  found-Scanned p c e h = ground (arith, st.find-scan e.0 p c)

  All-Scanned :
      (p : StorageKey) (c : st.Contents) (rows : List (StorageKey × Bytes))
      → All (λ e. find_row e.0 (st.scan_bytes p c) ≡ some e.1) rows
      → All (Scanned p c) rows
  All-Scanned p c [] h = tt
  All-Scanned p c (e ∷ rows) h = (found-Scanned p c e h.0, All-Scanned p c rows h.1)

  pub scan-Scanned : (p : StorageKey) (c : st.Contents) → All (Scanned p c) (st.scan_bytes p c)
  scan-Scanned p c =
      All-Scanned p c (st.scan_bytes p c) (rows-found (st.scan_bytes p c) (st.scan-IsDistinct p c))
