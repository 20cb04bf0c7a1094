-- ===== src/Store/Assoc.antt =====
-- A store over a list of rows: a concrete instance of the interface, for runs on concrete inputs.
use rollout.Prelude.{◌≡◌, refl, List, [], ◌∷◌, none, some, if◌then◌else◌, arith}
use rollout.Core.Ids.{Bytes}
use rollout.Core.Keys.{StorageKey, key_eq, key_has_prefix, key_eq→eq, key_eq_refl}
use rollout.Store.Rows.{find_row, IsDistinct}
use rollout.Store.Interface.{Storage}

abbrev Rows : Type 0
Rows = List (StorageKey × Bytes)

unfoldable pub put_row : StorageKey → Bytes → Rows → Rows
put_row k v [] = (k, v) ∷ []
put_row k v ((j, w) ∷ rows) = if key_eq j k then (k, v) ∷ rows else (j, w) ∷ put_row k v rows

unfoldable pub delete_row : StorageKey → Rows → Rows
delete_row k [] = []
delete_row k ((j, w) ∷ rows) = if key_eq j k then delete_row k rows else (j, w) ∷ delete_row k rows

-- A later row with the same key is hidden by the first.
unfoldable pub scan_rows : StorageKey → Rows → Rows
scan_rows p [] = []
scan_rows p ((k, v) ∷ rows) =
    if key_has_prefix k p then (k, v) ∷ delete_row k (scan_rows p rows) else scan_rows p rows

pub find-put_row :
    (j k : StorageKey) (v : Bytes) (rows : Rows)
    → find_row j (put_row k v rows) ≡ (if key_eq k j then some v else find_row j rows)
unfolding put_row
find-put_row j k v [] = refl
find-put_row j k v ((i, w) ∷ rows) =
    ground
      (arith, key_eq→eq i k, key_eq→eq k j, key_eq→eq i j, key_eq_refl j, find-put_row j k v rows)

pub find-delete_row :
    (j k : StorageKey) (rows : Rows)
    → find_row j (delete_row k rows) ≡ (if key_eq k j then none else find_row j rows)
unfolding delete_row
find-delete_row j k [] = ground arith
find-delete_row j k ((i, w) ∷ rows) =
    ground
      (arith, key_eq→eq i k, key_eq→eq k j, key_eq→eq i j, key_eq_refl j, find-delete_row j k rows)

pub find-scan_rows :
    (j p : StorageKey) (rows : Rows)
    → find_row j (scan_rows p rows) ≡ (if key_has_prefix j p then find_row j rows else none)
unfolding scan_rows
find-scan_rows j p [] = ground arith
find-scan_rows j p ((k, v) ∷ rows) =
    ground (arith, key_eq→eq k j, find-delete_row j k (scan_rows p rows), find-scan_rows j p rows)

delete_row-IsDistinct :
    (k : StorageKey) (rows : Rows) → IsDistinct rows → IsDistinct (delete_row k rows)
unfolding delete_row
delete_row-IsDistinct k [] h = tt
delete_row-IsDistinct k ((i, w) ∷ rows) h =
    ground (arith, delete_row-IsDistinct k rows h.1, find-delete_row i k rows)

pub scan_rows-IsDistinct : (p : StorageKey) (rows : Rows) → IsDistinct (scan_rows p rows)
unfolding scan_rows
scan_rows-IsDistinct p [] = tt
scan_rows-IsDistinct p ((k, v) ∷ rows) = ground (
  arith,
  scan_rows-IsDistinct p rows,
  delete_row-IsDistinct k (scan_rows p rows) (scan_rows-IsDistinct p rows),
  find-delete_row k k (scan_rows p rows),
  key_eq_refl k,
)

instance abbrev pub assoc_storage : Storage
assoc_storage = record {
  Contents = List (StorageKey × Bytes);
  get_bytes = find_row;
  put_bytes = put_row;
  delete = delete_row;
  scan_bytes = scan_rows;
  get-put = find-put_row;
  get-delete = find-delete_row;
  find-scan = find-scan_rows;
  scan-IsDistinct = scan_rows-IsDistinct;
}
