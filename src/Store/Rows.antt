-- ===== src/Store/Rows.antt =====
-- Lists of rows, as a scan returns them.
use rollout.Prelude.{◌≡◌, List, [], ◌∷◌, Option, none, some, if◌then◌else◌}
use rollout.Core.Ids.{Bytes}
use rollout.Core.Keys.{StorageKey, key_eq}

abbrev pub Row : Type 0
Row = StorageKey × Bytes

abbrev pub find_row : StorageKey → List (StorageKey × Bytes) → Option Bytes
find_row j [] = none
find_row j ((k, v) ∷ rows) = if key_eq k j then some v else find_row j rows

-- No key stands in two rows.
abbrev pub IsDistinct : List (StorageKey × Bytes) → Type 0
IsDistinct [] = Unit
IsDistinct ((k, v) ∷ rows) = (find_row k rows ≡ none) × IsDistinct rows
