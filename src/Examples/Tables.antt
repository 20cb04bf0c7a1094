-- ===== src/Examples/Tables.antt =====
-- The embedded store over a list of rows for the tables of redb.
use rollout.Prelude.{
  All, ℕ, zero, suc, ◌≡◌, refl, ap, true, false, ◌&&◌, List, [], ◌∷◌, Option, none, some,
  if◌then◌else◌, arith, map, take, max, codes, bytes_eq, bytes_eq→eq, bytes_eq_refl, Bool-cases,
  inl, inr,
}
use rollout.Core.Ids.{Bytes, RunId}
use rollout.Core.Keys.{StorageKey}
use rollout.Core.Errors.{ok, err, fatal, internal}
use rollout.Store.Embedded.{
  Redb, KeyCodec, find_bytes, table_for, encode_key, put, delete, EmbeddedStorage, publish,
  publish_all, begin, commit, get_bytes, put_bytes, delete_key, cas_bytes, scan_loop, scan_bytes,
}
use rollout.Store.Embedded.View.{view}
use rollout.Store.Embedded.Commit.{puts, deletes, swaps, Committed, run_calls-Committed}
use rollout.Store.Embedded.Limit.{matched, scan_bytes-takes}
use rollout.Store.Embedded.Many.{get_many_bytes}
use rollout.Store.Embedded.Many.Reads.{get_many_bytes-map, get_many_bytes-fails}

abbrev Row : Type 0
Row = Bytes × Bytes × Bytes

abbrev get : Bytes → Bytes → List Row → Option Bytes
get u j [] = none
get u j ((t, k, v) ∷ db) = if bytes_eq t u && bytes_eq k j then some v else get u j db

abbrev remove : Bytes → Bytes → List Row → List Row
remove u j [] = []
remove u j ((t, k, v) ∷ db) =
    if bytes_eq u t && bytes_eq j k then remove u j db else (t, k, v) ∷ remove u j db

abbrev iter : Bytes → List Row → List (Bytes × Bytes)
iter u [] = []
iter u ((t, k, v) ∷ db) = if bytes_eq t u then (k, v) ∷ iter u db else iter u db

get-remove :
    (u t j k : Bytes) (db : List Row)
    → get u j (remove t k db) ≡ (if bytes_eq t u && bytes_eq k j then none else get u j db)
get-remove u t j k [] = ground arith
get-remove u t j k ((t', k', v) ∷ db) = elim (Bool-cases (bytes_eq t t' && bytes_eq k k')) [
  | inl same ↦ ground (arith, same, get-remove u t j k db, bytes_eq→eq t t', bytes_eq→eq k k')
  | inr other ↦ rw other (ground (arith, other, get-remove u t j k db, apart other))
]
  where
    apart :
        (bytes_eq t t' && bytes_eq k k') ≡ false
        → (bytes_eq t u && bytes_eq k j) ≡ true
        → (bytes_eq t' u && bytes_eq k' j) ≡ false
    apart other here = elim (Bool-cases (bytes_eq t' u && bytes_eq k' j)) [
      | inl there ↦
          let a : t ≡ u = bytes_eq→eq t u (ground arith) in
          let b : k ≡ j = bytes_eq→eq k j (ground arith) in
          let c : t' ≡ u = bytes_eq→eq t' u (ground arith) in
          let d : k' ≡ j = bytes_eq→eq k' j (ground arith) in
          absurd (cc (other, a, b, c, d, bytes_eq_refl u, bytes_eq_refl j))
      | inr there ↦ there
    ]

get-insert :
    (u t j k v : Bytes) (db : List Row)
    → get u j ((t, k, v) ∷ remove t k db)
      ≡ (if bytes_eq t u && bytes_eq k j then some v else get u j db)
get-insert u t j k v db = ground (arith, get-remove u t j k db)

find-iter : (t k : Bytes) (db : List Row) → find_bytes k (iter t db) ≡ get t k db
find-iter t k [] = refl
find-iter t k ((t', k', v) ∷ db) = ground (arith, find-iter t k db)

instance abbrev rows : Redb
rows = record {
  Db = List Row;
  get = get;
  insert = λ t k v db. (t, k, v) ∷ remove t k db;
  remove = remove;
  iter = iter;
  get-insert = get-insert;
  get-remove = get-remove;
  find-iter = find-iter;
}

-- Each segment ends in a zero.
abbrev segment_bytes : Bytes → Bytes → Bytes
segment_bytes [] rest = 0 ∷ rest
segment_bytes (b ∷ bs) rest = suc b ∷ segment_bytes bs rest

abbrev path_bytes : List Bytes → Bytes
path_bytes [] = []
path_bytes (segment ∷ path) = segment_bytes segment (path_bytes path)

abbrev onto_first : ℕ → List Bytes → List Bytes
onto_first b [] = (b ∷ []) ∷ []
onto_first b (segment ∷ path) = (b ∷ segment) ∷ path

abbrev segments : Bytes → List Bytes
segments [] = []
segments (zero ∷ bs) = [] ∷ segments bs
segments (suc b ∷ bs) = onto_first b (segments bs)

segments-segment_bytes :
    (segment rest : Bytes) → segments (segment_bytes segment rest) ≡ segment ∷ segments rest
segments-segment_bytes [] rest = refl
segments-segment_bytes (b ∷ bs) rest = ap (onto_first b) (segments-segment_bytes bs rest)

segments-path_bytes : (path : List Bytes) → segments (path_bytes path) ≡ path
segments-path_bytes [] = refl
segments-path_bytes (segment ∷ path) =
    rw (segments-segment_bytes segment (path_bytes path), segments-path_bytes path) refl

abbrev key_bytes : Option RunId → List Bytes → Bytes
key_bytes none path = 0 ∷ path_bytes path
key_bytes (some r) path = 1 ∷ r ∷ path_bytes path

abbrev key_of_bytes : Bytes → Option (Option RunId × List Bytes)
key_of_bytes (zero ∷ bs) = some (none, segments bs)
key_of_bytes (suc zero ∷ r ∷ bs) = some (some r, segments bs)
key_of_bytes _ = none

key_round_trip :
    (run_id : Option RunId) (path : List Bytes)
    → key_of_bytes (key_bytes run_id path) ≡ some (run_id, path)
key_round_trip none path = rw (segments-path_bytes path) refl
key_round_trip (some r) path = rw (segments-path_bytes path) refl

instance abbrev plain_keys : KeyCodec
plain_keys = record {
  to_allocvec = key_bytes;
  from_bytes = key_of_bytes;
  round_trip = key_round_trip;
}

abbrev work_7 : StorageKey
work_7 = record { namespace = codes "work"; run_id = some 7; path = codes "a" ∷ [] }

abbrev work_8 : StorageKey
work_8 = record { namespace = codes "work"; run_id = some 8; path = codes "b" ∷ [] }

abbrev the_epoch : StorageKey
the_epoch = record { namespace = codes "epoch"; run_id = none; path = [] }

-- One row of work, and a channel on the work of run 7.
abbrev start : EmbeddedStorage
start = record {
  db = (codes "work", encode_key work_7, 1 ∷ []) ∷ [];
  watch = (record work_7 { path = [] }, []) ∷ [];
}

work_table : table_for (codes "work") ≡ ok (codes "work")
unfolding table_for
work_table = refl

epoch_table : table_for (codes "epoch") ≡ ok (codes "epoch")
unfolding table_for
epoch_table = refl

reports_table : table_for (codes "eval_reports") ≡ ok (codes "eval_reports")
unfolding table_for
reports_table = refl

run_calls-Committed_example :
    Committed
      (swaps work_7 (some (1 ∷ [])) (some (2 ∷ []))
        ∷ puts work_8 (3 ∷ [])
        ∷ swaps the_epoch (some []) none
        ∷ deletes work_7
        ∷ [])
      start
run_calls-Committed_example = run_calls-Committed _ start (
  (codes "work", work_table),
  ((codes "work", work_table), ((codes "epoch", epoch_table), ((codes "work", work_table), tt))),
)

-- The swap and the deletion of the row of run 7 are told to its channel.
told_of_run_7 :
    (let (r, t₁) = cas_bytes work_7 (some (1 ∷ [])) (some (2 ∷ [])) (begin start) in
      let (r₂, t₂) = put_bytes work_8 (3 ∷ []) t₁ in
      let (r₃, t₃) = delete_key work_7 t₂ in (commit t₃ start).1.watch)
    ≡ (record work_7 { path = [] }, put work_7 ∷ delete work_7 ∷ []) ∷ []
unfolding begin cas_bytes put_bytes delete_key commit publish_all publish table_for
told_of_run_7 = refl

abbrev two_rows : List Row
two_rows =
    (codes "work", encode_key work_7, 1 ∷ [])
    ∷ (codes "epoch", encode_key the_epoch, 5 ∷ [])
    ∷ (codes "work", encode_key work_8, 2 ∷ [])
    ∷ []

abbrev all_work : StorageKey
all_work = record { namespace = codes "work"; run_id = none; path = [] }

-- A limit of zero gives a row.
limit_zero : scan_bytes all_work (some 0) two_rows ≡ ok ((work_7, 1 ∷ []) ∷ [])
unfolding scan_bytes scan_loop table_for
limit_zero = refl

scan_bytes-takes_example :
    (scan_bytes all_work none two_rows ≡ ok (matched all_work (iter (codes "work") two_rows)))
    × ((limit : ℕ)
        → scan_bytes all_work (some limit) two_rows
          ≡ ok (take (max limit 1) (matched all_work (iter (codes "work") two_rows))))
scan_bytes-takes_example =
    scan_bytes-takes all_work two_rows work_table
      (((some 7, codes "a" ∷ []), refl), (((some 8, codes "b" ∷ []), refl), tt))

get_many_bytes-map_example :
    get_many_bytes (λ groups. groups) (work_8 ∷ the_epoch ∷ work_7 ∷ []) two_rows
    ≡ ok (map (view two_rows) (work_8 ∷ the_epoch ∷ work_7 ∷ []))
get_many_bytes-map_example =
    get_many_bytes-map (work_8 ∷ the_epoch ∷ work_7 ∷ []) two_rows (λ groups. groups)
      (λ groups g. (λ m. m, λ m. m))
      (
        ((codes "work", work_table), refl),
        (((codes "epoch", epoch_table), refl), (((codes "work", work_table), refl), tt)),
      )

abbrev report : StorageKey
report = record { namespace = codes "eval_reports"; run_id = some 7; path = [] }

get_many_bytes-fails_example :
    All (λ k. get_bytes k two_rows ≡ ok (view two_rows k)) (work_7 ∷ report ∷ [])
    × (get_many_bytes (λ groups. groups) (work_7 ∷ report ∷ []) two_rows
        ≡ err (fatal (internal "join: ")))
get_many_bytes-fails_example =
    get_many_bytes-fails (λ groups. groups) (work_7 ∷ []) [] report two_rows
      ((codes "work", work_table), ((codes "eval_reports", reports_table), tt)) refl

-- A read of the report by itself finds none.
report_alone : get_bytes report two_rows ≡ ok none
unfolding get_bytes table_for
report_alone = refl
