-- ===== src/Store/Embedded/Limit.antt =====
-- The scan of a table under a prefix, with a limit.
use mathlib.Core.List.{append-nil, append_assoc}
use rollout.Prelude.{
  ℕ, zero, suc, ◌+◌, ◌≡◌, refl, true, false, max, leb, List, [], ◌∷◌, ◌++◌, Option, none, some,
  if◌then◌else◌, arith, All, take, length, length-append, Bool-cases, inl, inr,
}
use rollout.Core.Ids.{Bytes, RunId}
use rollout.Core.Keys.{StorageKey, key_has_prefix}
use rollout.Core.Errors.{ok}
use rollout.Store.Embedded.{Redb, KeyCodec, table_for, candidate, scan_loop, scan_bytes}

module _ ⦃keys : KeyCodec⦄ where
  abbrev match_row :
      StorageKey
      → Bytes
      → List (StorageKey × Bytes)
      → Option (Option RunId × List Bytes)
      → List (StorageKey × Bytes)
  match_row prefix value rest none = rest
  match_row prefix value rest (some payload) =
      if key_has_prefix (candidate prefix payload) prefix
      then (candidate prefix payload, value) ∷ rest
      else rest

  -- The rows under a prefix, in the order of the table.
  abbrev pub matched : StorageKey → List (Bytes × Bytes) → List (StorageKey × Bytes)
  matched prefix [] = []
  matched prefix ((key, value) ∷ rows) =
      match_row prefix value (matched prefix rows) (keys.from_bytes key)

  -- The bytes of every key are those of a key.
  abbrev pub Decodes : List (Bytes × Bytes) → Type 0
  Decodes = All (λ e. (payload : Option RunId × List Bytes) × (keys.from_bytes e.0 ≡ some payload))

  scan_loop-all :
      (prefix : StorageKey) (rows : List (Bytes × Bytes)) (out : List (StorageKey × Bytes))
      → Decodes rows
      → scan_loop prefix none rows out ≡ ok (out ++ matched prefix rows)
  unfolding scan_loop
  scan_loop-all prefix [] out h = rw append-nil refl
  scan_loop-all prefix ((key, value) ∷ rows) out h =
      let (payload, e) = h.0 in
      elim (Bool-cases (key_has_prefix (candidate prefix payload) prefix)) [
        | inl hit ↦
            rw
              (
                e,
                hit,
                scan_loop-all prefix rows (out ++ (candidate prefix payload, value) ∷ []) h.1,
                append_assoc,
              )
              refl
        | inr miss ↦ rw (e, miss, scan_loop-all prefix rows out h.1) refl
      ]

  reached :
      (limit : ℕ) (out : List (StorageKey × Bytes)) (row : StorageKey × Bytes)
      → length out + 1 ≡ max limit 1
      → leb limit (length (out ++ row ∷ [])) ≡ true
  reached limit out row room = ground (arith, length-append out (row ∷ []))

  unreached :
      (limit free : ℕ) (out : List (StorageKey × Bytes)) (row : StorageKey × Bytes)
      → length out + suc (suc free) ≡ max limit 1
      → leb limit (length (out ++ row ∷ [])) ≡ false
  unreached limit free out row room = ground (arith, length-append out (row ∷ []))

  -- `free` is the room that is left.
  scan_loop-take :
      (prefix : StorageKey) (limit free : ℕ) (rows : List (Bytes × Bytes))
      (out : List (StorageKey × Bytes))
      → Decodes rows
      → length out + suc free ≡ max limit 1
      → scan_loop prefix (some limit) rows out ≡ ok (out ++ take (suc free) (matched prefix rows))
  unfolding scan_loop
  scan_loop-take prefix limit free [] out h room = rw append-nil refl
  scan_loop-take prefix limit zero ((key, value) ∷ rows) out h room =
      let (payload, e) = h.0 in
      elim (Bool-cases (key_has_prefix (candidate prefix payload) prefix)) [
        | inl hit ↦ rw (e, hit, reached limit out (candidate prefix payload, value) room) refl
        | inr miss ↦ rw (e, miss, scan_loop-take prefix limit zero rows out h.1 room) refl
      ]
  scan_loop-take prefix limit (suc free) ((key, value) ∷ rows) out h room =
      let (payload, e) = h.0 in
      elim (Bool-cases (key_has_prefix (candidate prefix payload) prefix)) [
        | inl hit ↦
            let row : StorageKey × Bytes = (candidate prefix payload, value) in
            rw
              (
                e,
                hit,
                unreached limit free out row room,
                scan_loop-take prefix limit free rows (out ++ row ∷ []) h.1
                    (omega (arith, room, length-append out (row ∷ []))),
                append_assoc,
              )
              refl
        | inr miss ↦ rw (e, miss, scan_loop-take prefix limit (suc free) rows out h.1 room) refl
      ]

module _ ⦃redb : Redb⦄ ⦃keys : KeyCodec⦄ where
  -- Where the bytes of every key in the table decode, a scan with no limit returns the rows under
  -- the prefix in the order of the table, and a scan with a limit the first of them, as many as the
  -- limit says but at least one: a limit of zero returns a row where there is one.
  pub scan_bytes-takes :
      (prefix : StorageKey) (db : redb.Db) {table : Bytes}
      → table_for prefix.namespace ≡ ok table
      → Decodes (redb.iter table db)
      → (scan_bytes prefix none db ≡ ok (matched prefix (redb.iter table db)))
        × ((limit : ℕ)
            → scan_bytes prefix (some limit) db
              ≡ ok (take (max limit 1) (matched prefix (redb.iter table db))))
  unfolding scan_bytes
  scan_bytes-takes prefix db {table} h d = (
    rw (h, scan_bytes) (scan_loop-all prefix (redb.iter table db) [] d),
    λ limit. rw (h, scan_bytes) (limited limit (max limit 1) refl),
  )
    where
      limited :
          (limit most : ℕ)
          → most ≡ max limit 1
          → scan_loop prefix (some limit) (redb.iter table db) []
            ≡ ok (take most (matched prefix (redb.iter table db)))
      limited limit zero e = absurd (omega (arith, e))
      limited limit (suc free) e =
          scan_loop-take prefix limit free (redb.iter table db) [] d (omega (arith, e))
