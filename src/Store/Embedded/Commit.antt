-- ===== src/Store/Embedded/Commit.antt =====
-- What a transaction does to the contents and to the watchers, against a map with a log of events.
use mathlib.Core.Path.{fun_ext, sym, ◌∙◌}
use mathlib.Core.List.{append-nil, append_assoc}
use rollout.Prelude.{
  ◌≡◌, refl, Bool, true, List, [], ◌∷◌, ◌++◌, Option, none, some, if◌then◌else◌, arith, All, keep,
  map, Bool-cases, inl, inr,
}
use rollout.Core.Ids.{Bytes}
use rollout.Core.Keys.{StorageKey, key_eq, key_eq→eq}
use rollout.Core.Errors.{Result, ok, err}
use rollout.Store.Cas.{value_eq}
use rollout.Store.Embedded.{
  Redb, KeyCodec, StorageEvent, put, event_key, prefix_matches, Channel, publish, publish_all,
  EmbeddedStorage, EmbeddedTxn, begin, commit, abort, table_for, encode_key, put_bytes, deleted,
  delete_key, swapped, cas_bytes,
}
use rollout.Store.Embedded.View.{IsRegistered, view, view-get, view-insert, view-remove}

-- A call on a transaction.
pub data Call : Type 0 where
  puts : StorageKey → Bytes → Call
  deletes : StorageKey → Call
  swaps : StorageKey → Option Bytes → Option Bytes → Call

abbrev pub call_key : Call → StorageKey
call_key (puts key v) = key
call_key (deletes key) = key
call_key (swaps key expected new) = key

-- The contents as a map.
abbrev pub Map : Type 0
Map = StorageKey → Option Bytes

abbrev pub update : Map → StorageKey → Option Bytes → Map
update m key v = λ j. if key_eq key j then v else m j

-- What a call makes of a map.
abbrev pub after : Call → Map → Map
after (puts key v) m = update m key (some v)
after (deletes key) m = update m key none
after (swaps key expected new) m = if value_eq (m key) expected then update m key new else m

-- The events of a write of a value over another.
abbrev pub written : StorageKey → Option Bytes → Option Bytes → List StorageEvent
written key current (some v) = put key ∷ []
written key current none = deleted key current

abbrev pub events : Call → Map → List StorageEvent
events (puts key v) m = put key ∷ []
events (deletes key) m = deleted key (m key)
events (swaps key expected new) m =
    if value_eq (m key) expected then written key (m key) new else []

-- A swap answers whether it was made.
abbrev pub answer : Call → Map → Bool
answer (puts key v) m = true
answer (deletes key) m = true
answer (swaps key expected new) m = value_eq (m key) expected

-- The map, the events and the answers of a sequence of calls.
abbrev pub after_all : List Call → Map → Map
after_all [] m = m
after_all (c ∷ calls) m = after_all calls (after c m)

abbrev pub all_events : List Call → Map → List StorageEvent
all_events [] m = []
all_events (c ∷ calls) m = events c m ++ all_events calls (after c m)

abbrev pub answers : List Call → Map → List Bool
answers [] m = []
answers (c ∷ calls) m = answer c m ∷ answers calls (after c m)

abbrev done : {A : Type 0} → Result (Unit {0}) × A → Result Bool × A
done (err e, a) = (err e, a)
done (ok u, a) = (ok true, a)

-- What a channel has been sent after some events: those that match its prefix, in their order.
abbrev pub told : List StorageEvent → Channel → Channel
told pending (prefix, sent) =
    (prefix, sent ++ keep (λ event. prefix_matches prefix (event_key event)) pending)

map-told-nil : (channels : List Channel) → map (told []) channels ≡ channels
unfolding keep
map-told-nil [] = refl
map-told-nil ((prefix, sent) ∷ channels) = rw (append-nil, map-told-nil channels) refl

told-publish :
    (event : StorageEvent) (pending : List StorageEvent) (channels : List Channel)
    → map (told pending) (publish event channels) ≡ map (told (event ∷ pending)) channels
unfolding publish keep
told-publish event pending [] = refl
told-publish event pending ((prefix, sent) ∷ channels) =
    elim (Bool-cases (prefix_matches prefix (event_key event))) [
      | inl e ↦ rw (e, told-publish event pending channels, append_assoc) refl
      | inr e ↦ rw (e, told-publish event pending channels) refl
    ]

publish_all-told :
    (pending : List StorageEvent) (channels : List Channel)
    → publish_all pending channels ≡ map (told pending) channels
unfolding publish_all
publish_all-told [] channels = sym (map-told-nil channels)
publish_all-told (event ∷ pending) channels =
    publish_all-told pending (publish event channels) ∙ told-publish event pending channels

module _ ⦃redb : Redb⦄ ⦃keys : KeyCodec⦄ where
  abbrev pub call : Call → EmbeddedTxn → Result Bool × EmbeddedTxn
  call (puts key v) t = done (put_bytes key v t)
  call (deletes key) t = done (delete_key key t)
  call (swaps key expected new) t = cas_bytes key expected new t

  abbrev answered : Bool → Result (List Bool) × EmbeddedTxn → Result (List Bool) × EmbeddedTxn
  answered b (err e, t) = (err e, t)
  answered b (ok bs, t) = (ok (b ∷ bs), t)

  -- A sequence of calls with `?` after each: an error ends it.
  abbrev pub calls_from :
      (EmbeddedTxn → Result (List Bool) × EmbeddedTxn)
      → Result Bool × EmbeddedTxn
      → Result (List Bool) × EmbeddedTxn
  calls_from rest (err e, t) = (err e, t)
  calls_from rest (ok b, t) = answered b (rest t)

  abbrev pub run_calls : List Call → EmbeddedTxn → Result (List Bool) × EmbeddedTxn
  run_calls [] t = (ok [], t)
  run_calls (c ∷ calls) t = calls_from (run_calls calls) (call c t)

  abbrev open_txn : redb.Db → List StorageEvent → EmbeddedTxn
  open_txn db pending = record { txn = some db; pending = pending }

  -- One call, on an open transaction.
  record Steps (c : Call) (db : redb.Db) (pending : List StorageEvent) : Type 0 where
    db' : redb.Db
    answers_so :
        call c (open_txn db pending)
        ≡ (ok (answer c (view db)), open_txn db' (pending ++ events c (view db)))
    contents : view db' ≡ after c (view db)

  -- What a swap leaves, by the value that it found.
  record Swaps (key : StorageKey) (current new : Option Bytes) (table : Bytes) (db : redb.Db)
      : Type 0 where
    db' : redb.Db
    so : swapped key current new table db ≡ (true, db', written key current new)
    contents : view db' ≡ update (view db) key new

  swapped-Swaps :
      (key : StorageKey) (current new : Option Bytes) (table : Bytes) (db : redb.Db)
      → table_for key.namespace ≡ ok table
      → view db key ≡ current
      → Swaps key current new table db
  swapped-Swaps key current (some v) table db h e = record {
    db' = redb.insert table (encode_key key) v db;
    so = refl;
    contents = fun_ext (λ j. view-insert j key v db h);
  }
  swapped-Swaps key none none table db h e = record {
    db' = db;
    so = refl;
    contents = fun_ext absent;
  }
    where
      absent : (j : StorageKey) → view db j ≡ (if key_eq key j then none else view db j)
      absent j = ground (arith, key_eq→eq key j)
  swapped-Swaps key (some prev) none table db h e = record {
    db' = redb.remove table (encode_key key) db;
    so = refl;
    contents = fun_ext (λ j. view-remove j key db h);
  }

  call-Steps :
      (c : Call) (db : redb.Db) (pending : List StorageEvent)
      → IsRegistered (call_key c)
      → Steps c db pending
  unfolding put_bytes delete_key cas_bytes
  call-Steps (puts key v) db pending (t, h) = record {
    db' = redb.insert t (encode_key key) v db;
    answers_so = rw h refl;
    contents = fun_ext (λ j. view-insert j key v db h);
  }
  call-Steps (deletes key) db pending (t, h) = record {
    db' = redb.remove t (encode_key key) db;
    answers_so = rw (h, view-get db key h) refl;
    contents = fun_ext (λ j. view-remove j key db h);
  }
  call-Steps (swaps key expected new) db pending (t, h) =
      elim (Bool-cases (value_eq (view db key) expected)) [
        | inl hit ↦
            let s = swapped-Swaps key (view db key) new t db h refl in
            record {
              db' = s.db';
              answers_so = rw (h, view-get db key h, hit, s.so) refl;
              contents = rw hit s.contents;
            }
        | inr miss ↦ record {
          db' = db;
          answers_so = rw (h, view-get db key h, miss) refl;
          contents = rw miss refl;
        }
      ]

  -- The calls of a transaction, from where it stands.
  record Runs (calls : List Call) (db : redb.Db) (pending : List StorageEvent) : Type 0 where
    db' : redb.Db
    answers_so :
        run_calls calls (open_txn db pending)
        ≡ (ok (answers calls (view db)), open_txn db' (pending ++ all_events calls (view db)))
    contents : view db' ≡ after_all calls (view db)

  run_calls-Runs :
      (calls : List Call) (db : redb.Db) (pending : List StorageEvent)
      → All (λ c. IsRegistered (call_key c)) calls
      → Runs calls db pending
  run_calls-Runs [] db pending h = record {
    db' = db;
    answers_so = rw append-nil refl;
    contents = refl;
  }
  run_calls-Runs (c ∷ calls) db pending h =
      let s = call-Steps c db pending h.0 in
      let r = run_calls-Runs calls s.db' (pending ++ events c (view db)) h.1 in
      record {
        db' = r.db';
        answers_so = rw (s.answers_so, r.answers_so, s.contents, append_assoc) refl;
        contents = rw (r.contents, s.contents) refl;
      }

  -- What the calls of a transaction and its commit leave.
  pub record Committed (calls : List Call) (storage : EmbeddedStorage) : Type 0 where
    pub txn : EmbeddedTxn
    pub storage' : EmbeddedStorage
    pub ran : run_calls calls (begin storage) ≡ (ok (answers calls (view storage.db)), txn)
    pub commits : commit txn storage ≡ (ok tt, storage')
    pub contents : view storage'.db ≡ after_all calls (view storage.db)
    pub watchers : storage'.watch ≡ map (told (all_events calls (view storage.db))) storage.watch
    pub aborts : abort txn storage ≡ (ok tt, storage)

  -- A transaction refines a map with a log of events. Its calls, on keys of registered namespaces,
  -- answer as they would on the map of the committed contents; a commit makes the contents that of
  -- the map after the calls, and sends each channel the events that match its prefix, in the order
  -- of the calls; an abort leaves contents and channels as they were.
  pub run_calls-Committed :
      (calls : List Call) (storage : EmbeddedStorage)
      → All (λ c. IsRegistered (call_key c)) calls
      → Committed calls storage
  unfolding begin commit abort
  run_calls-Committed calls storage h =
      let r = run_calls-Runs calls storage.db [] h in
      record {
        txn = open_txn r.db' (all_events calls (view storage.db));
        storage' = record {
          db = r.db';
          watch = publish_all (all_events calls (view storage.db)) storage.watch;
        };
        ran = r.answers_so;
        commits = refl;
        contents = r.contents;
        watchers = publish_all-told (all_events calls (view storage.db)) storage.watch;
        aborts = refl;
      }
