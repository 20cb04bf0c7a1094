-- ===== src/Examples/Batches.antt =====
-- A batch of two samples, one of them done before the restart.
use rollout.Prelude.{
  Option, Bool-cases, inl, inr, keep, ℕ, ◌≡◌, refl, true, false, List, [], ◌∷◌, ◌++◌, some, none,
  codes,
}
use rollout.Prelude.Sort.{sort_by, insert_by}
use rollout.Core.Ids.{Bytes, content_str, hex_digit}
use rollout.Core.Errors.{Result, ok}
use rollout.Core.Keys.{StorageKey, key_eq, key_eq→eq}
use rollout.Core.Parse.{from_str, parse_pairs, hex_pair, hex_value}
use rollout.Store.{encode, decode, cas_bytes, store_new}
use rollout.Store.Assoc.{assoc_storage, find-put_row, put_row, delete_row, scan_rows}
use rollout.Batch.{
  SampleState, done, SampleRecord, sample_key, sample_id, id_input, le_bytes, swap_sample,
  try_claim, try_complete, try_repending,
}
use rollout.Batch.Plan.{
  ObjectStore, Site, BatchCoordinator, push, plan_new, plan_old, plan_row, plan_item,
  scan_and_enqueue, sample_prefix, done_of, collect_done_records,
}
use rollout.Batch.Work.{
  completed, BatchWorker, texts, Floor, Around, finish_text, finish, generate_for, run_record,
  run_row, run_item, run_from, run_one, run_loop,
}
use rollout.Batch.Resume.{Beside, Kept, scan_and_enqueue-Kept}
use rollout.Batch.Finish.{TurnReported, run_one-Reported}
use rollout.Batch.Loop.{run_loop-returns}
use rollout.Batch.Collect.{Collected, collect_done_records-Collected}
use rollout.Examples.Data.{sample_codec, plain_hash}

-- A blob is its own id, and is always there.
instance abbrev plain_objects : ObjectStore
plain_objects = record {
  Blobs = Unit {0};
  put_blob = λ bytes blobs. ok (bytes, blobs);
  get_blob = λ id blobs. ok id;
}

abbrev Rows : Type 0
Rows = List (StorageKey × Bytes)

abbrev planner : BatchCoordinator
planner = record { run_id = 1; stale_after_ms = 50 }

abbrev sample : ℕ → Bytes → SampleState → SampleRecord
sample idx id s = record {
  id = id;
  prompt_blob = 65 ∷ [];
  state = s;
  created_at_ms = 3;
  input_idx = idx;
}

-- The ids under an empty model and no parameters, of the prompt `A` at 0 and at 1.
abbrev id_0 : Bytes
id_0 = 1 ∷ 65 ∷ 0 ∷ 0 ∷ 0 ∷ 0 ∷ 0 ∷ 0 ∷ 0 ∷ 0 ∷ []

abbrev id_1 : Bytes
id_1 = 1 ∷ 65 ∷ 1 ∷ 0 ∷ 0 ∷ 0 ∷ 0 ∷ 0 ∷ 0 ∷ 0 ∷ []

abbrev bytes_0 : Bytes
bytes_0 = 3 ∷ 0 ∷ 10 ∷ (id_0 ++ (1 ∷ 65 ∷ 2 ∷ 4 ∷ 90 ∷ []))

abbrev stale_1 : Bytes
stale_1 = 3 ∷ 1 ∷ 10 ∷ (id_1 ++ (1 ∷ 65 ∷ 1 ∷ 11 ∷ 5 ∷ []))

abbrev pending_1 : Bytes
pending_1 = 3 ∷ 1 ∷ 10 ∷ (id_1 ++ (1 ∷ 65 ∷ 0 ∷ []))

-- Sample 0 is done, and the claim of sample 1 is old.
abbrev interrupted : Site
interrupted = record {
  store = (sample_key 1 id_0, bytes_0) ∷ (sample_key 1 id_1, stale_1) ∷ [];
  blobs = tt;
  queue = [];
}

-- A worker writes its first heartbeat during the plan.
abbrev beat : StorageKey
beat = record { namespace = codes "heartbeats"; run_id = none; path = [] }

abbrev first_beat : ℕ → Option Bytes → Rows → Rows
first_beat k none c = assoc_storage.put_bytes beat (k ∷ []) c
first_beat k (some b) c = c

abbrev beating : ℕ → Rows → Rows
beating k c = first_beat k (assoc_storage.get_bytes beat c) c

first_beat-keeps :
    (k : ℕ) (j : StorageKey) (o v : Option Bytes) (c : Rows)
    → assoc_storage.get_bytes beat c ≡ o
    → assoc_storage.get_bytes j c ≡ v
    → (key_eq beat j ≡ true → o ≡ none → v ≡ none → ⊥)
    → assoc_storage.get_bytes j (first_beat k o c) ≡ v
first_beat-keeps k j none v c e f other = elim (Bool-cases (key_eq beat j)) [
  | inl t ↦ absurd (other t refl (cc (e, f, key_eq→eq beat j t)))
  | inr n ↦ rw (find-put_row j beat (k ∷ []) c, n) f
]
first_beat-keeps k j (some b) v c e f other = f

beating-Beside : (k : ℕ) → Beside 1 (beating k)
beating-Beside k = record {
  finished = λ j c f.
      first_beat-keeps k j (assoc_storage.get_bytes beat c) (assoc_storage.get_bytes j c) c refl
        refl (λ t e n. cc (n, f.stored));
  makes_none = λ sid c h.
      first_beat-keeps k (sample_key 1 sid) (assoc_storage.get_bytes beat c) none c refl h
        (λ t e n. cc (t));
}

abbrev resumed : Site
resumed = record {
  store = (sample_key 1 id_0, bytes_0) ∷ (sample_key 1 id_1, pending_1) ∷ (beat, 0 ∷ []) ∷ [];
  blobs = tt;
  queue = content_str id_1 ∷ [];
}

scan_and_enqueue-Kept_example : Kept interrupted 1 resumed
unfolding scan_and_enqueue plan_item plan_row plan_new plan_old push try_repending swap_sample
    sample_id id_input le_bytes encode decode cas_bytes store_new put_row content_str
scan_and_enqueue-Kept_example =
    scan_and_enqueue-Kept planner 100
      (record { input_idx = 0; prompt = 65 ∷ [] } ∷ record { input_idx = 1; prompt = 65 ∷ [] } ∷ [])
      [] [] beating 0 interrupted 1 resumed (λ k. beating-Beside k) refl

collect_done_records-Collected_example :
    Collected
      (assoc_storage.scan_bytes (sample_prefix 1) interrupted.store)
      (sample 0 id_0 (done (90 ∷ []) 4) ∷ [])
unfolding collect_done_records done_of keep scan_rows delete_row decode sort_by insert_by
    content_str
collect_done_records-Collected_example =
    collect_done_records-Collected planner interrupted.store (sample 0 id_0 (done (90 ∷ []) 4) ∷ [])
      refl

abbrev worker : BatchWorker
worker = record { run_id = 1; worker_id = 11; sampling = []; stale_after_ms = 50 }

-- The backend answers with one text, and nobody else writes.
abbrev quiet : Around
quiet = record {
  claim_now = 60;
  end_now = 70;
  generate = λ prompt params. texts ((66 ∷ []) ∷ []);
  is_utf8 = λ b. true;
  meanwhile = λ c. c;
  others = λ c. c;
}

-- The 32 bytes of an id, for the text of 64 digits that the worker reads.
abbrev long_id : Bytes
long_id =
    9 ∷ 9 ∷ 9 ∷ 9 ∷ 9 ∷ 9 ∷ 9 ∷ 9 ∷ 9 ∷ 9 ∷ 9 ∷ 9 ∷ 9 ∷ 9 ∷ 9 ∷ 9 ∷ 9 ∷ 9 ∷ 9 ∷ 9 ∷ 9 ∷ 9 ∷ 9 ∷ 9
    ∷ 9 ∷ 9 ∷ 9 ∷ 9 ∷ 9 ∷ 9 ∷ 9 ∷ 9 ∷ []

abbrev ready : Floor
ready = record {
  store = (sample_key 1 long_id, 3 ∷ 0 ∷ 32 ∷ (long_id ++ (1 ∷ 65 ∷ 0 ∷ []))) ∷ [];
  blobs = tt;
  queue = (5, content_str long_id) ∷ [];
  acked = [];
}

abbrev delivered : Floor
delivered = record {
  store = (sample_key 1 long_id, 3 ∷ 0 ∷ 32 ∷ (long_id ++ (1 ∷ 65 ∷ 2 ∷ 70 ∷ 66 ∷ []))) ∷ [];
  blobs = tt;
  queue = [];
  acked = 5 ∷ [];
}

run_one-Reported_example :
    TurnReported worker quiet
      (5, content_str long_id)
      (record ready { queue = [] })
      (completed, delivered)
unfolding run_one run_from run_item run_row run_record generate_for finish finish_text try_claim
    try_complete swap_sample from_str parse_pairs hex_pair hex_value hex_digit encode decode
    cas_bytes store_new put_row content_str
run_one-Reported_example =
    run_one-Reported worker quiet (5, content_str long_id) [] ready (completed, delivered) refl refl

run_loop-returns_example :
    (r : Result (ℕ × Floor)) × (run_loop 2 worker (λ turn. quiet) (λ turn. false) 0 0 ready
      ≡ some r)
run_loop-returns_example = run_loop-returns worker (λ turn. quiet) (λ turn. false) ready
