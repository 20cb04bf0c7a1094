-- ===== src/Examples/Data.antt =====
-- Encodings, hashes and identifiers that are simple enough to run.
use rollout.Prelude.{
  ℕ, zero, suc, ◌≡◌, refl, [], ◌∷◌, ◌++◌, Option, none, some, length, take, drop,
  take-length-append, drop-length-append,
}
use rollout.Core.Ids.{Bytes, ContentId}
use rollout.Core.Externals.{Blake3, UlidText}
use rollout.Store.{Codec}
use rollout.Coordinator.WorkItem.{WorkItemRecord, WorkState}
use rollout.Coordinator.Lease.{LeaseRecord}
use rollout.Batch.{SampleState, SampleRecord}

pub reads :
    {A : Type 0} (f : Bytes → Option A) (a : A) {b b' : Bytes}
    → f b ≡ some a
    → some b ≡ some b'
    → f b' ≡ some a
reads f a h e = cc

pub one_byte-injective : (a b : ℕ) → ◌≡◌ {A = Bytes} (a ∷ []) (b ∷ []) → a ≡ b
one_byte-injective a b e = cc

-- A list before another, with its length.
abbrev pub framed : Bytes → Bytes → Bytes
framed xs rest = length xs ∷ (xs ++ rest)

abbrev item_bytes : ContentId → WorkState → Bytes
item_bytes id WorkState.pending = 0 ∷ id
item_bytes id (WorkState.running w t) = 1 ∷ w ∷ t ∷ id
item_bytes id (WorkState.done r) = 2 ∷ framed r id
item_bytes id (WorkState.failed s) = 3 ∷ framed s id

abbrev item_of_bytes : Bytes → Option WorkItemRecord
item_of_bytes (zero ∷ id) = some (record { id = id; state = WorkState.pending })
item_of_bytes (suc zero ∷ w ∷ t ∷ id) = some (record { id = id; state = WorkState.running w t })
item_of_bytes (suc (suc zero) ∷ n ∷ rest) =
    some (record { id = drop n rest; state = WorkState.done (take n rest) })
item_of_bytes (suc (suc (suc zero)) ∷ n ∷ rest) =
    some (record { id = drop n rest; state = WorkState.failed (take n rest) })
item_of_bytes _ = none

pub item_round_trip :
    (id : ContentId) (s : WorkState)
    → item_of_bytes (item_bytes id s) ≡ some (record { id = id; state = s })
item_round_trip id WorkState.pending = refl
item_round_trip id (WorkState.running w t) = refl
item_round_trip id (WorkState.done r) = rw (take-length-append r id, drop-length-append r id) refl
item_round_trip id (WorkState.failed r) = rw (take-length-append r id, drop-length-append r id) refl

instance abbrev pub item_codec : Codec WorkItemRecord
item_codec = record {
  to_stdvec = λ rec. some (item_bytes rec.id rec.state);
  from_bytes = item_of_bytes;
  round_trip = λ rec b e. reads item_of_bytes rec (item_round_trip rec.id rec.state) e;
}

abbrev lease_of_bytes : Bytes → Option LeaseRecord
lease_of_bytes (h ∷ e ∷ x ∷ []) = some (record { holder = h; epoch = e; expires_at_ms = x })
lease_of_bytes _ = none

instance abbrev pub lease_codec : Codec LeaseRecord
lease_codec = record {
  to_stdvec = λ rec. some (rec.holder ∷ rec.epoch ∷ rec.expires_at_ms ∷ []);
  from_bytes = lease_of_bytes;
  round_trip = λ rec b e. reads lease_of_bytes rec refl e;
}

abbrev number_of_bytes : Bytes → Option ℕ
number_of_bytes (n ∷ []) = some n
number_of_bytes _ = none

instance abbrev pub epoch_codec : Codec ℕ
epoch_codec = record {
  to_stdvec = λ n. some (n ∷ []);
  from_bytes = number_of_bytes;
  round_trip = λ n b e. reads number_of_bytes n refl e;
}

-- Kind, two numbers, and a list for the state of a sample.
abbrev state_bytes : SampleState → Bytes
state_bytes SampleState.pending = 0 ∷ []
state_bytes (SampleState.running w t) = 1 ∷ w ∷ t ∷ []
state_bytes (SampleState.done b t) = 2 ∷ t ∷ b
state_bytes (SampleState.failed r t) = 3 ∷ t ∷ r

abbrev state_of_bytes : Bytes → Option SampleState
state_of_bytes (zero ∷ []) = some SampleState.pending
state_of_bytes (suc zero ∷ w ∷ t ∷ []) = some (SampleState.running w t)
state_of_bytes (suc (suc zero) ∷ t ∷ b) = some (SampleState.done b t)
state_of_bytes (suc (suc (suc zero)) ∷ t ∷ r) = some (SampleState.failed r t)
state_of_bytes _ = none

state_round_trip : (s : SampleState) → state_of_bytes (state_bytes s) ≡ some s
state_round_trip SampleState.pending = refl
state_round_trip (SampleState.running w t) = refl
state_round_trip (SampleState.done b t) = refl
state_round_trip (SampleState.failed r t) = refl

abbrev sample_bytes : SampleRecord → Bytes
sample_bytes rec =
    rec.created_at_ms
    ∷ rec.input_idx
    ∷ framed rec.id (framed rec.prompt_blob (state_bytes rec.state))

abbrev with_parts : ℕ → ℕ → ContentId → ContentId → Option SampleState → Option SampleRecord
with_parts t i id blob none = none
with_parts t i id blob (some s) =
    some (record { id = id; prompt_blob = blob; state = s; created_at_ms = t; input_idx = i })

abbrev from_tail : ℕ → ℕ → ContentId → Bytes → Option SampleRecord
from_tail t i id [] = none
from_tail t i id (m ∷ rest) = with_parts t i id (take m rest) (state_of_bytes (drop m rest))

abbrev sample_of_bytes : Bytes → Option SampleRecord
sample_of_bytes (t ∷ i ∷ n ∷ rest) = from_tail t i (take n rest) (drop n rest)
sample_of_bytes _ = none

pub sample_round_trip : (rec : SampleRecord) → sample_of_bytes (sample_bytes rec) ≡ some rec
sample_round_trip rec =
    rw
      (
        take-length-append rec.id (framed rec.prompt_blob (state_bytes rec.state)),
        drop-length-append rec.id (framed rec.prompt_blob (state_bytes rec.state)),
        take-length-append rec.prompt_blob (state_bytes rec.state),
        drop-length-append rec.prompt_blob (state_bytes rec.state),
        state_round_trip rec.state,
      )
      refl

instance abbrev pub sample_codec : Codec SampleRecord
sample_codec = record {
  to_stdvec = λ rec. some (sample_bytes rec);
  from_bytes = sample_of_bytes;
  round_trip = λ rec b e. reads sample_of_bytes rec (sample_round_trip rec) e;
}

-- The hash of a payload is the payload.
instance abbrev pub plain_hash : Blake3
plain_hash = record { content_of = λ b. b }

-- A ULID prints as one byte that is its value.
instance abbrev pub plain_ulids : UlidText
plain_ulids = record {
  ulid_str = λ n. n ∷ [];
  ulid_str-injective = one_byte-injective;
  parse_ulid = number_of_bytes;
  parse-str = λ a. refl;
}
