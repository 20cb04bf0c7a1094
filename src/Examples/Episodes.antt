-- ===== src/Examples/Episodes.antt =====
-- Two episodes stepped in different orders.
use rollout.Prelude.{
  ℕ, ◌+◌, ◌≡◌, refl, true, false, List, [], ◌∷◌, Option, none, some, arith, codes, take, drop, map,
  get_elem?, take-length-append, drop-length-append,
}
use rollout.Core.Ids.{Bytes}
use rollout.Core.Errors.{Result, ok, err}
use rollout.Store.{Codec}
use rollout.Harness.Text.{
  RewardInput, TextCompletionEnv, StepResult, EpisodeStore, next_u64, get, remove, insert,
  compute_reward, step, reset, unknown_or_closed,
}
use rollout.Harness.Text.Isolation.{of_episode, alone, step-alone}
use rollout.Harness.Text.Replay.{replay_is_deterministic}
use rollout.Examples.Data.{epoch_codec, framed, reads}

abbrev input_of_bytes : Bytes → Option RewardInput
input_of_bytes (n ∷ rest) = some (record { prompt = take n rest; completion = drop n rest })
input_of_bytes _ = none

input_round_trip :
    (p c : Bytes) → input_of_bytes (framed p c) ≡ some (record { prompt = p; completion = c })
input_round_trip p c = rw (take-length-append p c, drop-length-append p c) refl

instance abbrev input_codec : Codec RewardInput
input_codec = record {
  to_stdvec = λ r. some (framed r.prompt r.completion);
  from_bytes = input_of_bytes;
  round_trip = λ r b e. reads input_of_bytes r (input_round_trip r.prompt r.completion) e;
}

-- Two turns for each episode, and the constant reward 1.
abbrev env : TextCompletionEnv ℕ
env = record {
  settings = record { max_turns = 2; echo_reward = some 1; seed = some 42 };
  reward_handle = none;
}

abbrev prompts : List Bytes
prompts = codes "p" ∷ codes "q" ∷ []

-- A batch whose steps alternate, and one with the ids of a second run in which the first comes last.
abbrev ids' : ℕ → ℕ
ids' n = n + 10

abbrev batch : List (ℕ × Bytes)
batch = (0, codes "a") ∷ (1, codes "x") ∷ (0, codes "b") ∷ (7, codes "y") ∷ []

abbrev batch' : List (ℕ × Bytes)
batch' = (11, codes "z") ∷ (10, codes "a") ∷ (10, codes "b") ∷ []

abbrev value_of : {A B : Type 0} → A → Result A × B → A
value_of a (err e, b) = a
value_of a (ok v, b) = v

abbrev started : (ℕ → ℕ) → EpisodeStore
started ids = (reset env ids 0 prompts []).1

abbrev results : List (ℕ × Bytes) → (ℕ → ℕ) → List (ℕ × StepResult ℕ)
results steps ids = value_of [] (step env steps (started ids))

abbrev left : List (ℕ × Bytes) → (ℕ → ℕ) → EpisodeStore
left steps ids = (step env steps (started ids)).1

abbrev own : ℕ → ℕ
own n = n

batch_succeeds : step env batch (started own) ≡ (ok (results batch own), left batch own)
unfolding step reset insert remove compute_reward next_u64
batch_succeeds = refl

batch'_succeeds : step env batch' (started ids') ≡ (ok (results batch' ids'), left batch' ids')
unfolding step reset insert remove compute_reward next_u64
batch'_succeeds = refl

-- The second step of the first episode is its last.
second_is_done : map (λ r. r.is_done) (of_episode 0 (results batch own)) ≡ false ∷ true ∷ []
unfolding step reset insert remove compute_reward next_u64
second_is_done = refl

step-alone_example :
    alone env (get 1 (started own)) (codes "x" ∷ [])
    ≡ (ok (of_episode 1 (results batch own)), get 1 (left batch own))
step-alone_example =
    step-alone env batch (started own) (results batch own) (left batch own) 1 batch_succeeds

replay_is_deterministic_example :
    of_episode 0 (results batch own) ≡ of_episode 10 (results batch' ids')
replay_is_deterministic_example =
    replay_is_deterministic env own ids' prompts 0 batch batch' (results batch own)
      (results batch' ids') (left batch own) (left batch' ids') (λ m n e. e) (λ m n e. omega arith)
      refl refl batch_succeeds batch'_succeeds

abbrev or_closed : Option (StepResult ℕ) → StepResult ℕ
or_closed none = record {
  observation = [];
  reward = none;
  is_done = true;
  info = unknown_or_closed;
}
or_closed (some r) = r

abbrev second : StepResult ℕ
second = or_closed (get_elem? (of_episode 0 (results batch own)) 1)

second_so : get_elem? (of_episode 0 (results batch own)) 1 ≡ some second
unfolding step reset insert remove compute_reward next_u64
second_so = refl
