-- ===== src/Harness/Text.antt =====
-- crates/rollout-harness-text/src: episode.rs, reward.rs and `TextCompletionEnv` of lib.rs.
-- A reward is a value of any type `F`, since it is only passed on. Of the JSON in `info` its fields
-- are kept. The additions wrap as in a release build.
pub mod Isolation
pub mod Replay
use Prim.Native.Nat.{bit_xor}
use Prim.Native.String.{String}
use rollout.Prelude.{
  ℕ, suc, ◌+◌, ◌*◌, ◌/◌, ◌%◌, ◌^◌, ◌==◌, leb, Bool, true, false, List, [], ◌∷◌, Option, none, some,
  if◌then◌else◌,
}
use rollout.Core.Ids.{Bytes}
use rollout.Core.Errors.{Result, ok, err, ◌>>=◌, fatal, plugin_contract}
use rollout.Store.{Codec}

abbrev pub u64 : ℕ
u64 = 2 ^ 64

abbrev pub u32 : ℕ
u32 = 2 ^ 32

-- `SplitMix64::next_u64`: the value drawn, and the state after it.
unfoldable pub next_u64 : ℕ → ℕ × ℕ
next_u64 state =
    let state' = (state + 0x9E3779B97F4A7C15) % u64 in
    let y = bit_xor state' (state' / 2 ^ 30) * 0xBF58476D1CE4E5B9 % u64 in
    let z = bit_xor y (y / 2 ^ 27) * 0x94D049BB133111EB % u64 in (bit_xor z (z / 2 ^ 31), state')

pub record EpisodeState : Type 0 where
  pub prompt : Bytes
  pub turn : ℕ
  pub max_turns : ℕ
  pub rng : ℕ

-- The episodes by id, the latest first.
abbrev pub EpisodeStore : Type 0
EpisodeStore = List (ℕ × EpisodeState)

abbrev pub get : ℕ → EpisodeStore → Option EpisodeState
get id [] = none
get id ((j, state) ∷ store) = if j == id then some state else get id store

unfoldable pub remove : ℕ → EpisodeStore → EpisodeStore
remove id [] = []
remove id ((j, state) ∷ store) = if j == id then remove id store else (j, state) ∷ remove id store

unfoldable pub insert : ℕ → EpisodeState → EpisodeStore → EpisodeStore
unfolding remove
insert id state store = (id, state) ∷ remove id store

-- What the closure of `step` does to an episode, and the nonce that it draws.
abbrev pub advance : EpisodeState → EpisodeState × ℕ
advance state =
    let (nonce, rng) = next_u64 state.rng in
    (record state { turn = (state.turn + 1) % u32; rng = rng }, nonce)

-- `with_episode` at that closure.
abbrev pub advanced :
    ℕ → EpisodeStore → Option EpisodeState → Option (EpisodeState × ℕ) × EpisodeStore
advanced id store none = (none, store)
advanced id store (some state) =
    let (state', nonce) = advance state in (some (state', nonce), insert id state' store)

pub record RewardInput : Type 0 where
  pub prompt : Bytes
  pub completion : Bytes

-- A loaded reward plugin: its name, and what its "score" method answers.
pub record Plugin : Type 0 where
  pub name : String
  pub score : Bytes → Result Bytes

pub record TextEnvSettings (F : Type 0) : Type 0 where
  pub max_turns : ℕ
  pub echo_reward : Option F
  pub seed : Option ℕ

pub record TextCompletionEnv (F : Type 0) : Type 0 where
  pub settings : TextEnvSettings F
  pub reward_handle : Option Plugin

pub data Info : Type 0 where
  unknown_or_closed : Info
  drawn : ℕ → ℕ → Info

-- What a step says of its episode.
pub record StepResult (F : Type 0) : Type 0 where
  pub observation : Bytes
  pub reward : Option F
  pub is_done : Bool
  pub info : Info

abbrev pub contract : String → {A : Type 0} → String → Option A → Result A
contract plugin msg none = err (fatal (plugin_contract plugin msg))
contract plugin msg (some a) = ok a

-- `seed ^ idx`
abbrev pub episode_seed : Option ℕ → ℕ → ℕ
episode_seed none idx = bit_xor 0 idx
episode_seed (some seed) idx = bit_xor seed idx

module _ {F : Type 0} ⦃inputs : Codec RewardInput⦄ ⦃rewards : Codec F⦄ where
  -- `compute_reward` of reward.rs
  unfoldable pub plugin_reward : Plugin → Bytes → Bytes → Result F
  plugin_reward plugin prompt completion = do
    let input : RewardInput = record { prompt = prompt; completion = completion }
    payload ← contract plugin.name "encode RewardInput: " (inputs.to_stdvec input)
    bytes ← plugin.score payload
    contract plugin.name "decode Reward: " (rewards.from_bytes bytes)

  abbrev pub reward_by : Option F → Option Plugin → Bytes → Bytes → Result (Option F)
  reward_by echo none prompt completion = ok echo
  reward_by echo (some plugin) prompt completion =
      plugin_reward plugin prompt completion >>= λ r. ok (some r)

  unfoldable pub compute_reward : TextCompletionEnv F → Bytes → Bytes → Result (Option F)
  unfolding plugin_reward
  compute_reward env prompt completion =
      reward_by env.settings.echo_reward env.reward_handle prompt completion

  -- One entry of the batch, by what the store had of its episode.
  abbrev pub step_result :
      TextCompletionEnv F → Bytes → Option (EpisodeState × ℕ) → Result (StepResult F)
  step_result env action none =
      ok (record { observation = []; reward = none; is_done = true; info = unknown_or_closed })
  step_result env action (some (state, nonce)) = do
    reward ← compute_reward env state.prompt action
    ok (record {
      observation = action;
      reward = reward;
      is_done = leb state.max_turns state.turn;
      info = drawn state.turn nonce;
    })

  -- `?` after the reward of an entry: an error ends the batch, and the store stays as it is.
  abbrev pub then_step :
      ℕ
      → Result (StepResult F)
      → Result (List (ℕ × StepResult F)) × EpisodeStore
      → EpisodeStore
      → Result (List (ℕ × StepResult F)) × EpisodeStore
  then_step id (err e) rest store = (err e, store)
  then_step id (ok r) (err e, store') store = (err e, store')
  then_step id (ok r) (ok rs, store') store = (ok ((id, r) ∷ rs), store')

  unfoldable pub step :
      TextCompletionEnv F
      → List (ℕ × Bytes)
      → EpisodeStore
      → Result (List (ℕ × StepResult F)) × EpisodeStore
  unfolding compute_reward insert
  step env [] store = (ok [], store)
  step env ((id, action) ∷ batch) store =
      let (snap, store') = advanced id store (get id store) in
      then_step id (step_result env action snap) (step env batch store') store'

  -- `idx` is the index of the first prompt in the batch, `ids` the ids that are generated.
  unfoldable pub reset :
      TextCompletionEnv F
      → (ℕ → ℕ)
      → ℕ
      → List Bytes
      → EpisodeStore
      → List (ℕ × Bytes) × EpisodeStore
  unfolding insert
  reset env ids idx [] store = ([], store)
  reset env ids idx (prompt ∷ prompts) store =
      let state : EpisodeState = record {
        prompt = prompt;
        turn = 0;
        max_turns = env.settings.max_turns;
        rng = episode_seed env.settings.seed idx;
      } in
      let (episodes, store') = reset env ids (suc idx) prompts (insert (ids idx) state store) in
      ((ids idx, prompt) ∷ episodes, store')

unfoldable pub close : List ℕ → EpisodeStore → EpisodeStore
unfolding remove
close [] store = store
close (id ∷ ids) store = close ids (remove id store)
