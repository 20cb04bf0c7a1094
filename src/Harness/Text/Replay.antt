-- ===== src/Harness/Text/Replay.antt =====
-- The trajectory of an episode as a function of its seed, and its budget of turns.
use rollout.Prelude.{
  ℕ, zero, suc, ◌+◌, ◌%◌, ◌<◌, ◌==◌, ◌≡◌, ◌≢◌, refl, ap, subst, ◌∙◌, false, leb, List, [], ◌∷◌,
  Option, some, arith, length, get_elem?, ==_iff,
}
use rollout.Core.Ids.{Bytes}
use rollout.Core.Errors.{Result, ok, err}
use rollout.Store.{Codec}
use rollout.Harness.Text.{
  EpisodeState, EpisodeStore, get, insert, u32, RewardInput, TextCompletionEnv, StepResult, drawn,
  step_result, compute_reward, advance, step, episode_seed, reset,
}
use rollout.Harness.Text.Isolation.{get-insert, of_episode, then_alone, alone, step-alone}

module _ {F : Type 0} ⦃inputs : Codec RewardInput⦄ ⦃rewards : Codec F⦄
    (env : TextCompletionEnv F) where
  -- An episode of a prompt as `reset` makes it.
  abbrev pub fresh : ℕ → Bytes → EpisodeState
  fresh idx prompt = record {
    prompt = prompt;
    turn = 0;
    max_turns = env.settings.max_turns;
    rng = episode_seed env.settings.seed idx;
  }

  reset-keeps :
      (ids : ℕ → ℕ) (idx j : ℕ) (prompts : List Bytes) (store : EpisodeStore)
      → ((m : ℕ) → ids (idx + m) ≢ j)
      → get j (reset env ids idx prompts store).1 ≡ get j store
  unfolding reset
  reset-keeps ids idx j [] store other = refl
  reset-keeps ids idx j (prompt ∷ prompts) store other =
      reset-keeps ids (suc idx) j prompts (insert (ids idx) (fresh idx prompt) store)
        (λ m. subst (λ n. ids n ≢ j) (omega arith) (other (suc m)))
      ∙ rw (get-insert j (ids idx) (fresh idx prompt) store, not_here) refl
    where
      not_here : (ids idx == j) ≡ false
      not_here =
          let o : ids idx ≢ j = subst (λ n. ids n ≢ j) (omega arith) (other 0) in ground arith

  -- Where the generated ids differ, each prompt has its episode after a reset.
  reset-fresh :
      (ids : ℕ → ℕ) (idx k : ℕ) (prompts : List Bytes) (store : EpisodeStore) {prompt : Bytes}
      → ((m n : ℕ) → ids m ≡ ids n → m ≡ n)
      → get_elem? prompts k ≡ some prompt
      → get (ids (idx + k)) (reset env ids idx prompts store).1 ≡ some (fresh (idx + k) prompt)
  unfolding reset
  reset-fresh ids idx k [] store distinct at = absurd (cc)
  reset-fresh ids idx zero (p ∷ prompts) store {prompt} distinct at =
      let e : p ≡ prompt = cc in
      let z : idx + 0 ≡ idx = omega arith in
      rw (z, e)
        (reset-keeps ids (suc idx) (ids idx) prompts (insert (ids idx) (fresh idx prompt) store)
            (λ m q. absurd (omega (arith, distinct (suc idx + m) idx q)))
          ∙ rw
              (
                get-insert (ids idx) (ids idx) (fresh idx prompt) store,
                (==_iff (ids idx) (ids idx)).1 refl,
              )
              refl)
  reset-fresh ids idx (suc k) (p ∷ prompts) store distinct at =
      let z : idx + suc k ≡ suc idx + k = omega arith in
      rw z (reset-fresh ids (suc idx) k prompts (insert (ids idx) (fresh idx p) store) distinct at)

  -- With the same settings, prompts, actions and reward plugin the steps of an episode give the
  -- same results in any two runs: whatever ids are generated, as long as they differ, and whatever
  -- the batches do with the other episodes. Both batches must succeed.
  pub replay_is_deterministic :
      (ids ids' : ℕ → ℕ) (prompts : List Bytes) (k : ℕ) (batch batch' : List (ℕ × Bytes))
      (rs rs' : List (ℕ × StepResult F)) (store store' : EpisodeStore) {prompt : Bytes}
      → ((m n : ℕ) → ids m ≡ ids n → m ≡ n)
      → ((m n : ℕ) → ids' m ≡ ids' n → m ≡ n)
      → get_elem? prompts k ≡ some prompt
      → of_episode (ids k) batch ≡ of_episode (ids' k) batch'
      → step env batch (reset env ids 0 prompts []).1 ≡ (ok rs, store)
      → step env batch' (reset env ids' 0 prompts []).1 ≡ (ok rs', store')
      → of_episode (ids k) rs ≡ of_episode (ids' k) rs'
  replay_is_deterministic ids ids' prompts k batch batch' rs rs' store store' {prompt} d d' at same
        h h' =
      let z : 0 + k ≡ k = omega arith in
      let s : get (ids k) (reset env ids 0 prompts []).1 ≡ some (fresh k prompt) =
        rw z at (reset-fresh ids 0 k prompts [] d at) in
      let s' : get (ids' k) (reset env ids' 0 prompts []).1 ≡ some (fresh k prompt) =
        rw z at (reset-fresh ids' 0 k prompts [] d' at) in
      cc (
        step-alone env batch (reset env ids 0 prompts []).1 rs store (ids k) h,
        s,
        s',
        same,
        step-alone env batch' (reset env ids' 0 prompts []).1 rs' store' (ids' k) h',
      )

  -- The steps of an episode that are left to a list of actions.
  record First (state : EpisodeState) (action : Bytes) (actions : List Bytes)
      (rs : List (StepResult F)) (fin : Option EpisodeState) : Type 0 where
    r : StepResult F
    later : List (StepResult F)
    done_so : r.is_done ≡ leb state.max_turns ((state.turn + 1) % u32)
    rest : alone env (some (advance state).0) actions ≡ (ok later, fin)
    all : rs ≡ r ∷ later

  alone-First :
      (state : EpisodeState) (action : Bytes) (actions : List Bytes) (rs : List (StepResult F))
      (fin : Option EpisodeState)
      → alone env (some state) (action ∷ actions) ≡ (ok rs, fin)
      → First state action actions rs fin
  unfolding alone
  alone-First state action actions rs fin h =
      by_reward (compute_reward env state.prompt action) refl
        (alone env (some (advance state).0) actions) refl h
    where
      result : Option F → StepResult F
      result reward = record {
        observation = action;
        reward = reward;
        is_done = leb state.max_turns ((state.turn + 1) % u32);
        info = drawn ((state.turn + 1) % u32) (advance state).1;
      }

      by_reward :
          (reward : Result (Option F))
          → compute_reward env state.prompt action ≡ reward
          → (rest : Result (List (StepResult F)) × Option EpisodeState)
          → alone env (some (advance state).0) actions ≡ rest
          → then_alone (step_result env action (some (advance state))) rest (some (advance state).0)
            ≡ (ok rs, fin)
          → First state action actions rs fin
      by_reward (err e) q rest q' k = absurd (refused (rw q at k))
        where
          refused :
              ◌≡◌ {A = Result (List (StepResult F)) × Option EpisodeState}
                (err e, some (advance state).0)
                (ok rs, fin)
              → ⊥
          refused x = cc
      by_reward (ok x) q (err e, f) q' k = absurd (refused (rw q at k))
        where
          refused :
              ◌≡◌ {A = Result (List (StepResult F)) × Option EpisodeState} (err e, f) (ok rs, fin)
              → ⊥
          refused y = cc
      by_reward (ok x) q (ok later, f) q' k =
          let k' : ◌≡◌ {A = Result (List (StepResult F)) × Option EpisodeState}
              (ok (result x ∷ later), f) (ok rs, fin) =
            rw q at k in
          record { r = result x; later = later; done_so = refl; rest = cc (q', k'); all = cc k' }

  alone-budget :
      (state : EpisodeState) (actions : List Bytes) (rs : List (StepResult F))
      (fin : Option EpisodeState) (n : ℕ) {r : StepResult F}
      → alone env (some state) actions ≡ (ok rs, fin)
      → state.turn + length actions < u32
      → get_elem? rs n ≡ some r
      → r.is_done ≡ leb state.max_turns (state.turn + n + 1)
  unfolding alone
  alone-budget state [] rs fin n h small at =
      let e : ◌≡◌ {A = List (StepResult F)} [] rs = cc in
      absurd (cc (at, ap (λ l. get_elem? l n) e))
  alone-budget state (action ∷ actions) rs fin n {r} h small at =
      let f = alone-First state action actions rs fin h in
      by_index n f (rw f.all at at)
        (λ m. alone-budget (advance state).0 actions f.later fin m f.rest (omega (arith, small)))
    where
      by_index :
          (n : ℕ) (f : First state action actions rs fin)
          → get_elem? (f.r ∷ f.later) n ≡ some r
          → ((m : ℕ)
              → get_elem? f.later m ≡ some r
              → r.is_done ≡ leb state.max_turns ((state.turn + 1) % u32 + m + 1))
          → r.is_done ≡ leb state.max_turns (state.turn + n + 1)
      by_index zero f at' rest =
          let e : f.r ≡ r = cc in
          let z : (state.turn + 1) % u32 ≡ state.turn + zero + 1 = omega (arith, small) in
          cc (f.done_so, e, z)
      by_index (suc m) f at' rest =
          let z : (state.turn + 1) % u32 + m + 1 ≡ state.turn + suc m + 1 = omega (arith, small) in
          cc (rest m at', z)

  -- In a batch right after a reset that makes different ids, the n-th step of an episode (counted
  -- from 0) says that it is done exactly where the budget of turns is at most n + 1. The batch must
  -- succeed and have fewer than 2^32 steps of the episode.
  pub step-budget :
      (ids : ℕ → ℕ) (prompts : List Bytes) (k n : ℕ) (batch : List (ℕ × Bytes))
      (rs : List (ℕ × StepResult F)) (store : EpisodeStore) {prompt : Bytes} {r : StepResult F}
      → ((m n : ℕ) → ids m ≡ ids n → m ≡ n)
      → get_elem? prompts k ≡ some prompt
      → step env batch (reset env ids 0 prompts []).1 ≡ (ok rs, store)
      → length (of_episode (ids k) batch) < u32
      → get_elem? (of_episode (ids k) rs) n ≡ some r
      → r.is_done ≡ leb env.settings.max_turns (n + 1)
  step-budget ids prompts k n batch rs store {prompt} {r} d at h small nth =
      let z : 0 + k ≡ k = omega arith in
      let s : get (ids k) (reset env ids 0 prompts []).1 ≡ some (fresh k prompt) =
        rw z at (reset-fresh ids 0 k prompts [] d at) in
      let run = rw s at (step-alone env batch (reset env ids 0 prompts []).1 rs store (ids k) h) in
      let t : 0 + n + 1 ≡ n + 1 = omega arith in
      rw t at (
        alone-budget (fresh k prompt) (of_episode (ids k) batch) (of_episode (ids k) rs)
          (get (ids k) store) n run (omega (arith, small)) nth)
