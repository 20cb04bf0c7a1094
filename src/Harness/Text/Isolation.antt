-- ===== src/Harness/Text/Isolation.antt =====
-- The episodes of a batch do not see one another.
use rollout.Prelude.{
  ℕ, ◌==◌, ◌≡◌, refl, true, false, List, [], ◌∷◌, Option, none, some, if◌then◌else◌, arith,
  Bool-cases, inl, inr, ==_iff,
}
use rollout.Core.Ids.{Bytes}
use rollout.Core.Errors.{Result, ok, err}
use rollout.Store.{Codec}
use rollout.Harness.Text.{
  EpisodeState, EpisodeStore, get, remove, insert, advance, advanced, RewardInput,
  TextCompletionEnv, StepResult, step_result, then_step, step,
}

pub get-remove :
    (j id : ℕ) (store : EpisodeStore)
    → get j (remove id store) ≡ (if id == j then none else get j store)
unfolding remove
get-remove j id [] = ground arith
get-remove j id ((i, state) ∷ store) = ground (arith, get-remove j id store)

pub get-insert :
    (j id : ℕ) (state : EpisodeState) (store : EpisodeStore)
    → get j (insert id state store) ≡ (if id == j then some state else get j store)
unfolding insert
get-insert j id state store = ground (arith, get-remove j id store)

-- The entries of one episode.
abbrev pub of_episode : {A : Type 0} → ℕ → List (ℕ × A) → List A
of_episode e [] = []
of_episode e ((id, a) ∷ rest) = if id == e then a ∷ of_episode e rest else of_episode e rest

-- An episode by itself, or none where there is no such episode.
abbrev pub alone_advanced : Option EpisodeState → Option (EpisodeState × ℕ) × Option EpisodeState
alone_advanced none = (none, none)
alone_advanced (some state) =
    let (state', nonce) = advance state in (some (state', nonce), some state')

module _ {F : Type 0} ⦃inputs : Codec RewardInput⦄ ⦃rewards : Codec F⦄ where
  abbrev pub then_alone :
      Result (StepResult F)
      → Result (List (StepResult F)) × Option EpisodeState
      → Option EpisodeState
      → Result (List (StepResult F)) × Option EpisodeState
  then_alone (err e) rest state = (err e, state)
  then_alone (ok r) (err e, state') state = (err e, state')
  then_alone (ok r) (ok rs, state') state = (ok (r ∷ rs), state')

  -- The steps of one episode with nothing else in the store.
  unfoldable pub alone :
      TextCompletionEnv F
      → Option EpisodeState
      → List Bytes
      → Result (List (StepResult F)) × Option EpisodeState
  alone env state [] = (ok [], state)
  alone env state (action ∷ actions) =
      let (snap, state') = alone_advanced state in
      then_alone (step_result env action snap) (alone env state' actions) state'

  -- A step of a batch that succeeds.
  record Stepped (id : ℕ) (first : Result (StepResult F))
      (rest : Result (List (ℕ × StepResult F)) × EpisodeStore) (rs : List (ℕ × StepResult F))
      (store' : EpisodeStore) : Type 0 where
    r : StepResult F
    later : List (ℕ × StepResult F)
    first_ok : first ≡ ok r
    rest_ok : rest ≡ (ok later, store')
    all : rs ≡ (id, r) ∷ later

  then_step-Stepped :
      (id : ℕ) (first : Result (StepResult F))
      (rest : Result (List (ℕ × StepResult F)) × EpisodeStore) (store : EpisodeStore)
      (rs : List (ℕ × StepResult F)) (store' : EpisodeStore)
      → then_step id first rest store ≡ (ok rs, store')
      → Stepped id first rest rs store'
  then_step-Stepped id (err e) rest store rs store' h = absurd (cc)
  then_step-Stepped id (ok r) (err e, s) store rs store' h = absurd (cc)
  then_step-Stepped id (ok r) (ok later, s) store rs store' h = record {
    r = r;
    later = later;
    first_ok = refl;
    rest_ok = cc;
    all = cc;
  }

  -- In a batch that succeeds, the results of an episode are those of its actions on the episode
  -- alone, and so is the state that it is left in, whatever other episodes the batch steps; a step
  -- of an episode that is not there has an error entry and makes no episode.
  pub step-alone :
      (env : TextCompletionEnv F) (batch : List (ℕ × Bytes)) (store : EpisodeStore)
      (rs : List (ℕ × StepResult F)) (store' : EpisodeStore) (e : ℕ)
      → step env batch store ≡ (ok rs, store')
      → alone env (get e store) (of_episode e batch) ≡ (ok (of_episode e rs), get e store')
  unfolding step alone
  step-alone env [] store rs store' e h =
      let a : ◌≡◌ {A = List (ℕ × StepResult F)} [] rs = cc in
      let b : store ≡ store' = cc in rw (← a, ← b) refl
  step-alone env ((id, action) ∷ batch) store rs store' e h =
      by_snap (get id store) refl h (λ store₁ rs₁. step-alone env batch store₁ rs₁ store' e)
    where
      here :
          (o : Option EpisodeState)
          (s : Stepped id
            (step_result env action (advanced id store o).0)
            (step env batch (advanced id store o).1)
            rs
            store')
          → get id store ≡ o
          → (id == e) ≡ true
          → alone env (get e (advanced id store o).1) (of_episode e batch)
            ≡ (ok (of_episode e s.later), get e store')
          → alone env (get e store) (of_episode e ((id, action) ∷ batch))
            ≡ (ok (of_episode e rs), get e store')
      here none s q same ih =
          let at_e : get e store ≡ none = cc (q, (==_iff id e).0 same) in
          rw (s.all, same, at_e, rw at_e at ih) (cc s.first_ok)
      here (some state) s q same ih =
          let at_e : get e store ≡ some state = cc (q, (==_iff id e).0 same) in
          let ih' : alone env (some (advance state).0) (of_episode e batch)
              ≡ (ok (of_episode e s.later), get e store') =
            rw (get-insert e id (advance state).0 store, same) at ih in
          rw (s.all, same, at_e, s.first_ok, ih') refl

      elsewhere :
          (o : Option EpisodeState)
          (s : Stepped id
            (step_result env action (advanced id store o).0)
            (step env batch (advanced id store o).1)
            rs
            store')
          → (id == e) ≡ false
          → alone env (get e (advanced id store o).1) (of_episode e batch)
            ≡ (ok (of_episode e s.later), get e store')
          → alone env (get e store) (of_episode e ((id, action) ∷ batch))
            ≡ (ok (of_episode e rs), get e store')
      elsewhere none s other ih = rw (s.all, other) ih
      elsewhere (some state) s other ih =
          rw (s.all, other) (rw (get-insert e id (advance state).0 store, other) at ih)

      by_snap :
          (o : Option EpisodeState)
          → get id store ≡ o
          → then_step id
              (step_result env action (advanced id store o).0)
              (step env batch (advanced id store o).1)
              (advanced id store o).1
            ≡ (ok rs, store')
          → ((store₁ : EpisodeStore) (rs₁ : List (ℕ × StepResult F))
              → step env batch store₁ ≡ (ok rs₁, store')
              → alone env (get e store₁) (of_episode e batch)
                ≡ (ok (of_episode e rs₁), get e store'))
          → alone env (get e store) (of_episode e ((id, action) ∷ batch))
            ≡ (ok (of_episode e rs), get e store')
      by_snap o q k ih =
          let s =
            then_step-Stepped id (step_result env action (advanced id store o).0)
              (step env batch (advanced id store o).1) (advanced id store o).1 rs store' k in
          let later = ih (advanced id store o).1 s.later s.rest_ok in
          elim (Bool-cases (id == e)) [
            | inl same ↦ here o s q same later
            | inr other ↦ elsewhere o s other later
          ]
