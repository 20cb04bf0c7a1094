-- ===== src/Batch/Loop.antt =====
-- The worker's loop ends.
use rollout.Prelude.{
  ℕ, zero, suc, ◌+◌, ◌<◌, ◌≡◌, refl, Bool, List, [], ◌∷◌, Option, none, some, arith, Bool-cases,
  inl, inr, length, ◌⊎◌, ap,
}
use rollout.Core.Ids.{Bytes}
use rollout.Core.Errors.{Result, ok, err, CoreError, ok-injective}
use rollout.Store.{Storage, Codec}
use rollout.Batch.{SampleRecord}
use rollout.Batch.Plan.{ObjectStore}
use rollout.Batch.Work.{
  RunOutcome, completed, failure, skipped, drained, BatchWorker, Floor, Around, run_from, run_one,
  next_turn, run_loop,
}
use rollout.Batch.Finish.{run_one-Reported}

module _ ⦃st : Storage⦄ ⦃codec : Codec SampleRecord⦄ ⦃objects : ObjectStore⦄ where
  abbrev pub IsAnswer : Option (Result (ℕ × Floor)) → Type 0
  IsAnswer none = ⊥
  IsAnswer (some r) = Unit

  next_turn-IsAnswer :
      (p : RunOutcome × Floor) (n : ℕ) (again : ℕ → Floor → Option (Result (ℕ × Floor)))
      → ((m : ℕ) → IsAnswer (again m p.1))
      → IsAnswer (next_turn p n again)
  next_turn-IsAnswer (drained, f) n again h = tt
  next_turn-IsAnswer (completed, f) n again h = h (n + 1)
  next_turn-IsAnswer (failure, f) n again h = h n
  next_turn-IsAnswer (skipped, f) n again h = h n

  Result-cases {ℓ} :
      {A : Type ℓ} (r : Result A) → ((a : A) × (r ≡ ok a)) ⊎ ((e : CoreError) × (r ≡ err e))
  Result-cases (ok a) = inl (a, refl)
  Result-cases (err e) = inr (e, refl)

  -- A turn of the loop ends in an answer if what follows each of its outcomes does.
  turn_ends :
      (fuel : ℕ) (this : BatchWorker) (world : ℕ → Around) (stop_pull : ℕ → Bool) (turn n : ℕ)
      (f : Floor)
      → ((p : RunOutcome × Floor)
          → run_one this (world turn) f ≡ ok p
          → IsAnswer (next_turn p n (λ m g. run_loop fuel this world stop_pull (turn + 1) m g)))
      → IsAnswer (run_loop (suc fuel) this world stop_pull turn n f)
  unfolding run_loop
  turn_ends fuel this world stop_pull turn n f k = elim (Bool-cases (stop_pull turn)) [
    | inl s ↦ rw (s, run_loop) tt
    | inr s ↦ elim (Result-cases (run_one this (world turn) f)) [
      | inr (x, q) ↦ rw (s, q, run_loop) tt
      | inl (p, q) ↦ rw (s, q, run_loop) (k p q)
    ]
  ]

  on_empty :
      (this : BatchWorker) (around : Around) (f : Floor) (p : RunOutcome × Floor)
      → f.queue ≡ []
      → run_one this around f ≡ ok p
      → drained ≡ p.0
  unfolding run_one run_from
  on_empty this around f p e q =
      ap (λ (r : RunOutcome × Floor). r.0) (ok-injective _ p (rw (e, run_from) at q))

  drained-IsAnswer :
      (p : RunOutcome × Floor) (n : ℕ) (again : ℕ → Floor → Option (Result (ℕ × Floor)))
      → drained ≡ p.0
      → IsAnswer (next_turn p n again)
  drained-IsAnswer (drained, f) n again h = tt
  drained-IsAnswer (completed, f) n again h = cc
  drained-IsAnswer (failure, f) n again h = cc
  drained-IsAnswer (skipped, f) n again h = cc

  run_on :
      (queue : List (ℕ × Bytes)) (fuel : ℕ) (this : BatchWorker) (world : ℕ → Around)
      (stop_pull : ℕ → Bool) (turn n : ℕ) (f : Floor)
      → f.queue ≡ queue
      → length queue < fuel
      → IsAnswer (run_loop fuel this world stop_pull turn n f)
  run_on queue zero this world stop_pull turn n f e h = absurd (omega (arith, h))
  run_on [] (suc fuel) this world stop_pull turn n f e h =
      turn_ends fuel this world stop_pull turn n f (λ p q.
        drained-IsAnswer p n (λ m g. run_loop fuel this world stop_pull (turn + 1) m g)
          (on_empty this (world turn) f p e q))
  run_on (item ∷ queue) (suc fuel) this world stop_pull turn n f e h =
      turn_ends fuel this world stop_pull turn n f (λ p q.
        next_turn-IsAnswer p n (λ m g. run_loop fuel this world stop_pull (turn + 1) m g)
          (λ m.
            run_on queue fuel this world stop_pull (turn + 1) m p.1
              (run_one-Reported this (world turn) item queue f p e q).1 (omega (arith, h))))

  -- One unit of fuel for each item of the queue, and one more, is enough for the worker's loop to
  -- return, whatever the turns do, when nothing else is put on its queue meanwhile.
  pub run_loop-returns :
      (this : BatchWorker) (world : ℕ → Around) (stop_pull : ℕ → Bool) (f : Floor)
      → (r : Result (ℕ × Floor)) × (run_loop (length f.queue + 1) this world stop_pull 0 0 f
          ≡ some r)
  run_loop-returns this world stop_pull f =
      answer (run_loop (length f.queue + 1) this world stop_pull 0 0 f)
        (run_on f.queue (length f.queue + 1) this world stop_pull 0 0 f refl (omega arith))
    where
      answer :
          (o : Option (Result (ℕ × Floor))) → IsAnswer o → (r : Result (ℕ × Floor)) × (o ≡ some r)
      answer none h = absurd h
      answer (some r) h = (r, refl)
