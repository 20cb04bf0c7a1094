-- ===== src/Coordinator/Drain/Order.antt =====
-- What a drain has done when it ends, well or badly.
use rollout.Prelude.{
  ℕ, ◌+◌, ◌≤◌, leb, ◌≡◌, refl, Bool, true, false, List, [], ◌++◌, Option, none, some, arith,
  Bool-cases, inl, inr, ap, ◌∙◌, All,
}
use rollout.Core.Errors.{Result, ok, err}
use rollout.Coordinator.Drain.{
  DrainConfig, train_state, SnapshotPlan, Requeue, Timing, Vacating, ◌>>>◌, await, nack_all,
  save_asked, saved_with, snapshot, perhaps_left, deregistered_with, vacate, drain,
}
use rollout.Coordinator.Drain.Steps.{
  requeued, Leaving, Ends, Ends-map, >>>-Ends, await-Ends, asked, GivenBack, nack_all-Ends,
}

module _ ⦃q : Requeue⦄ where
  -- What a drain has done when it says that it is over.
  pub record Vacated (cfg : DrainConfig) (in_flight : List ℕ) (items : q.Items) (v : Vacating)
      : Type 0 where
    pub flag : v.stop_pull ≡ true
    pub in_order : v.nacked ≡ in_flight
    pub in_queue : requeued in_flight items ≡ ok v.items
    pub kinds : All (λ k. k ≡ train_state) v.saved
    pub left : v.deregistered ≡ true
    pub in_time : v.elapsed ≤ cfg.drain_deadline

  -- What a drain has done when it fails. The worker may have left the registry, but then every item
  -- had been given back before.
  pub record Stopped (cfg : DrainConfig) (in_flight : List ℕ) (items : q.Items) (v : Vacating)
      : Type 0 where
    pub flag : v.stop_pull ≡ true
    pub kinds : All (λ k. k ≡ train_state) v.saved
    pub in_time : v.elapsed ≤ cfg.drain_deadline
    pub left_last :
        v.deregistered ≡ true → (v.nacked ≡ in_flight) × (requeued in_flight items ≡ ok v.items)

  Leaving-Stopped :
      (cfg : DrainConfig) (ids : List ℕ) (items : q.Items) (v : Vacating)
      → Leaving cfg v
      → Stopped cfg ids items v
  Leaving-Stopped cfg ids items v l = record {
    flag = l.flag;
    kinds = l.kinds;
    in_time = l.in_time;
    left_last = λ gone. absurd (cc (gone, l.registered));
  }

  saved_with-Ends :
      (cfg : DrainConfig) (ids : List ℕ) (v w : Vacating) (r : Result {0} Unit)
      → GivenBack cfg ids v w
      → Leaving cfg w
      → Ends (Leaving cfg) (GivenBack cfg ids v) (saved_with r w)
  saved_with-Ends cfg ids v w (ok r) g l = record {
    leaving = asked cfg w l;
    in_order = g.in_order;
    in_queue = g.in_queue;
  }
  saved_with-Ends cfg ids v w (err e) g l = asked cfg w l

  snapshot-Ends :
      (cfg : DrainConfig) (t : Timing) (snap : SnapshotPlan) (o : Option (Result {0} Unit))
      (ids : List ℕ) (v w : Vacating)
      → GivenBack cfg ids v w
      → Ends (Leaving cfg) (GivenBack cfg ids v) (snapshot cfg t snap o w)
  unfolding snapshot
  snapshot-Ends cfg t snap none ids v w g = g
  snapshot-Ends cfg t snap (some answer) ids v w g =
      elim (Bool-cases (leb snap.snapshot_cost snap.remaining_budget)) [
        | inr e ↦ rw (e, Ends) g
        | inl e ↦
            rw (e, Ends)
              (await-Ends cfg (Leaving cfg) (GivenBack cfg ids v) t.save_ms save_asked
                (saved_with answer) w g.leaving (asked cfg w g.leaving)
                (λ l.
                  saved_with-Ends cfg ids v (record w { elapsed = w.elapsed + t.save_ms }) answer
                    (record { leaving = l; in_order = g.in_order; in_queue = g.in_queue }) l))
      ]

  perhaps_left-Stopped :
      (cfg : DrainConfig) (t : Timing) (ids : List ℕ) (v w : Vacating)
      → v.nacked ≡ []
      → GivenBack cfg ids v w
      → Leaving cfg w
      → Stopped cfg ids v.items (perhaps_left t w)
  perhaps_left-Stopped cfg t ids v w e g l = record {
    flag = l.flag;
    kinds = l.kinds;
    in_time = l.in_time;
    left_last = λ gone. (g.in_order ∙ ap (λ n. n ++ ids) e, g.in_queue);
  }

  deregistered_with-Ends :
      (cfg : DrainConfig) (t : Timing) (ids : List ℕ) (v w : Vacating) (r : Result {0} Unit)
      → v.nacked ≡ []
      → GivenBack cfg ids v w
      → Leaving cfg w
      → Ends (Stopped cfg ids v.items) (Vacated cfg ids v.items) (deregistered_with t r w)
  deregistered_with-Ends cfg t ids v w (ok r) e g l = record {
    flag = l.flag;
    in_order = g.in_order ∙ ap (λ n. n ++ ids) e;
    in_queue = g.in_queue;
    kinds = l.kinds;
    left = refl;
    in_time = l.in_time;
  }
  deregistered_with-Ends cfg t ids v w (err x) e g l = perhaps_left-Stopped cfg t ids v w e g l

  -- However long its calls take and whatever they answer, and whatever a call has done that fails or is
  -- cut, a drain whose hint can be read ends by its deadline with the stop-pull flag set. If it says that
  -- it is over, every item in flight has been given back in order and the worker has left the registry.
  -- If it fails, in a call or by the deadline, the worker may have left the registry too, but only after
  -- every item in flight had been given back. It only asks for snapshots of the training state.
  pub drain-Ends :
      (lead : Option ℕ) (in_flight : List ℕ) (snap : SnapshotPlan) (cfg : DrainConfig) (t : Timing)
      (items : q.Items) (stop_pull : Bool)
      → Ends
          (Stopped cfg in_flight items)
          (Vacated cfg in_flight items)
          (drain (ok lead) in_flight snap cfg t items stop_pull)
  unfolding drain vacate
  drain-Ends lead in_flight snap cfg t items stop_pull =
      let v : Vacating = record {
        elapsed = 0;
        stop_pull = true;
        items = items;
        nacked = [];
        saved = [];
        deregistered = false;
      } in
      let l : Leaving cfg v = record {
        flag = refl;
        registered = refl;
        in_time = omega arith;
        kinds = tt;
      } in
      let before = nack_all cfg t in_flight v >>> snapshot cfg t snap snap.snapshotter in
      let S : Vacating → Type 0 = Stopped cfg in_flight items in
      >>>-Ends S (GivenBack cfg in_flight v) (Vacated cfg in_flight items) before
        (await cfg t.deregister_ms (perhaps_left t) (deregistered_with t t.deregister))
        (Ends-map (Leaving cfg) S (GivenBack cfg in_flight v) (GivenBack cfg in_flight v) before
          (Leaving-Stopped cfg in_flight items) (λ w g. g)
          (>>>-Ends (Leaving cfg) (GivenBack cfg in_flight v) (GivenBack cfg in_flight v)
            (nack_all cfg t in_flight v) (snapshot cfg t snap snap.snapshotter)
            (nack_all-Ends cfg t in_flight v l)
            (λ w g. snapshot-Ends cfg t snap snap.snapshotter in_flight v w g)))
        (λ w g.
          await-Ends cfg S (Vacated cfg in_flight items) t.deregister_ms (perhaps_left t)
            (deregistered_with t t.deregister) w g.leaving
            (perhaps_left-Stopped cfg t in_flight v w refl g g.leaving)
            (λ l'.
              deregistered_with-Ends cfg t in_flight v
                (record w { elapsed = w.elapsed + t.deregister_ms }) t.deregister refl
                (record { leaving = l'; in_order = g.in_order; in_queue = g.in_queue }) l'))
