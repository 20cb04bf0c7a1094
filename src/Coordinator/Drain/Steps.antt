-- ===== src/Coordinator/Drain/Steps.antt =====
-- What the steps of a drain have done until the worker leaves the registry.
use rollout.Prelude.{
  ℕ, ◌+◌, ◌≤◌, leb, ◌≡◌, refl, true, false, List, [], ◌∷◌, ◌++◌, Bool-cases, inl, inr, leb→le, ap,
  ◌∙◌, All,
}
use rollout.Core.Errors.{Result, ok, err, ok-injective}
use rollout.Coordinator.Drain.{
  DrainConfig, train_state, Requeue, Timing, Vacating, Flow, go_on, broken, ◌>>>◌, await, nack_cut,
  nacked_with, nack_all, save_asked,
}

module _ ⦃q : Requeue⦄ where
  abbrev pub requeued_after :
      (q.Items → Result q.Items) → Result {0} Unit × q.Items → Result q.Items
  requeued_after rest (ok r, items) = rest items
  requeued_after rest (err e, items) = err e

  -- The items that a list of calls leaves, where all of them succeed.
  abbrev pub requeued : List ℕ → q.Items → Result q.Items
  requeued [] items = ok items
  requeued (id ∷ ids) items = requeued_after (requeued ids) (q.nack id items)

  -- Until the last call: the flag is set, the worker still registered, the deadline kept, and the
  -- snapshots, if there is one, of the training state.
  pub record Leaving (cfg : DrainConfig) (v : Vacating) : Type 0 where
    pub flag : v.stop_pull ≡ true
    pub registered : v.deregistered ≡ false
    pub in_time : v.elapsed ≤ cfg.drain_deadline
    pub kinds : All (λ k. k ≡ train_state) v.saved

  -- A flow that goes on in a state of one kind, or breaks in one of another.
  abbrev pub Ends : (Vacating → Type 0) → (Vacating → Type 0) → Flow → Type 0
  Ends B P (go_on v) = P v
  Ends B P (broken e v) = B v

  pub Ends-map :
      (B C P Q : Vacating → Type 0) (m : Flow)
      → ((v : Vacating) → B v → C v)
      → ((v : Vacating) → P v → Q v)
      → Ends B P m
      → Ends C Q m
  Ends-map B C P Q (go_on v) g f h = f v h
  Ends-map B C P Q (broken e v) g f h = g v h

  pub >>>-Ends :
      (B P Q : Vacating → Type 0) (m : Flow) (f : Vacating → Flow)
      → Ends B P m
      → ((v : Vacating) → P v → Ends B Q (f v))
      → Ends B Q (m >>> f)
  >>>-Ends B P Q (go_on v) f h k = k v h
  >>>-Ends B P Q (broken e v) f h k = h

  later :
      (cfg : DrainConfig) (ms : ℕ) (v : Vacating)
      → v.elapsed + ms ≤ cfg.drain_deadline
      → Leaving cfg v
      → Leaving cfg (record v { elapsed = v.elapsed + ms })
  later cfg ms v t h = record {
    flag = h.flag;
    registered = h.registered;
    in_time = t;
    kinds = h.kinds;
  }

  pub await-Ends :
      (cfg : DrainConfig) (B Q : Vacating → Type 0) (ms : ℕ) (cut : Vacating → Vacating)
      (f : Vacating → Flow) (v : Vacating)
      → Leaving cfg v
      → B (cut v)
      → (Leaving cfg (record v { elapsed = v.elapsed + ms })
          → Ends B Q (f (record v { elapsed = v.elapsed + ms })))
      → Ends B Q (await cfg ms cut f v)
  unfolding await
  await-Ends cfg B Q ms cut f v h b k =
      elim (Bool-cases (leb (v.elapsed + ms) cfg.drain_deadline)) [
        | inl e ↦ rw (e, Ends) (k (later cfg ms v (leb→le (v.elapsed + ms) cfg.drain_deadline e) h))
        | inr e ↦ rw (e, Ends) b
      ]

  with_items :
      (cfg : DrainConfig) (items : q.Items) (v : Vacating)
      → Leaving cfg v
      → Leaving cfg (record v { items = items })
  with_items cfg items v h = record {
    flag = h.flag;
    registered = h.registered;
    in_time = h.in_time;
    kinds = h.kinds;
  }

  pub asked : (cfg : DrainConfig) (v : Vacating) → Leaving cfg v → Leaving cfg (save_asked v)
  asked cfg v h = record {
    flag = h.flag;
    registered = h.registered;
    in_time = h.in_time;
    kinds = (refl, h.kinds);
  }

  -- All of a list of items given back, after those that had been before.
  pub record GivenBack (cfg : DrainConfig) (ids : List ℕ) (v w : Vacating) : Type 0 where
    pub leaving : Leaving cfg w
    pub in_order : w.nacked ≡ v.nacked ++ ids
    pub in_queue : requeued ids v.items ≡ ok w.items

  snoc-append : (xs : List ℕ) (y : ℕ) (zs : List ℕ) → (xs ++ y ∷ []) ++ zs ≡ xs ++ y ∷ zs
  snoc-append [] y zs = refl
  snoc-append (x ∷ xs) y zs = ap (◌∷◌ x) (snoc-append xs y zs)

  append-[] : (xs : List ℕ) → xs ≡ xs ++ []
  append-[] [] = refl
  append-[] (x ∷ xs) = ap (◌∷◌ x) (append-[] xs)

  nacked_with-Ends :
      (cfg : DrainConfig) (id : ℕ) (w : Vacating) (r : Result {0} Unit × q.Items)
      → q.nack id w.items ≡ r
      → Leaving cfg w
      → Ends (Leaving cfg) (GivenBack cfg (id ∷ []) w) (nacked_with id r w)
  nacked_with-Ends cfg id w (ok r, items) e h = record {
    leaving = record {
      flag = h.flag;
      registered = h.registered;
      in_time = h.in_time;
      kinds = h.kinds;
    };
    in_order = refl;
    in_queue = rw (e, requeued) refl;
  }
  nacked_with-Ends cfg id w (err x, items) e h = with_items cfg items w h

  GivenBack-trans :
      {cfg : DrainConfig} {id : ℕ} {ids : List ℕ} {v w x : Vacating}
      → GivenBack cfg (id ∷ []) v w
      → GivenBack cfg ids w x
      → GivenBack cfg (id ∷ ids) v x
  GivenBack-trans {cfg} {id} {ids} {v} {w} {x} h k = record {
    leaving = k.leaving;
    in_order = k.in_order ∙ ap (λ n. n ++ ids) h.in_order ∙ snoc-append v.nacked id ids;
    in_queue = chain (q.nack id v.items) h.in_queue;
  }
    where
      chain :
          (r : Result {0} Unit × q.Items)
          → requeued_after (requeued []) r ≡ ok w.items
          → requeued_after (requeued ids) r ≡ ok x.items
      chain (ok u, items) e = ap (requeued ids) (ok-injective items w.items e) ∙ k.in_queue
      chain (err y, items) e = cc

  pub nack_all-Ends :
      (cfg : DrainConfig) (t : Timing) (ids : List ℕ) (v : Vacating)
      → Leaving cfg v
      → Ends (Leaving cfg) (GivenBack cfg ids v) (nack_all cfg t ids v)
  unfolding nack_all
  nack_all-Ends cfg t [] v h = record {
    leaving = h;
    in_order = append-[] v.nacked;
    in_queue = refl;
  }
  nack_all-Ends cfg t (id ∷ ids) v h =
      >>>-Ends (Leaving cfg) (GivenBack cfg (id ∷ []) v) (GivenBack cfg (id ∷ ids) v)
        (await cfg (t.nack_ms id) (nack_cut id) (λ w. nacked_with id (q.nack id w.items) w) v)
        (nack_all cfg t ids)
        (await-Ends cfg (Leaving cfg) (GivenBack cfg (id ∷ []) v) (t.nack_ms id) (nack_cut id)
          (λ w. nacked_with id (q.nack id w.items) w) v h
          (with_items cfg (q.cut_nack id v.items) v h)
          (λ l.
            Ends-map (Leaving cfg) (Leaving cfg) (GivenBack cfg (id ∷ []) (waited v))
              (GivenBack cfg (id ∷ []) v) (nacked_with id (q.nack id v.items) (waited v)) (λ w b. b)
              (λ w g. record { leaving = g.leaving; in_order = g.in_order; in_queue = g.in_queue })
              (nacked_with-Ends cfg id (waited v) (q.nack id v.items) refl l)))
        (λ w g.
          Ends-map (Leaving cfg) (Leaving cfg) (GivenBack cfg ids w) (GivenBack cfg (id ∷ ids) v)
            (nack_all cfg t ids w) (λ x b. b) (λ x k. GivenBack-trans g k)
            (nack_all-Ends cfg t ids w g.leaving))
    where
      waited : Vacating → Vacating
      waited u = record u { elapsed = u.elapsed + t.nack_ms id }
