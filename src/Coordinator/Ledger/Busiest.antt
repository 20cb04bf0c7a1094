-- ===== src/Coordinator/Ledger/Busiest.antt =====
-- The busiest peer is the one with the largest backlog.
use rollout.Prelude.{
  ℕ, ◌+◌, ◌==◌, ◌≡◌, ◌≢◌, ◌≤◌, ◌<◌, refl, Bool, true, false, List, [], ◌∷◌, Option, none, some,
  if◌then◌else◌, arith, All, inl, inr, ◌⊎◌, ◌||◌,
}
use rollout.Core.Ids.{RunId, WorkerId}
use rollout.Core.Errors.{ok, ◌>>=◌}
use rollout.Store.{Storage, Codec}
use rollout.Coordinator.WorkItem.{
  WorkState, pending, running, done, failed, WorkItemRecord, work_prefix,
}
use rollout.Coordinator.Ledger.{
  runs_on, count_running, Counts, bump, tally_one, tally, entry_le, max_from, max_entry, decode_all,
  busiest,
}

abbrev count_of : WorkerId → Counts → ℕ
count_of w [] = 0
count_of w ((v, n) ∷ cs) = if v == w then n else count_of w cs

abbrev has_key : WorkerId → Counts → Bool
has_key w [] = false
has_key w ((v, n) ∷ cs) = (v == w) || has_key w cs

-- Each worker has one entry, and it counts something.
abbrev IsTally : Counts → Type 0
IsTally [] = Unit
IsTally ((v, n) ∷ cs) = (has_key v cs ≡ false) × (0 < n) × IsTally cs

count_of-bump :
    (v w : WorkerId) (cs : Counts)
    → count_of v (bump w cs) ≡ (if w == v then count_of v cs + 1 else count_of v cs)
unfolding bump
count_of-bump v w [] = ground arith
count_of-bump v w ((u, n) ∷ cs) = ground (arith, count_of-bump v w cs)

has_key-bump : (v w : WorkerId) (cs : Counts) → has_key v (bump w cs) ≡ ((w == v) || has_key v cs)
unfolding bump
has_key-bump v w [] = ground arith
has_key-bump v w ((u, n) ∷ cs) = ground (arith, has_key-bump v w cs)

bump-IsTally : (w : WorkerId) (cs : Counts) → IsTally cs → IsTally (bump w cs)
unfolding bump
bump-IsTally w [] h = (refl, omega arith, tt)
bump-IsTally w ((u, n) ∷ cs) h =
    ground (arith, bump-IsTally w cs h.2, has_key-bump u w cs, h.0, h.1, h.2)

abbrev weight : WorkerId → WorkerId → WorkState → ℕ
weight exclude v s = if v == exclude then 0 else (if runs_on v s then 1 else 0)

count_of-tally_one :
    (exclude v : WorkerId) (s : WorkState) (cs : Counts)
    → count_of v (tally_one exclude s cs) ≡ count_of v cs + weight exclude v s
unfolding tally_one
count_of-tally_one exclude v (running w t) cs = ground (arith, count_of-bump v w cs)
count_of-tally_one exclude v pending cs = ground arith
count_of-tally_one exclude v (done r) cs = ground arith
count_of-tally_one exclude v (failed r) cs = ground arith

tally_one-IsTally :
    (exclude : WorkerId) (s : WorkState) (cs : Counts)
    → IsTally cs
    → IsTally (tally_one exclude s cs)
unfolding tally_one
tally_one-IsTally exclude (running w t) cs h = ground (arith, bump-IsTally w cs h)
tally_one-IsTally exclude pending cs h = h
tally_one-IsTally exclude (done r) cs h = h
tally_one-IsTally exclude (failed r) cs h = h

-- The count of a worker in the tally is its count in the ledger, and 0 for the excluded one.
count_of-tally :
    (exclude v : WorkerId) (recs : List WorkItemRecord) (cs : Counts)
    → count_of v (tally exclude recs cs)
      ≡ count_of v cs + (if v == exclude then 0 else count_running v recs)
unfolding tally
count_of-tally exclude v [] cs = ground arith
count_of-tally exclude v (rec ∷ recs) cs = ground (
  arith,
  count_of-tally exclude v recs (tally_one exclude rec.state cs),
  count_of-tally_one exclude v rec.state cs,
)

tally-IsTally :
    (exclude : WorkerId) (recs : List WorkItemRecord) (cs : Counts)
    → IsTally cs
    → IsTally (tally exclude recs cs)
unfolding tally
tally-IsTally exclude [] cs h = h
tally-IsTally exclude (rec ∷ recs) cs h =
    tally-IsTally exclude recs (tally_one exclude rec.state cs)
      (tally_one-IsTally exclude rec.state cs h)

-- The running maximum is one of the entries seen, and no entry seen has a greater count.
max_from-greatest :
    (b : WorkerId × ℕ) (es : Counts)
    → (b.1 ≤ (max_from b es).1) × All (λ e. e.1 ≤ (max_from b es).1) es
unfolding max_from
max_from-greatest b [] = (omega arith, tt)
max_from-greatest b (e ∷ es) =
    let next = if entry_le b e then e else b in
    let (low, all) = max_from-greatest next es in
    let (hb, he) = steps b e in (omega (arith, hb, low), (omega (arith, he, low), all))
  where
    steps :
        (b e : WorkerId × ℕ)
        → (b.1 ≤ (if entry_le b e then e else b).1) × (e.1 ≤ (if entry_le b e then e else b).1)
    steps b e = ground arith

abbrev Has : WorkerId × ℕ → Counts → Type 0
Has x [] = ⊥
Has x (e ∷ es) = (x ≡ e) ⊎ Has x es

max_from-Has : (b : WorkerId × ℕ) (es : Counts) → (max_from b es ≡ b) ⊎ Has (max_from b es) es
unfolding max_from
max_from-Has b [] = inl refl
max_from-Has b (e ∷ es) =
    elim (entry_le b e)
      as (λ t.
        (max_from (if t then e else b) es ≡ b) ⊎ Has (max_from (if t then e else b) es) (e ∷ es)) [
          | true ↦ elim (max_from-Has e es) [ inl q ↦ inr (inl q) | inr q ↦ inr (inr q) ]
          | false ↦ elim (max_from-Has b es) [ inl q ↦ inl q | inr q ↦ inr (inr q) ]
        ]

Has-key : (x : WorkerId × ℕ) (cs : Counts) → Has x cs → has_key x.0 cs ≡ true
Has-key x [] h = absurd h
Has-key x ((v, n) ∷ cs) (inl e) = ground arith
Has-key x ((v, n) ∷ cs) (inr h) = ground (arith, Has-key x cs h)

Has-count :
    (x : WorkerId × ℕ) (cs : Counts) → IsTally cs → Has x cs → (count_of x.0 cs ≡ x.1) × (0 < x.1)
Has-count x [] t h = absurd h
Has-count x ((v, n) ∷ cs) t (inl e) = ground (arith, t.1)
Has-count x ((v, n) ∷ cs) t (inr h) = ground (arith, Has-count x cs t.2 h, Has-key x cs h, t.0)

count_of-le : (v : WorkerId) (m : ℕ) (cs : Counts) → All (λ e. e.1 ≤ m) cs → count_of v cs ≤ m
count_of-le v m [] h = omega arith
count_of-le v m ((u, n) ∷ cs) h = ground (arith, h.0, count_of-le v m cs h.1)

-- What is said of the outcome of a search for the busiest: its backlog, and that no other is larger.
abbrev pub IsBusiest : WorkerId → List WorkItemRecord → Option (WorkerId × ℕ) → Type 0
IsBusiest exclude recs none = (v : WorkerId) → v ≢ exclude → count_running v recs ≡ 0
IsBusiest exclude recs (some (w, n)) =
    (w ≢ exclude)
    × (n ≡ count_running w recs)
    × (0 < n)
    × ((v : WorkerId) → v ≢ exclude → count_running v recs ≤ n)

max_entry-IsBusiest :
    (exclude : WorkerId) (recs : List WorkItemRecord) (cs : Counts)
    → IsTally cs
    → ((v : WorkerId) → count_of v cs ≡ (if v == exclude then 0 else count_running v recs))
    → IsBusiest exclude recs (max_entry cs)
unfolding max_entry
max_entry-IsBusiest exclude recs [] t h = λ v ne. ground (arith, h v)
max_entry-IsBusiest exclude recs (e ∷ es) t h =
    let m : WorkerId × ℕ = max_from e es in
    let (low, all) = max_from-greatest e es in
    let (here, positive) = Has-count m (e ∷ es) t (max_from-Has e es) in
    (
      ground (arith, h m.0),
      ground (arith, h m.0),
      positive,
      λ v ne. ground (arith, h v, count_of-le v m.1 (e ∷ es) (low, all)),
    )

module _ ⦃st : Storage⦄ ⦃codec : Codec WorkItemRecord⦄ where
  -- Where the ledger decodes to `recs`, `busiest` is none only if no other worker runs an item;
  -- otherwise it is a worker other than the excluded one, with its count of running items, which is
  -- positive and at least that of every other worker. It does not depend on the order of the map.
  pub busiest-IsBusiest :
      (run_id : RunId) (exclude : WorkerId) (c : st.Contents) (recs : List WorkItemRecord)
      → decode_all (st.scan_bytes (work_prefix run_id) c) ≡ ok recs
      → (r : Option (WorkerId × ℕ)) × (busiest run_id exclude c ≡ ok r) × IsBusiest exclude recs r
  unfolding busiest
  busiest-IsBusiest run_id exclude c recs h = (
    max_entry (tally exclude recs []),
    rw (h, ◌>>=◌),
    max_entry-IsBusiest exclude recs (tally exclude recs []) (tally-IsTally exclude recs [] tt)
        (λ v. ground (arith, count_of-tally exclude v recs [])),
  )
