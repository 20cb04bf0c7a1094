-- ===== src/Coordinator/Config/Timing.antt =====
-- What an accepted configuration means for the timing of the lease.
use Prim.Native.String.{String}
use rollout.Prelude.{
  ℕ, ◌+◌, ◌*◌, ◌≤◌, ◌<◌, ◌≡◌, ◌↔◌, ◌⊎◌, inl, inr, Bool-cases, refl, true, leb, Option, some, none,
  List, [], ◌∷◌, arith,
}
use rollout.Core.Ids.{RunId, WorkerId}
use rollout.Core.Errors.{ok, err, fatal, config_invalid, >>=-eq-ok}
use rollout.Store.{Storage, Codec, encode}
use rollout.Coordinator.Lease.{LeaseRecord, u128_mod, extended, try_acquire, renew, commit_claim}
use rollout.Coordinator.Lease.Claim.{LeaseIs, commit_claim-Claimed}
use rollout.Coordinator.Lease.Exclusion.{live_lease_excludes}
use rollout.Coordinator.Config.{
  CoordinatorConfig, TransportConfig, as_millis, duration_max, times, valid, invalid, verdict,
  validate_cross_fields, validate, lease_ttl, lease_renew_interval, load_config, validated_config,
}

-- The four conditions of the checks.
pub record IsSound (t : TransportConfig) : Type 0 where
  pub representable : t.heartbeat_interval * 2 ≤ duration_max
  pub fences_first : t.worker_self_fence_timeout < t.coordinator_failure_timeout
  pub skew_small : t.clock_skew_budget < t.heartbeat_interval * 2
  pub renews_early : t.heartbeat_interval < t.coordinator_failure_timeout

-- The check accepts a configuration exactly where the worker fences itself before it is declared
-- failed, the skew is below two heartbeats, a heartbeat is shorter than the failure timeout, and
-- twice the heartbeat is a `Duration`.
pub validate_iff_IsSound :
    (cfg : CoordinatorConfig) → (validate cfg ≡ some valid) ↔ IsSound cfg.transport
unfolding validate validate_cross_fields times lease_ttl lease_renew_interval
validate_iff_IsSound cfg = (to, from)
  where
    to : validate cfg ≡ some valid → IsSound cfg.transport
    to h = record {
      representable = ground arith;
      fences_first = ground arith;
      skew_small = ground arith;
      renews_early = ground arith;
    }

    from : IsSound cfg.transport → validate cfg ≡ some valid
    from s =
        let a : _ = s.representable in
        let b : _ = s.fences_first in
        let c : _ = s.skew_small in let d : _ = s.renews_early in ground arith

validate-total :
    (cfg : CoordinatorConfig)
    → cfg.transport.heartbeat_interval * 2 ≤ duration_max
    → (validate cfg ≡ some valid) ⊎ ((es : List String) × (validate cfg ≡ some (invalid es)))
unfolding validate validate_cross_fields times
validate-total cfg fits =
    elim (Bool-cases (leb (cfg.transport.heartbeat_interval * 2) duration_max)) [
      | inl e ↦ rw e (verdicts _)
      | inr e ↦ absurd (ground arith)
    ]
  where
    verdicts :
        (errs : List String)
        → (some (verdict errs) ≡ some valid)
          ⊎ ((es : List String) × (some (verdict errs) ≡ some (invalid es)))
    verdicts [] = inl refl
    verdicts (e ∷ es) = inr (e ∷ es, refl)

-- A file that is read and parsed, with a heartbeat whose double is a `Duration`, is loaded as it
-- stands where its timing is sound, and is refused as invalid otherwise.
pub load_config-verdict :
    {Text : Type 0} (raw : Text) (from_str : Text → Option CoordinatorConfig)
    (cfg : CoordinatorConfig)
    → from_str raw ≡ some cfg
    → cfg.transport.heartbeat_interval * 2 ≤ duration_max
    → (IsSound cfg.transport × (load_config (some raw) from_str ≡ some (ok cfg)))
      ⊎ ((¬ IsSound cfg.transport)
          × (load_config (some raw) from_str
              ≡ some (err (fatal (config_invalid "coordinator config invalid: ")))))
unfolding load_config validated_config
load_config-verdict raw from_str cfg parsed fits = elim (validate-total cfg fits) [
  | inl v ↦ inl ((validate_iff_IsSound cfg).0 v, rw parsed (at_valid v))
  | inr (es, v) ↦
      inr (λ s. absurd (cc ((validate_iff_IsSound cfg).1 s, v)), rw parsed (at_invalid es v))
]
  where
    at_valid : validate cfg ≡ some valid → validated_config (some cfg) ≡ some (ok cfg)
    at_valid v = rw v refl

    at_invalid :
        (es : List String)
        → validate cfg ≡ some (invalid es)
        → validated_config (some cfg)
          ≡ some (err (fatal (config_invalid "coordinator config invalid: ")))
    at_invalid es v = rw v refl

as_millis_mono : (a b : ℕ) → a ≤ b → as_millis a ≤ as_millis b
unfolding as_millis
as_millis_mono a b h = omega arith

module _ ⦃st : Storage⦄ ⦃leases : Codec LeaseRecord⦄ ⦃epochs : Codec ℕ⦄ where
  -- Under an accepted configuration, a lease that was renewed is held until the next tick of the
  -- renew loop: an acquire by anyone up to then is refused and writes nothing. The deadline must
  -- not wrap.
  pub accepted_lease_spans_ticks :
      (cfg : CoordinatorConfig) (run_id : RunId) (held : LeaseRecord) (renewed now : ℕ)
      (other : WorkerId) (ttl_ms : ℕ) (c c' read : st.Contents) {r : Option LeaseRecord}
      {c'' : st.Contents}
      → validate cfg ≡ some valid
      → renew run_id held (as_millis (lease_ttl cfg)) renewed c ≡ ok (true, c')
      → renewed + as_millis (lease_ttl cfg) < u128_mod
      → now ≤ renewed + as_millis (lease_renew_interval cfg)
      → try_acquire run_id other ttl_ms now read c' ≡ ok (r, c'')
      → (r ≡ none) × (c'' ≡ c')
  unfolding renew lease_ttl lease_renew_interval
  accepted_lease_spans_ticks cfg run_id held renewed now other ttl_ms c c' read v h fits soon a =
      live_lease_excludes run_id (extended held renewed (as_millis (lease_ttl cfg))) other ttl_ms
        now read c' row live a
    where
      row : LeaseIs run_id (extended held renewed (as_millis (lease_ttl cfg))) c'
      row =
          let (b, e, w) =
            >>=-eq-ok (encode held)
              (λ b.
                commit_claim run_id (some b) (extended held renewed (as_millis (lease_ttl cfg))) c)
              h in
          (commit_claim-Claimed run_id (some b) (extended held renewed (as_millis (lease_ttl cfg)))
              c w).lease
            refl

      live : now ≤ (extended held renewed (as_millis (lease_ttl cfg))).expires_at_ms
      live =
          let early : _ = ((validate_iff_IsSound cfg).0 v).renews_early in
          let ms : _ =
            as_millis_mono (lease_renew_interval cfg) (lease_ttl cfg) (omega (arith, early)) in
          omega (arith, ms, soon, fits)
