-- ===== src/Coordinator/Config.antt =====
-- crates/rollout-coordinator/src/config.rs, the timing fields of crates/rollout-transport/src/
-- config.rs, and the load of the configuration in run.rs.
-- A `Duration` is its number of nanoseconds.
pub mod Timing
use Prim.Native.String.{String}
use mathlib.Core.Option.{map}
use rollout.Prelude.{
  ℕ, ◌-◌, ◌*◌, ◌/◌, leb, ◌==◌, Bool, not, Option, none, some, List, [], ◌∷◌, ◌++◌, if◌then◌else◌,
}
use rollout.Core.Errors.{Result, ok, err, fatal, config_invalid, internal}
use rollout.Coordinator.Lease.{u64_mod}

abbrev pub Duration : Type 0
Duration = ℕ

abbrev pub from_millis : ℕ → Duration
from_millis ms = ms * 1000000

unfoldable pub as_millis : Duration → ℕ
as_millis d = d / 1000000

-- `Duration::MAX`: 2^64 - 1 seconds and 999999999 nanoseconds.
abbrev pub duration_max : Duration
duration_max = u64_mod * 1000000000 - 1

-- `d * n`, which panics when the product is no `Duration`.
unfoldable pub times : Duration → ℕ → Option Duration
times d n = if leb (d * n) duration_max then some (d * n) else none

-- The address and the directory are their texts.
pub record TransportConfig : Type 0 where
  pub listen_addr : String
  pub tls_dir : String
  pub heartbeat_interval : Duration
  pub worker_self_fence_timeout : Duration
  pub coordinator_failure_timeout : Duration
  pub clock_skew_budget : Duration

abbrev pub default_transport : TransportConfig
default_transport = record {
  listen_addr = "127.0.0.1:50051";
  tls_dir = "./data/tls";
  heartbeat_interval = from_millis 500;
  worker_self_fence_timeout = from_millis 4000;
  coordinator_failure_timeout = from_millis 5000;
  clock_skew_budget = from_millis 250;
}

-- The configuration of the store is left out.
pub record CoordinatorConfig : Type 0 where
  pub run_id : String
  pub transport : TransportConfig

abbrev pub fence_violation : String
fence_violation =
    "transport.worker_self_fence_timeout must be strictly less than transport.coordinator_failure_timeout (split-brain prevention)"

abbrev pub skew_violation : String
skew_violation = "transport.clock_skew_budget must be less than 2 × transport.heartbeat_interval"

abbrev pub ttl_violation : String
ttl_violation = "coordinator lease TTL must equal transport.coordinator_failure_timeout"

abbrev pub cadence_violation : String
cadence_violation =
    "coordinator lease renew cadence must be strictly less than the lease TTL (coordinator_failure_timeout)"

-- `Result<(), Vec<String>>`
pub data Validated : Type 0 where
  valid : Validated
  invalid : List String → Validated

-- `if errs.is_empty() { Ok(()) } else { Err(errs) }`
abbrev pub verdict : List String → Validated
verdict [] = valid
verdict (e ∷ es) = invalid (e ∷ es)

-- The violations of a result, none of one that is valid.
abbrev pub violations : Validated → List String
violations valid = []
violations (invalid es) = es

-- `if bad { errs.push(message) }`
abbrev pub push_if : Bool → String → List String → List String
push_if bad message errs = if bad then errs ++ message ∷ [] else errs

unfoldable pub validate_cross_fields : TransportConfig → Option Validated
validate_cross_fields t =
    let errs =
      push_if (leb t.coordinator_failure_timeout t.worker_self_fence_timeout) fence_violation [] in
    map (λ two_beats. verdict (push_if (leb two_beats t.clock_skew_budget) skew_violation errs))
      (times t.heartbeat_interval 2)

unfoldable pub lease_ttl : CoordinatorConfig → Duration
lease_ttl cfg = cfg.transport.coordinator_failure_timeout

unfoldable pub lease_renew_interval : CoordinatorConfig → Duration
lease_renew_interval cfg = cfg.transport.heartbeat_interval

-- The checks of the lease, after those of the transport.
abbrev pub lease_checks : CoordinatorConfig → List String → Validated
lease_checks cfg errs = verdict (
    push_if (leb (lease_ttl cfg) (lease_renew_interval cfg)) cadence_violation (
      push_if (not (lease_ttl cfg == cfg.transport.coordinator_failure_timeout)) ttl_violation
        errs))

unfoldable pub validate : CoordinatorConfig → Option Validated
validate cfg = map (λ v. lease_checks cfg (violations v)) (validate_cross_fields cfg.transport)

-- `validate().map_err(..)?`
abbrev pub checked : CoordinatorConfig → Validated → Result CoordinatorConfig
checked cfg valid = ok cfg
checked cfg (invalid es) = err (fatal (config_invalid "coordinator config invalid: "))

-- From the parsed file on.
unfoldable pub validated_config : Option CoordinatorConfig → Option (Result CoordinatorConfig)
validated_config none = some (err (fatal (internal "parse coordinator config: ")))
validated_config (some cfg) = map (checked cfg) (validate cfg)

-- `text` is what reading the file gives and `from_str` the TOML parser; the outer option is `none`
-- where the check panics.
unfoldable pub load_config :
    {Text : Type 0}
    → Option Text
    → (Text → Option CoordinatorConfig)
    → Option (Result CoordinatorConfig)
load_config none from_str = some (err (fatal (internal "read coordinator config : ")))
load_config (some text) from_str = validated_config (from_str text)
