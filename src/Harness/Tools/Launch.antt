-- ===== src/Harness/Tools/Launch.antt =====
-- crates/rollout-harness-tool/src/sandbox/launcher.rs: `launch` and `wait_with_timeout`. What the
-- kernel, the cgroups and the seccomp compiler answer is an argument.
use rollout.Prelude.{
  ℕ, zero, suc, ◌+◌, ◌*◌, ◌/◌, ◌≤◌, leb, Bool, true, false, List, [], ◌∷◌, ◌++◌, Option, none, some,
  if◌then◌else◌, drop,
}
use rollout.Core.Ids.{Bytes}
use rollout.Core.Errors.{Result, ok, err, CoreError, fatal, config_invalid}
pub mod Sandbox

pub data ℤ : Type 0 where
  pos : ℕ → ℤ
  negsuc : ℕ → ℤ

pub record Rlimits : Type 0 where
  pub cpu_secs : ℕ
  pub as_bytes : ℕ
  pub nofile : ℕ
  pub nproc : ℕ

-- A `Duration` is its milliseconds, a path its bytes.
pub record ExecRequest : Type 0 where
  pub exact_path : Bytes
  pub argv : List Bytes
  pub timeout : ℕ
  pub tempdir : Bytes
  pub rlimits : Rlimits
  pub memory_max : Option ℕ
  pub pids_max : Option ℕ

-- `ExecResult`, and `ExecRun` of lib.rs with the same fields.
pub record ExecRun : Type 0 where
  pub exit_code : ℤ
  pub stdout : Bytes
  pub stderr : Bytes
  pub timed_out : Bool

pub data Limit : Type 0 where
  cpu : Limit
  address_space : Limit
  nofile : Limit
  nproc : Limit

-- What the child does between the fork and the program.
pub data ChildStep : Type 0 where
  unshare : ChildStep
  setrlimit : Limit → ℕ → ChildStep
  restrict_paths : Bytes → Bytes → ChildStep
  apply_filter : ChildStep
  execve : Bytes → List Bytes → ChildStep

-- `try_wait`; a status has a code unless a signal ended the child.
pub data Poll : Type 0 where
  exited : Option ℕ → Poll
  alive : Poll
  poll_failed : Poll

pub record Os : Type 0 where
  pub cgroup : Option ℕ → Option ℕ → Bool
  pub build_filter : Option CoreError
  pub succeeds : ChildStep → Bool
  pub try_wait : ℕ → Poll
  -- The milliseconds from the start of the wait to the i-th poll, and their documented bound: a
  -- sleep lasts at least as long as it is asked to.
  pub elapsed : ℕ → ℕ
  pub sleeps : (i : ℕ) → i * 5 ≤ elapsed i
  -- `wait` after the kill.
  pub killed : Option (Option ℕ)
  -- What `read_to_end` gives of each pipe after the end of the program; none where it never ends, since
  -- another process still holds the pipe.
  pub stdout : Option Bytes
  pub stderr : Option Bytes

-- `?` in the child: what follows a step that fails is left out, and the spawn fails.
abbrev pub and_then : Os → ChildStep → Bool × List ChildStep → Bool × List ChildStep
and_then os s (done, rest) = if os.succeeds s then (done, s ∷ rest) else (false, s ∷ [])

-- The closure of `pre_exec` and the program. The answer of `unshare` is ignored.
unfoldable pub child : Os → ExecRequest → Bool × List ChildStep
child os req =
    let limits = req.rlimits in
    let (done, steps) = and_then os (setrlimit cpu limits.cpu_secs) (
      and_then os (setrlimit address_space limits.as_bytes) (
        and_then os (setrlimit nofile limits.nofile) (
          and_then os (setrlimit nproc limits.nproc) (
            and_then os (restrict_paths req.tempdir req.exact_path) (
              and_then os apply_filter
                (and_then os (execve req.exact_path (drop 1 req.argv)) (true, []))))))) in
    (done, unshare ∷ steps)

abbrev pub code_of : Option ℕ → ℤ
code_of none = negsuc 0
code_of (some n) = pos n

-- The two pipes are read to their ends. No bound of time holds there.
abbrev pub drained : Bool → Option ℕ → Option Bytes → Option Bytes → Option (Result ExecRun)
drained timed_out status none err_text = none
drained timed_out status (some out) none = none
drained timed_out status (some out) (some err_text) = some (
    ok (record {
      exit_code = code_of status;
      stdout = out;
      stderr = err_text;
      timed_out = timed_out;
    }))

abbrev pub exec_result : Os → Bool → Option ℕ → Option (Result ExecRun)
exec_result os timed_out status = drained timed_out status os.stdout os.stderr

abbrev pub after_kill : Os → Option (Option ℕ) → Option (Result ExecRun)
after_kill os none = some (err (fatal (config_invalid "wait after kill: ")))
after_kill os (some status) = exec_result os true status

-- A round of the wait; `rest` is what follows the sleep.
abbrev pub after_poll : Os → ℕ → ℕ → Option (Result ExecRun) → Poll → Option (Result ExecRun)
after_poll os timeout elapsed rest (exited status) = exec_result os false status
after_poll os timeout elapsed rest poll_failed = some (err (fatal (config_invalid "try_wait: ")))
after_poll os timeout elapsed rest alive =
    if leb timeout elapsed then after_kill os os.killed else rest

-- The loop, on fuel.
unfoldable pub wait_loop : Os → ℕ → ℕ → ℕ → Option (Result ExecRun)
wait_loop os timeout zero i = none
wait_loop os timeout (suc fuel) i =
    let rest = wait_loop os timeout fuel (suc i) in
    after_poll os timeout (os.elapsed i) rest (os.try_wait i)

abbrev pub wait_with_timeout : Os → ℕ → Option (Result ExecRun)
wait_with_timeout os timeout = wait_loop os timeout (timeout / 5 + 2) 0

abbrev pub with_steps :
    List ChildStep → Option (Result ExecRun) → Option (Result ExecRun × List ChildStep)
with_steps steps none = none
with_steps steps (some r) = some (r, steps)

abbrev pub spawned :
    Os → ExecRequest → Bool × List ChildStep → Option (Result ExecRun × List ChildStep)
spawned os req (false, steps) = some (err (fatal (config_invalid "spawn ")), steps)
spawned os req (true, steps) = with_steps steps (wait_with_timeout os req.timeout)

abbrev pub filtered : Os → ExecRequest → Option CoreError → Option (Result ExecRun × List ChildStep)
filtered os req (some e) = some (err e, [])
filtered os req none = spawned os req (child os req)

-- The result, and what the child has done; none where the call does not return.
unfoldable pub launch : Os → ExecRequest → Option (Result ExecRun × List ChildStep)
unfolding child wait_loop
launch os req =
    if os.cgroup req.memory_max req.pids_max
    then filtered os req os.build_filter
    else some (err (fatal (config_invalid "cgroup setup: ")), [])
