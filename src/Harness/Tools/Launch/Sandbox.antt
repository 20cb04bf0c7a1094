-- ===== src/Harness/Tools/Launch/Sandbox.antt =====
-- A launch: the program runs in the sandbox only, and the wait for it ends.
use rollout.Prelude.{
  ℕ, zero, suc, ◌+◌, ◌*◌, ◌/◌, ◌<◌, ◌≤◌, ◌≡◌, refl, Bool, true, false, List, [], ◌∷◌, Option, none,
  some, arith, leb, drop, ◌⊎◌, inl, inr, All, if-elim,
}
use rollout.Core.Ids.{Bytes}
use rollout.Core.Errors.{Result, err, CoreError, fatal, config_invalid}
use rollout.Harness.Tools.Launch.{
  ExecRequest, ExecRun, cpu, address_space, nofile, nproc, ChildStep, unshare, setrlimit,
  restrict_paths, apply_filter, execve, Poll, exited, alive, poll_failed, Os, and_then, child,
  drained, after_kill, after_poll, wait_loop, wait_with_timeout, spawned, filtered, launch,
}

-- Every restriction in its order, and only then the program; before them only `unshare`, whose answer
-- does not matter.
abbrev pub confined : ExecRequest → List ChildStep
confined req =
    setrlimit cpu req.rlimits.cpu_secs
    ∷ setrlimit address_space req.rlimits.as_bytes
    ∷ setrlimit nofile req.rlimits.nofile
    ∷ setrlimit nproc req.rlimits.nproc
    ∷ restrict_paths req.tempdir req.exact_path
    ∷ apply_filter
    ∷ execve req.exact_path (drop 1 req.argv)
    ∷ []

module _ (os : Os) where
  -- The steps are those of the plan up to one that fails, which is the last.
  abbrev pub StopsAt : List ChildStep → List ChildStep → Type 0
  StopsAt [] all = ⊥
  StopsAt (s ∷ steps) [] = ⊥
  StopsAt (s ∷ steps) (t ∷ all) =
      (s ≡ t)
      × (((os.succeeds t ≡ false) × (steps ≡ [])) ⊎ ((os.succeeds t ≡ true) × StopsAt steps all))

  abbrev pub AllSucceed : List ChildStep → Type 0
  AllSucceed = All (λ s. os.succeeds s ≡ true)

  abbrev Cases : Bool × List ChildStep → List ChildStep → Type 0
  Cases r all = ((r.0 ≡ true) × (r.1 ≡ all) × AllSucceed all) ⊎ ((r.0 ≡ false) × StopsAt r.1 all)

  and_then-Cases :
      (s : ChildStep) (r : Bool × List ChildStep) (all : List ChildStep)
      → Cases r all
      → Cases (and_then os s r) (s ∷ all)
  and_then-Cases s (done, rest) all h =
      if-elim (λ r. Cases r (s ∷ all)) (os.succeeds s) (done, s ∷ rest) (false, s ∷ [])
        (λ e. elim h [
          | inl (d, same, ok) ↦ inl (d, rw same refl, (e, ok))
          | inr (d, stops) ↦ inr (d, (refl, inr (e, stops)))
        ])
        (λ e. inr (refl, (refl, inl (e, refl))))

  child-Cases :
      (req : ExecRequest)
      → Cases ((child os req).0, drop 1 (child os req).1) (confined req)
        × ((child os req).1 ≡ unshare ∷ drop 1 (child os req).1)
  unfolding child
  child-Cases req = (
    and_then-Cases (setrlimit cpu req.rlimits.cpu_secs) _ _ (
        and_then-Cases (setrlimit address_space req.rlimits.as_bytes) _ _ (
          and_then-Cases (setrlimit nofile req.rlimits.nofile) _ _ (
            and_then-Cases (setrlimit nproc req.rlimits.nproc) _ _ (
              and_then-Cases (restrict_paths req.tempdir req.exact_path) _ _ (
                and_then-Cases apply_filter _ _ (
                  and_then-Cases (execve req.exact_path (drop 1 req.argv)) (true, []) []
                    (inl (refl, refl, tt)))))))),
    refl,
  )

  -- A pipe is never at its end.
  abbrev pub HeldOpen : Type 0
  HeldOpen = (os.stdout ≡ none) ⊎ (os.stderr ≡ none)

  -- A wait that returns, or does not since a pipe is held open.
  abbrev Waits : Option (Result ExecRun) → Type 0
  Waits o = ((r : Result ExecRun) × (o ≡ some r)) ⊎ ((o ≡ none) × HeldOpen)

  drained-Waits :
      (late : Bool) (status : Option ℕ) (out err_text : Option Bytes)
      → os.stdout ≡ out
      → os.stderr ≡ err_text
      → Waits (drained late status out err_text)
  drained-Waits late status none err_text h k = inr (refl, inl h)
  drained-Waits late status (some out) none h k = inr (refl, inr k)
  drained-Waits late status (some out) (some err_text) h k = inl (_, refl)

  after_kill-Waits : (killed : Option (Option ℕ)) → Waits (after_kill os killed)
  after_kill-Waits none = inl (_, refl)
  after_kill-Waits (some status) = drained-Waits true status os.stdout os.stderr refl refl

  after_poll-Waits :
      (timeout elapsed : ℕ) (rest : Option (Result ExecRun)) (poll : Poll)
      → (leb timeout elapsed ≡ false → Waits rest)
      → Waits (after_poll os timeout elapsed rest poll)
  after_poll-Waits timeout elapsed rest (exited status) h =
      drained-Waits false status os.stdout os.stderr refl refl
  after_poll-Waits timeout elapsed rest poll_failed h = inl (_, refl)
  after_poll-Waits timeout elapsed rest alive h =
      if-elim Waits (leb timeout elapsed) (after_kill os os.killed) rest
        (λ late. after_kill-Waits os.killed) h

  -- Each round lasts five milliseconds at least, so the deadline comes before the fuel is used up.
  wait_loop-Waits :
      (timeout fuel i : ℕ)
      → timeout + 5 ≤ (i + fuel) * 5
      → 0 < fuel
      → Waits (wait_loop os timeout fuel i)
  unfolding wait_loop
  wait_loop-Waits timeout zero i enough some_fuel = absurd (omega arith)
  wait_loop-Waits timeout (suc zero) i enough some_fuel =
      after_poll-Waits timeout (os.elapsed i) none (os.try_wait i)
        (λ early. absurd (ground (arith, os.sleeps i)))
  wait_loop-Waits timeout (suc (suc fuel)) i enough some_fuel =
      after_poll-Waits timeout (os.elapsed i) (wait_loop os timeout (suc fuel) (suc i))
        (os.try_wait i)
        (λ early. wait_loop-Waits timeout (suc fuel) (suc i) (omega arith) (omega arith))

  wait_with_timeout-Waits : (timeout : ℕ) → Waits (wait_with_timeout os timeout)
  wait_with_timeout-Waits timeout =
      wait_loop-Waits timeout (timeout / 5 + 2) 0 (omega arith) (omega arith)

  -- How a launch ends.
  pub data Launched (req : ExecRequest) : Option (Result ExecRun × List ChildStep) → Type 0 where
    contained :
        (r : Result ExecRun)
        → AllSucceed (confined req)
        → Launched req (some (r, unshare ∷ confined req))
    held_open : AllSucceed (confined req) → HeldOpen → Launched req none
    stopped :
        (steps : List ChildStep)
        → StopsAt steps (confined req)
        → Launched req (some (err (fatal (config_invalid "spawn ")), unshare ∷ steps))
    not_spawned : (e : CoreError) → Launched req (some (err e, []))

  contained-Launched :
      (req : ExecRequest) (steps : List ChildStep)
      → steps ≡ unshare ∷ confined req
      → AllSucceed (confined req)
      → Launched req (spawned os req (true, steps))
  contained-Launched req steps e ok = elim (wait_with_timeout-Waits req.timeout) [
    | inl (r, w) ↦ rw (spawned, w, e) (contained r ok)
    | inr (w, held) ↦ rw (spawned, w) (held_open ok held)
  ]

  spawned-Launched :
      (req : ExecRequest) (done : Bool) (steps rest : List ChildStep)
      → steps ≡ unshare ∷ rest
      → Cases (done, rest) (confined req)
      → Launched req (spawned os req (done, steps))
  spawned-Launched req true steps rest e (inl (d, same, ok)) =
      contained-Launched req steps (cc (e, same)) ok
  spawned-Launched req false steps rest e (inr (d, stops)) = rw e (stopped rest stops)
  spawned-Launched req false steps rest e (inl (d, same, ok)) = absurd (cc (d))
  spawned-Launched req true steps rest e (inr (d, stops)) = absurd (cc (d))

  filtered-Launched : (req : ExecRequest) (o : Option CoreError) → Launched req (filtered os req o)
  filtered-Launched req none =
      let (cases, front) = child-Cases req in
      spawned-Launched req (child os req).0 (child os req).1 (drop 1 (child os req).1) front cases
  filtered-Launched req (some e) = not_spawned e

-- The program runs only in a child that has set its four limits, then restricted its paths, then applied
-- the filter, each with success; where one of these steps or the start of the program fails the child
-- stops at it, and the launch is an error. The wait for the program ends, by its kill after the timeout:
-- a launch that does not return has run the program in the sandbox and is held up by a pipe that another
-- process keeps open.
pub launch-Launched : (os : Os) (req : ExecRequest) → Launched os req (launch os req)
unfolding launch
launch-Launched os req =
    if-elim (Launched os req) (os.cgroup req.memory_max req.pids_max)
      (filtered os req os.build_filter) (some (err (fatal (config_invalid "cgroup setup: ")), []))
      (λ e. filtered-Launched os req os.build_filter) (λ e. not_spawned _)
