-- ===== src/Examples/Agents.antt =====
-- Calls of tools, with arguments that are a text.
use rollout.Prelude.{
  ℕ, zero, suc, ◌*◌, ◌≡◌, refl, true, false, List, [], ◌∷◌, Option, none, some, arith, map,
  bytes_eq, codes, if◌then◌else◌,
}
use rollout.Core.Ids.{Bytes}
use rollout.Core.Errors.{ok, err, fatal, config_invalid}
use rollout.Harness.Tools.Launch.{
  unshare, setrlimit, cpu, Poll, exited, alive, Os, child, wait_loop, launch,
}
use rollout.Harness.Tools.Launch.Sandbox.{Launched, launch-Launched}
use rollout.Harness.Tools.Paths.{reject_escape}
use rollout.Harness.Tools.Settings.{
  ToolSettings, default_settings, from_settings, python_exec, file_read, file_write,
}
use rollout.Harness.Tools.Run.{error, ToolCall, ToolResult, Effect, Decoder, Utf8, World, request}
use rollout.Harness.Tools.Invoke.{invoke_one}
use rollout.Harness.Tools.Calls.{file_read_finds_nothing}
use rollout.Examples.Network.{rebinding}

abbrev under_url : Bytes → Bytes → Option Bytes
under_url name args = if bytes_eq name (codes "url") then some args else none

instance abbrev plain : Decoder Bytes
plain = record {
  python_args = λ args. some args;
  shell_args = λ args. some (args ∷ []);
  read_args = λ args. some args;
  write_args = λ args. some (args, codes "text");
  get_str = under_url;
}

instance abbrev as_is : Utf8
as_is = record { from_utf8_lossy = λ bytes. bytes }

abbrev at_second_poll : ℕ → Poll
at_second_poll zero = alive
at_second_poll (suc n) = exited (some 0)

-- A poll each five milliseconds; the program ends before the second.
abbrev quick : Os
quick = record {
  cgroup = λ memory pids. true;
  build_filter = none;
  succeeds = λ step. true;
  try_wait = at_second_poll;
  elapsed = λ i. i * 5;
  sleeps = λ i. omega arith;
  killed = none;
  stdout = some (codes "out");
  stderr = some [];
}

-- The directory of an earlier call has a file.
abbrev files : Bytes → Bytes → Option Bytes
files root path = if bytes_eq root (codes "/tmp/old") then some (codes "text") else none

new_is_empty : (root path : Bytes) → some (codes "/tmp/x") ≡ some root → files root path ≡ none
new_is_empty root path new = let e : codes "/tmp/x" ≡ root = cc in rw (← e) refl

abbrev outside : World
outside = record {
  tempdir = some (codes "/tmp/x");
  opens = true;
  file = files;
  fresh = λ root path new. new_is_empty root path new;
  write = λ path bytes. true;
  os = quick;
  program_out = codes "out";
  program_err = [];
  out_ends = refl;
  err_ends = refl;
  net = rebinding;
}

abbrev call : Bytes → Bytes → ToolCall Bytes
call tool args = record { call_id = 5; tool = tool; args = args }

-- A limit that cannot be set ends the child there.
limited_only :
    launch
      (record quick { succeeds = λ step. false })
      (request default_settings (codes "/tmp/x") (codes "/usr/bin/python3") [])
    ≡ some (err (fatal (config_invalid "spawn ")), unshare ∷ setrlimit cpu 10 ∷ [])
unfolding launch child
limited_only = refl

launch-Launched_example :
    Launched quick
      (request default_settings (codes "/tmp/x") (codes "/usr/bin/python3") [])
      (launch quick (request default_settings (codes "/tmp/x") (codes "/usr/bin/python3") []))
launch-Launched_example =
    launch-Launched quick (request default_settings (codes "/tmp/x") (codes "/usr/bin/python3") [])

-- A process that keeps the pipe keeps the call.
held_up :
    launch
      (record quick { stdout = none })
      (request default_settings (codes "/tmp/x") (codes "/usr/bin/python3") [])
    ≡ none
unfolding launch child wait_loop
held_up = refl

-- A write below the root, and one that would leave it.
inside_and_out :
    map
      (λ path. reject_escape path)
      (codes "a/./b" ∷ codes "./a" ∷ codes "a/../b" ∷ codes "/etc" ∷ codes ".." ∷ codes "...x" ∷ [])
    ≡ ok tt
      ∷ ok tt
      ∷ err (fatal (config_invalid "path escape rejected: "))
      ∷ err (fatal (config_invalid "absolute path rejected: "))
      ∷ err (fatal (config_invalid "path escape rejected: "))
      ∷ ok tt
      ∷ []
unfolding reject_escape
inside_and_out = refl

abbrev calls : List (ToolCall Bytes)
calls =
    call python_exec (codes "print(1)")
    ∷ call file_write (codes "a/b")
    ∷ call (codes "http_get") (codes "http://h/")
    ∷ call (codes "shell") (codes "ls")
    ∷ []

abbrev no_shell : ToolSettings
no_shell = record default_settings { enable_shell = false }

file_read_finds_nothing_example :
    (r : ToolResult) × (made : List Effect) × (invoke_one outside default_settings
        (call file_read (codes "a/b"))
      ≡ some (r, made))
    × (r.outcome ≡ error)
file_read_finds_nothing_example = file_read_finds_nothing outside default_settings 5 (codes "a/b")

-- The gate compares the version of the kernel, and lets through what it cannot read.
gate :
    map
      (λ version. from_settings default_settings version)
      (none ∷ some (5, 12) ∷ some (5, 13) ∷ some (6, 1) ∷ [])
    ≡ ok default_settings
      ∷ err (fatal (config_invalid "landlock requires kernel >= 5.13, found "))
      ∷ ok default_settings
      ∷ ok default_settings
      ∷ []
unfolding from_settings
gate = refl
