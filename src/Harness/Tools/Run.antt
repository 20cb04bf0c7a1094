-- ===== src/Harness/Tools/Run.antt =====
-- crates/rollout-harness-tool/src: a call by name in lib.rs, and the tools that run programs and touch
-- files in tools/. A call is answered together with the effects that it has outside. The duration of a
-- result is left out.
use rollout.Prelude.{
  ℕ, ◌*◌, ◌≡◌, Bool, true, false, ◌&&◌, List, [], ◌∷◌, Option, none, some, if◌then◌else◌, bytes_eq,
  codes, length,
}
use Prim.Native.String.{String}
use rollout.Core.Ids.{Bytes}
use rollout.Core.Errors.{Result, ok, err, CoreError, fatal, config_invalid}
use rollout.Store.Embedded.{find_bytes}
use rollout.Egress.Fetch.{HttpError, SocketAddr, Net, EgressConfig}
use rollout.Harness.Tools.Launch.{ℤ, ExecRequest, ExecRun, ChildStep, Os, launch}
use rollout.Harness.Tools.Paths.{reject_escape}
use rollout.Harness.Tools.Settings.{ToolSettings, python_exec, shell, file_read, file_write}

pub data ToolOutcome : Type 0 where
  success : ToolOutcome
  error : ToolOutcome
  over_time : ToolOutcome

-- The JSON of an output, by its fields.
pub data Output : Type 0 where
  null : Output
  exec_output : ℤ → Bytes → Output
  contents : Bytes → Output
  bytes_written : ℕ → Output
  response : ℕ → Bytes → Output

-- What stands in `stderr`: output of a program, or the text of an error.
pub data Note : Type 0 where
  captured : Bytes → Note
  message : String → Note
  core_error : CoreError → Note
  http_error : HttpError → Note

pub record ToolCall (Json : Type 0) : Type 0 where
  pub call_id : ℕ
  pub tool : Bytes
  pub args : Json

pub record ToolResult : Type 0 where
  pub call_id : ℕ
  pub outcome : ToolOutcome
  pub output : Output
  pub stderr : Option Note

-- What a call does outside: a program that is launched, a file that is asked for or written, a
-- connection.
pub data Effect : Type 0 where
  launched : ExecRequest → Effect
  reads : Bytes → Effect
  writes : Bytes → Bytes → Effect
  connects : SocketAddr → Effect

-- serde_json: the typed arguments of a tool, and a text under a name.
pub record Decoder (Json : Type 0) : Type 0 where
  pub python_args : Json → Option Bytes
  pub shell_args : Json → Option (List Bytes)
  pub read_args : Json → Option Bytes
  pub write_args : Json → Option (Bytes × Bytes)
  pub get_str : Bytes → Json → Option Bytes

pub record Utf8 : Type 0 where
  pub from_utf8_lossy : Bytes → Bytes

-- What the outside answers during one call: `TempDir::new`, the opening of it by cap-std, the files
-- below each directory and whether a `write` succeeds, the kernel and the network. A directory that
-- `TempDir::new` has made is documented to be new, so it is empty. Calls of the outside return: a
-- program that is run leaves no process behind that holds its pipes.
pub record World : Type 1 where
  pub tempdir : Option Bytes
  pub opens : Bool
  pub file : Bytes → Bytes → Option Bytes
  pub fresh : (root path : Bytes) → tempdir ≡ some root → file root path ≡ none
  pub write : Bytes → Bytes → Bool
  pub os : Os
  pub program_out : Bytes
  pub program_err : Bytes
  pub out_ends : os.stdout ≡ some program_out
  pub err_ends : os.stderr ≡ some program_err
  pub net : Net

-- A call that ends, with its effects.
abbrev pub Ran : Type 0 → Type 0
Ran A = Option (A × List Effect)

-- `(output, stderr, timed_out)`
abbrev pub Done : Type 0
Done = Output × Option Note × Bool

abbrev pub invalid : {A : Type 0} → String → Result A
invalid msg = err (fatal (config_invalid msg))

-- `None` where the text is empty.
abbrev pub captured_stderr : Bytes → Option Note
captured_stderr [] = none
captured_stderr (b ∷ bs) = some (captured (b ∷ bs))

-- `http::EgressConfig` as production has it.
abbrev pub egress : ToolSettings → EgressConfig
egress s = record { allowlist = s.egress_allowlist; allow_loopback = false }

abbrev pub request : ToolSettings → Bytes → Bytes → List Bytes → ExecRequest
request s root path argv = record {
  exact_path = path;
  argv = argv;
  timeout = s.timeout_secs * 1000;
  tempdir = root;
  rlimits = record {
    cpu_secs = s.rlimit_cpu_secs;
    as_bytes = s.rlimit_as_bytes;
    nofile = s.rlimit_nofile;
    nproc = s.rlimit_nproc;
  };
  memory_max = s.cgroup_memory_max;
  pids_max = s.cgroup_pids_max;
}

abbrev pub errored : {Json : Type 0} → ToolCall Json → Note → ToolResult
errored call note = record {
  call_id = call.call_id;
  outcome = error;
  output = null;
  stderr = some note;
}

abbrev pub write_answer : Bytes → Bool → Result Done
write_answer bytes false = invalid "cap-std write "
write_answer bytes true = ok (bytes_written (length bytes), none, false)

module _ ⦃utf8 : Utf8⦄ (w : World) (s : ToolSettings) where
  abbrev pub output_of : ExecRun → Done
  output_of run = (
    exec_output run.exit_code (utf8.from_utf8_lossy run.stdout),
    captured_stderr (utf8.from_utf8_lossy run.stderr),
    run.timed_out,
  )

  abbrev pub after_launch :
      ExecRequest → Option (Result ExecRun × List ChildStep) → Ran (Result Done)
  after_launch req none = none
  after_launch req (some (err e, steps)) = some (err e, launched req ∷ [])
  after_launch req (some (ok run, steps)) = some (ok (output_of run), launched req ∷ [])

  abbrev pub run_request : ExecRequest → Ran (Result Done)
  run_request req = after_launch req (launch w.os req)

  -- tools/python_exec.rs
  abbrev pub run_python : Bytes → Option Bytes → Ran (Result Done)
  run_python root none = some (invalid "python_exec args: ", [])
  run_python root (some code) = run_request (
      request s root s.python_path
        (utf8.from_utf8_lossy s.python_path ∷ codes "-I" ∷ codes "-c" ∷ code ∷ []))

  abbrev pub run_listed : Bytes → List Bytes → Option Bytes → Ran (Result Done)
  run_listed root args none = some (invalid "command not in allowlist: ", [])
  run_listed root args (some path) =
      run_request (request s root path (utf8.from_utf8_lossy path ∷ args))

  -- tools/shell.rs
  abbrev pub run_shell : Bytes → Option (List Bytes) → Ran (Result Done)
  run_shell root none = some (invalid "shell args: ", [])
  run_shell root (some []) = some (invalid "shell argv must be non-empty", [])
  run_shell root (some (cmd ∷ args)) = run_listed root args (find_bytes cmd s.shell_allowlist)

  abbrev pub read_answer : Option Bytes → Result Done
  read_answer none = invalid "cap-std read "
  read_answer (some bytes) = ok (contents (utf8.from_utf8_lossy bytes), none, false)

  -- `CapRoot::read`, after `reject_escape`.
  abbrev pub cap_read : Bytes → Bytes → Result (Unit {0}) → Ran (Result Done)
  cap_read root path (err e) = some (err e, [])
  cap_read root path (ok u) = some (read_answer (w.file root path), reads path ∷ [])

  -- tools/file_read.rs
  abbrev pub run_read : Bytes → Option Bytes → Ran (Result Done)
  run_read root none = some (invalid "file_read args: ", [])
  run_read root (some path) =
      if w.opens
      then cap_read root path (reject_escape path)
      else some (invalid "cap-std open root ", [])

  -- `CapRoot::write`, after `reject_escape`.
  abbrev pub cap_write : Bytes → Bytes → Result (Unit {0}) → Ran (Result Done)
  cap_write path bytes (err e) = some (err e, [])
  cap_write path bytes (ok u) =
      some (write_answer bytes (w.write path bytes), writes path bytes ∷ [])

  -- tools/file_write.rs
  abbrev pub run_write : Option (Bytes × Bytes) → Ran (Result Done)
  run_write none = some (invalid "file_write args: ", [])
  run_write (some (path, bytes)) =
      if w.opens
      then cap_write path bytes (reject_escape path)
      else some (invalid "cap-std open root ", [])

module _ {Json : Type 0} ⦃decoder : Decoder Json⦄ ⦃utf8 : Utf8⦄ (w : World) (s : ToolSettings) where
  -- The match on the name and its flag.
  unfoldable pub outcome_of : Bytes → ToolCall Json → Ran (Result Done)
  unfolding launch reject_escape
  outcome_of root call =
      if bytes_eq call.tool python_exec && s.enable_python_exec
      then run_python w s root (decoder.python_args call.args)
      else if bytes_eq call.tool shell && s.enable_shell
      then run_shell w s root (decoder.shell_args call.args)
      else if bytes_eq call.tool file_read && s.enable_file_read
      then run_read w s root (decoder.read_args call.args)
      else if bytes_eq call.tool file_write && s.enable_file_write
      then run_write w s (decoder.write_args call.args)
      else some (invalid "unknown or disabled tool: ", [])
