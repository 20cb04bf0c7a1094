-- ===== src/Harness/Tools/Settings.antt =====
-- crates/rollout-harness-tool/src/lib.rs: the settings, the tools advertised under them, and the gate
-- on the version of the kernel.
use rollout.Prelude.{
  ℕ, ◌*◌, Bool, true, false, ◌&&◌, ◌||◌, ltb, ◌==◌, List, [], ◌∷◌, Option, none, some,
  if◌then◌else◌, codes,
}
use Prim.Native.String.{String}
use rollout.Core.Ids.{Bytes}
use rollout.Core.Errors.{Result, ok, err, fatal, config_invalid}
use rollout.Egress.Filter.{IpAddr}

-- Times are seconds. The two flags of HTTP egress are those of the settings.
pub record ToolSettings : Type 0 where
  pub require_landlock : Bool
  pub enable_python_exec : Bool
  pub enable_shell : Bool
  pub enable_file_read : Bool
  pub enable_file_write : Bool
  pub python_path : Bytes
  pub shell_allowlist : List (Bytes × Bytes)
  pub timeout_secs : ℕ
  pub rlimit_cpu_secs : ℕ
  pub rlimit_as_bytes : ℕ
  pub rlimit_nofile : ℕ
  pub rlimit_nproc : ℕ
  pub cgroup_memory_max : Option ℕ
  pub cgroup_pids_max : Option ℕ
  pub enable_http_get : Bool
  pub enable_http_post : Bool
  pub egress_allowlist : List IpAddr

abbrev pub default_settings : ToolSettings
default_settings = record {
  require_landlock = true;
  enable_python_exec = true;
  enable_shell = true;
  enable_file_read = true;
  enable_file_write = true;
  python_path = codes "/usr/bin/python3";
  shell_allowlist = [];
  timeout_secs = 10;
  rlimit_cpu_secs = 10;
  rlimit_as_bytes = 512 * 1024 * 1024;
  rlimit_nofile = 64;
  rlimit_nproc = 64;
  cgroup_memory_max = some (512 * 1024 * 1024);
  cgroup_pids_max = some 64;
  enable_http_get = true;
  enable_http_post = true;
  egress_allowlist = [];
}

pub data SideEffectClass : Type 0 where
  pure : SideEffectClass
  filesystem : SideEffectClass
  network : SideEffectClass
  exec : SideEffectClass

pub record ToolSpec : Type 0 where
  pub name : Bytes
  pub description : String
  pub side_effects : SideEffectClass
  pub timeout : ℕ

abbrev pub python_exec : Bytes
python_exec = codes "python_exec"

abbrev pub shell : Bytes
shell = codes "shell"

abbrev pub file_read : Bytes
file_read = codes "file_read"

abbrev pub file_write : Bytes
file_write = codes "file_write"

abbrev pub http_get : Bytes
http_get = codes "http_get"

abbrev pub http_post : Bytes
http_post = codes "http_post"

-- `if enabled { v.push(spec(..)) }` and what is pushed after it.
abbrev pub advertise : Bool → Bytes → String → SideEffectClass → ℕ → List ToolSpec → List ToolSpec
advertise enabled name description class timeout v =
    if enabled
    then record { name = name; description = description; side_effects = class; timeout = timeout }
      ∷ v
    else v

unfoldable pub specs : ToolSettings → List ToolSpec
specs s =
    let t = s.timeout_secs in
    advertise s.enable_python_exec python_exec "Run python3 -c <code> sandboxed" exec t (
      advertise s.enable_shell shell "Run an allowlisted command (argv vector)" exec t (
        advertise s.enable_file_read file_read "Read a file within the sandbox tempdir" filesystem t
          (advertise s.enable_file_write file_write "Write a file within the sandbox tempdir"
            filesystem t
            (advertise s.enable_http_get http_get "HTTP GET via the SSRF-filtered connector" network
              t
              (advertise s.enable_http_post http_post "HTTP POST via the SSRF-filtered connector"
                network t [])))))

-- `(maj, min) < (5, 13)`
abbrev pub too_old : Option (ℕ × ℕ) → Bool
too_old none = false
too_old (some (major, minor)) = ltb major 5 || (major == 5) && ltb minor 13

-- `from_settings`, by the version that `uname` tells.
unfoldable pub from_settings : ToolSettings → Option (ℕ × ℕ) → Result ToolSettings
from_settings s version =
    if s.require_landlock && too_old version
    then err (fatal (config_invalid "landlock requires kernel >= 5.13, found "))
    else ok s
