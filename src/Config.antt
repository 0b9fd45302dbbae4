-- ===== src/Config.antt =====
-- The server configuration and its command line (pkg/client/client.go: `ConmonServerConfig`,
-- `NewConmonServerConfig`, `FromLogrusLevel`, `toArgs` and the validation).
pub mod Levels
pub mod Reader
pub mod CommandLine
pub mod Acceptance
use conmon_rs.Base.{
  ℕ, String, str_eq, Bool, true, false, ◌&&◌, ◌==◌, Option, none, some, List, [], ◌∷◌, ◌++◌,
  if◌then◌else◌,
}
use conmon_rs.Base.Results.{
  Error, Result, ok, err, wrap, wrapped, invalid_value, runtime_unspecified, run_dir_unspecified,
  undefined_cgroup_manager, Exec, ◌>>=◌, pure, lift,
}
use conmon_rs.Consts.LogLevel
use conmon_rs.Consts.LogDriver
use conmon_rs.Consts.CgroupManager
use conmon_rs.Client.{ConmonClient}

pub record Tracing : Type 0 where
  pub enabled : Bool
  pub endpoint : String

-- Numbers name the output streams, and `none` is a nil writer. The client's logger and tracer are
-- left out.
pub record ConmonServerConfig : Type 0 where
  pub conmon_server_path : String
  pub log_level : String
  pub log_driver : String
  pub runtime : String
  pub runtime_root : String
  pub server_run_dir : String
  pub stdout : Option ℕ
  pub stderr : Option ℕ
  pub cgroup_manager : ℕ
  pub tracing : Option Tracing

-- The standard streams of the process, `os.Stdout` and `os.Stderr`.
abbrev pub os_stdout : ℕ
os_stdout = 1

abbrev pub os_stderr : ℕ
os_stderr = 2

pub new_conmon_server_config : String → String → String → ConmonServerConfig
new_conmon_server_config runtime runtime_root server_run_dir = record {
  conmon_server_path = "";
  log_level = LogLevel.debug;
  log_driver = LogDriver.systemd;
  runtime = runtime;
  runtime_root = runtime_root;
  server_run_dir = server_run_dir;
  stdout = some os_stdout;
  stderr = some os_stderr;
  cgroup_manager = 0;
  tracing = none;
}

-- `logrus.Level`; `other` is any value that the library does not name.
pub data LogrusLevel : Type 0 where
  panic_level fatal_level error_level warn_level info_level debug_level trace_level : LogrusLevel
  other : ℕ → LogrusLevel

unfoldable pub from_logrus_level : LogrusLevel → String
from_logrus_level panic_level = LogLevel.off
from_logrus_level fatal_level = LogLevel.off
from_logrus_level error_level = LogLevel.error
from_logrus_level warn_level = LogLevel.warn
from_logrus_level info_level = LogLevel.info
from_logrus_level debug_level = LogLevel.debug
from_logrus_level trace_level = LogLevel.trace
from_logrus_level (other n) = LogLevel.debug

-- The loop over the possible values, which returns at the first that is equal.
unfoldable pub validate_string_slice : String → String → List String → Result (Unit {0})
validate_string_slice typ given [] = err (invalid_value typ given)
validate_string_slice typ given (possible ∷ rest) =
    if str_eq given possible then ok tt else validate_string_slice typ given rest

unfoldable pub validate_log_level : String → Result (Unit {0})
validate_log_level level = validate_string_slice "log level" level (
    LogLevel.trace ∷ LogLevel.debug ∷ LogLevel.info ∷ LogLevel.warn ∷ LogLevel.error ∷ LogLevel.off
    ∷ [])

unfoldable pub validate_log_driver : String → Result (Unit {0})
validate_log_driver driver =
    validate_string_slice "log driver" driver (LogDriver.stdout ∷ LogDriver.systemd ∷ [])

-- The parts of `toArgs`, in its order; each appends to `args`.
unfoldable pub entrypoint_of : Result String → ConmonServerConfig → Result String
entrypoint_of look_path config =
    if str_eq config.conmon_server_path ""
    then wrapped "finding path" look_path
    else ok config.conmon_server_path

unfoldable pub required_args : ConmonServerConfig → Result (List String)
required_args config =
    if str_eq config.runtime ""
    then err runtime_unspecified
    else if str_eq config.server_run_dir ""
    then err run_dir_unspecified
    else ok ("--runtime" ∷ config.runtime ∷ "--runtime-dir" ∷ config.server_run_dir ∷ [])

unfoldable pub runtime_root_args : ConmonServerConfig → List String
runtime_root_args config =
    if str_eq config.runtime_root "" then [] else "--runtime-root" ∷ config.runtime_root ∷ []

-- `if err := validate(value); err != nil { … }` and then the flag with its value.
abbrev pub checked : String → String → String → Result (Unit {0}) → Result (List String)
checked text flag value (ok _) = ok (flag ∷ value ∷ [])
checked text flag value (err e) = err (wrap text e)

unfoldable pub log_level_args : ConmonServerConfig → Result (List String)
log_level_args config =
    if str_eq config.log_level ""
    then ok []
    else checked "validate log level" "--log-level" config.log_level
        (validate_log_level config.log_level)

unfoldable pub log_driver_args : ConmonServerConfig → Result (List String)
log_driver_args config =
    if str_eq config.log_driver ""
    then ok []
    else checked "validate log driver" "--log-driver" config.log_driver
        (validate_log_driver config.log_driver)

unfoldable pub cgroup_manager_args : ℕ → Result (List String)
cgroup_manager_args manager =
    if manager == CgroupManager.systemd
    then ok ("--cgroup-manager" ∷ "systemd" ∷ [])
    else if manager == CgroupManager.cgroupfs
    then ok ("--cgroup-manager" ∷ "cgroupfs" ∷ [])
    else if manager == CgroupManager.per_command
    then ok []
    else err undefined_cgroup_manager

unfoldable pub tracing_args : Tracing → List String
tracing_args t =
    "--enable-tracing"
    ∷ (if str_eq t.endpoint "" then [] else "--tracing-endpoint" ∷ t.endpoint ∷ [])

module _ {V : Type 0} where
  -- `c.tracingEnabled = true` is the one write of `toArgs`; it is never taken back.
  abbrev pub enable_tracing : ConmonClient V → ConmonClient V
  enable_tracing c = record c { tracing_enabled = true }

  unfoldable pub add_tracing : Option Tracing → List String → Exec (ConmonClient V) (List String)
  add_tracing none args c = (ok args, c)
  add_tracing (some t) args c =
      if t.enabled then (ok (args ++ tracing_args t), enable_tracing c) else (ok args, c)

  -- `toArgs` behind its nil check. `look_path` is what `exec.LookPath` answers for the binary name.
  unfoldable pub to_args_of :
      Result String → ConmonServerConfig → Exec (ConmonClient V) (String × List String)
  to_args_of look_path config = do
    entrypoint ← lift (entrypoint_of look_path config)
    required ← lift (required_args config)
    level ← lift (log_level_args config)
    driver ← lift (log_driver_args config)
    manager ← lift (cgroup_manager_args config.cgroup_manager)
    let args = required ++ (runtime_root_args config ++ (level ++ (driver ++ manager)))
    args' ← add_tracing config.tracing args
    pure (entrypoint, args')

  -- A nil client gives empty results and no error.
  unfoldable pub to_args :
      Result String
      → ConmonServerConfig
      → Option (ConmonClient V)
      → Result (String × List String) × Option (ConmonClient V)
  to_args look_path config none = (ok ("", []), none)
  to_args look_path config (some c) = let (r, c') = to_args_of look_path config c in (r, some c')
