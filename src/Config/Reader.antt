-- ===== src/Config/Reader.antt =====
-- A reader of the command line, the abstract view of what the server is told
-- (pkg/client/client.go: `toArgs`).
use conmon_rs.Base.{
  ℕ, String, str_eq, Bool, true, false, Option, none, some, List, [], ◌∷◌, ◌==◌, if◌then◌else◌,
}
use conmon_rs.Consts.CgroupManager
use conmon_rs.Config.{ConmonServerConfig, Tracing}

-- What the flags say; `none` is a flag that is not given.
pub record Options : Type 0 where
  pub runtime : Option String
  pub runtime_dir : Option String
  pub runtime_root : Option String
  pub log_level : Option String
  pub log_driver : Option String
  pub cgroup_manager : Option String
  pub enable_tracing : Bool
  pub tracing_endpoint : Option String

pub data Flag : Type 0 where
  runtime runtime_dir runtime_root log_level log_driver cgroup_manager tracing_endpoint : Flag
  enable_tracing unknown : Flag

unfoldable pub flag_of : String → Flag
flag_of arg =
    if str_eq arg "--runtime"
    then runtime
    else if str_eq arg "--runtime-dir"
    then runtime_dir
    else if str_eq arg "--runtime-root"
    then runtime_root
    else if str_eq arg "--log-level"
    then log_level
    else if str_eq arg "--log-driver"
    then log_driver
    else if str_eq arg "--cgroup-manager"
    then cgroup_manager
    else if str_eq arg "--tracing-endpoint"
    then tracing_endpoint
    else if str_eq arg "--enable-tracing"
    then enable_tracing
    else unknown

abbrev pub store : Flag → String → Options → Options
store runtime v o = record o { runtime = some v }
store runtime_dir v o = record o { runtime_dir = some v }
store runtime_root v o = record o { runtime_root = some v }
store log_level v o = record o { log_level = some v }
store log_driver v o = record o { log_driver = some v }
store cgroup_manager v o = record o { cgroup_manager = some v }
store tracing_endpoint v o = record o { tracing_endpoint = some v }
store enable_tracing v o = o
store unknown v o = o

-- Reads the arguments from the left. The flag is set while it waits for its value, which may be
-- any text; an argument that is no flag, or a flag without its value, is an error.
unfoldable pub read_args : List String → Option Flag → Options → Option Options
unfolding flag_of
read_args [] none o = some o
read_args [] (some flag) o = none
read_args (v ∷ rest) (some flag) o = read_args rest none (store flag v o)
read_args (arg ∷ rest) none o = elim (flag_of arg) [
  | enable_tracing ↦ read_args rest none (record o { enable_tracing = true })
  | unknown ↦ none
  | flag ↦ read_args rest (some flag) o
]

abbrev pub no_options : Options
no_options = record {
  runtime = none;
  runtime_dir = none;
  runtime_root = none;
  log_level = none;
  log_driver = none;
  cgroup_manager = none;
  enable_tracing = false;
  tracing_endpoint = none;
}

abbrev pub given : String → Option String
given v = if str_eq v "" then none else some v

abbrev pub manager_name : ℕ → Option String
manager_name m =
    if m == CgroupManager.systemd
    then some "systemd"
    else if m == CgroupManager.cgroupfs
    then some "cgroupfs"
    else none

abbrev pub tracing_on : Option Tracing → Bool
tracing_on none = false
tracing_on (some t) = t.enabled

abbrev pub endpoint_given : Option Tracing → Option String
endpoint_given none = none
endpoint_given (some t) = if t.enabled then given t.endpoint else none

-- What a configuration asks the server for.
abbrev pub options_of : ConmonServerConfig → Options
options_of cfg = record {
  runtime = some cfg.runtime;
  runtime_dir = some cfg.server_run_dir;
  runtime_root = given cfg.runtime_root;
  log_level = given cfg.log_level;
  log_driver = given cfg.log_driver;
  cgroup_manager = manager_name cfg.cgroup_manager;
  enable_tracing = tracing_on cfg.tracing;
  tracing_endpoint = endpoint_given cfg.tracing;
}
