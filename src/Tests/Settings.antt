-- ===== src/Tests/Settings.antt =====
-- The command line of a server.
use conmon_rs.Base.{ℕ, ◌≡◌, refl, String, true, false, none, some, List, [], ◌∷◌}
use conmon_rs.Base.Results.{ok, err, external}
use conmon_rs.Client.{ConmonClient}
use conmon_rs.Config.{
  ConmonServerConfig, entrypoint_of, required_args, runtime_root_args, log_level_args,
  log_driver_args, cgroup_manager_args, tracing_args, add_tracing, to_args_of,
  validate_string_slice, validate_log_level, validate_log_driver,
}
use conmon_rs.Config.Acceptance.{IsAcceptable, to_args_ok_iff}
use conmon_rs.Config.Reader.{read_args, no_options, options_of}
use conmon_rs.Config.CommandLine.{read_args-to_args}

abbrev pub settings : ConmonServerConfig
settings = record {
  conmon_server_path = "/bin/conmonrs";
  log_level = "debug";
  log_driver = "systemd";
  runtime = "/bin/runc";
  runtime_root = "";
  server_run_dir = "/run";
  stdout = some 1;
  stderr = some 2;
  cgroup_manager = 0;
  tracing = some (record { enabled = true; endpoint = "http://localhost:4317" });
}

abbrev idle : ConmonClient ℕ
idle = record {
  server_pid = 0;
  run_dir = "/run";
  attach_readers = [];
  tracing_enabled = false;
  server_version = 0;
  cgroup_manager = 0;
}

abbrev arguments : List String
arguments =
    "--runtime" ∷ "/bin/runc" ∷ "--runtime-dir" ∷ "/run" ∷ "--log-level" ∷ "debug" ∷ "--log-driver"
    ∷ "systemd" ∷ "--cgroup-manager" ∷ "systemd" ∷ "--enable-tracing" ∷ "--tracing-endpoint"
    ∷ "http://localhost:4317" ∷ []

settings_lem :
    to_args_of (err (external 3)) settings idle
    ≡ (ok ("/bin/conmonrs", arguments), record idle { tracing_enabled = true })
unfolding to_args_of add_tracing entrypoint_of required_args runtime_root_args log_level_args
    log_driver_args cgroup_manager_args tracing_args validate_log_level validate_log_driver
    validate_string_slice
settings_lem = refl

read_args-to_args_example :
    (read_args arguments none no_options ≡ some (options_of settings))
    × (record idle { tracing_enabled = true } ≡ record idle { tracing_enabled = true })
read_args-to_args_example =
    read_args-to_args (err (external 3)) settings idle (record idle { tracing_enabled = true })
      "/bin/conmonrs" arguments settings_lem

to_args_ok_iff_example : IsAcceptable (err (external 3)) settings
to_args_ok_iff_example = (to_args_ok_iff (err (external 3)) settings idle).0 (rw settings_lem refl)
