-- ===== src/Tests/Start.antt =====
-- A client that finds no server, starts one and waits for it.
use conmon_rs.Base.{◌≡◌, refl, ◌⊎◌, true, [], ◌∷◌}
use conmon_rs.Base.Results.{Error, ok, err}
use conmon_rs.Client.{ConmonClient}
use conmon_rs.Config.{
  entrypoint_of, required_args, runtime_root_args, log_level_args, log_driver_args,
  cgroup_manager_args, tracing_args, add_tracing, to_args_of, validate_string_slice,
  validate_log_level, validate_log_driver,
}
use conmon_rs.Requests.Fill.{fill_version}
use conmon_rs.Requests.Metadata.{Injected, set_metadata, set_metadata_old}
use conmon_rs.Wire.Lists.{string_string_map_to_map_entry_list}
use conmon_rs.Dial.{dial_below, dial_long_socket}
use conmon_rs.Rpc.{dial, invoke, place, on_connection}
use conmon_rs.Rpc.Methods.{VersionResponse, version_response, store_version, call_version}
use conmon_rs.Server.{
  parse_uint, parse_uint_loop, command_of, pid_given_file, pid_file, quiet, new_client, made_dir,
  to_client, start_server, wait_loop, wait_until_server_up, remove_pid_file, come_up, clean_up,
  finish_new, read_pid, start_new, adopt_or_start, new,
}
use conmon_rs.Server.Source.{first, new_pid_source}
use conmon_rs.Tests.Memory.{in_memory}
use conmon_rs.Tests.Life.{late_server, system, just_started, number}
use conmon_rs.Tests.Settings.{settings}

abbrev pub trace : Injected
trace = record { entries = []; marshalled = ok (123 ∷ 125 ∷ []) }

abbrev started : ConmonClient late_server.SemVer
started = record {
  server_pid = 42;
  run_dir = "/run";
  attach_readers = [];
  tracing_enabled = true;
  server_version = number 0 4 9;
  cgroup_manager = 0;
}

started_lem : (new in_memory late_server system trace settings just_started).0 ≡ ok started
unfolding parse_uint parse_uint_loop command_of pid_given_file new_client made_dir to_client
    start_server wait_loop wait_until_server_up remove_pid_file come_up clean_up finish_new read_pid
    start_new adopt_or_start new call_version invoke dial dial_long_socket dial_below place
    on_connection fill_version set_metadata set_metadata_old string_string_map_to_map_entry_list
    version_response store_version to_args_of add_tracing entrypoint_of required_args
    runtime_root_args log_level_args log_driver_args cgroup_manager_args tracing_args
    validate_log_level validate_log_driver validate_string_slice
started_lem = refl

new_pid_source_example :
    let (r, p) =
      call_version in_memory late_server trace
        (quiet in_memory late_server system trace)
        (first in_memory late_server system trace settings just_started) in
    let q = (start_server in_memory late_server system settings p).1 in
    ((v : VersionResponse) × (r ≡ ok v) × (42 ≡ v.process_id))
    ⊎ ((e : Error) × (r ≡ err e)
        × ((pid_given_file in_memory late_server system
              (pid_file in_memory late_server system q.client)
              q.world).0
            ≡ ok 42))
new_pid_source_example =
    new_pid_source in_memory late_server system trace settings just_started started started_lem
