-- ===== src/Requests/Fill.antt =====
-- The requests with few fields: version, exec, attach, log rotation, window size, file descriptor
-- socket (pkg/client/client.go, attach.go, remote_fds.go).
use conmon_rs.Base.{ℕ, String, Bool, false, ◌==◌, Option, none, some, if◌then◌else◌}
use conmon_rs.Base.Results.{Result, ok, wrapped}
use conmon_rs.Base.Chain.{◌>>=◌}
use conmon_rs.Consts.CgroupManager
use conmon_rs.Attach.Config.{AttachConfig}
use conmon_rs.Proto.VersionRequest
use conmon_rs.Proto.ExecSyncContainerRequest
use conmon_rs.Proto.AttachRequest
use conmon_rs.Proto.ReopenLogRequest
use conmon_rs.Proto.SetWindowSizeRequest
use conmon_rs.Proto.StartFdSocketRequest
use conmon_rs.Wire.{Capnp}
use conmon_rs.Wire.Lists.{string_slice_to_text_list, string_string_map_to_map_entry_list}
use conmon_rs.Requests.Config.{
  VersionConfig, ExecSyncConfig, ReopenLogContainerConfig, TerminalSize,
}
use conmon_rs.Requests.Metadata.{Injected, set_metadata}

-- `setCgroupManager`: the value that is set. The manager of the client wins, unless it leaves the
-- choice to the command.
unfoldable pub chosen_cgroup_manager : ℕ → ℕ → ℕ
chosen_cgroup_manager global cfg = if global == CgroupManager.per_command then cfg else global

-- What the closure of `Version` makes of its configuration, which may be nil.
abbrev pub verbose_of : Option VersionConfig → Bool
verbose_of none = false
verbose_of (some cfg) = cfg.verbose

-- `tracing` is `c.tracingEnabled`, `global` is `c.cgroupManager`.
module _ (C : Capnp) (tracing : Bool) (global : ℕ) (injected : Injected) where
  unfoldable pub fill_version : Option VersionConfig → C.Message → Result C.Message
  fill_version cfg req = do
    m ← set_metadata C tracing VersionRequest.metadata_slots injected req
    ok (VersionRequest.set_verbose C (verbose_of cfg) m)

  unfoldable pub fill_exec_sync : ExecSyncConfig → C.Message → Result C.Message
  fill_exec_sync cfg req = do
    m1 ← set_metadata C tracing ExecSyncContainerRequest.metadata_slots injected req
    m2 ← wrapped "set ID" (ExecSyncContainerRequest.set_id C cfg.id m1)
    let m3 = ExecSyncContainerRequest.set_timeout_sec C cfg.timeout m2
    m4 ← string_slice_to_text_list C ExecSyncContainerRequest.new_command cfg.command m3
    let m5 = ExecSyncContainerRequest.set_terminal C cfg.terminal m4
    m6 ← string_string_map_to_map_entry_list C ExecSyncContainerRequest.new_env_vars cfg.env_vars m5
    ok (
        ExecSyncContainerRequest.set_cgroup_manager C
          (chosen_cgroup_manager global cfg.cgroup_manager) m6)

  unfoldable pub fill_attach : AttachConfig → C.Message → Result C.Message
  fill_attach cfg req = do
    m1 ← set_metadata C tracing AttachRequest.metadata_slots injected req
    m2 ← wrapped "set ID" (AttachRequest.set_id C cfg.id m1)
    m3 ← wrapped "set socket path" (AttachRequest.set_socket_path C cfg.socket_path m2)
    ok (AttachRequest.set_stop_after_stdin_eof C cfg.stop_after_stdin_eof m3)

  unfoldable pub fill_reopen_log : ReopenLogContainerConfig → C.Message → Result C.Message
  fill_reopen_log cfg req = do
    m1 ← set_metadata C tracing ReopenLogRequest.metadata_slots injected req
    wrapped "set ID" (ReopenLogRequest.set_id C cfg.id m1)

  unfoldable pub fill_set_window_size : String → TerminalSize → C.Message → Result C.Message
  fill_set_window_size id size req = do
    m1 ← set_metadata C tracing SetWindowSizeRequest.metadata_slots injected req
    m2 ← wrapped "set ID" (SetWindowSizeRequest.set_id C id m1)
    ok (
        SetWindowSizeRequest.set_height C size.height
          (SetWindowSizeRequest.set_width C size.width m2))

  unfoldable pub fill_start_fd_socket : C.Message → Result C.Message
  fill_start_fd_socket req =
      wrapped "set metadata"
        (set_metadata C tracing StartFdSocketRequest.metadata_slots injected req)
