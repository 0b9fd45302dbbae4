-- ===== src/Tests/Layouts.antt =====
-- Requests that are filled in through setters that check the sizes of structs.
use conmon_rs.Base.{◌≡◌, true, some}
use conmon_rs.Proto.VersionRequest
use conmon_rs.Proto.ExecSyncContainerRequest
use conmon_rs.Proto.AttachRequest
use conmon_rs.Proto.ReopenLogRequest
use conmon_rs.Proto.SetWindowSizeRequest
use conmon_rs.Proto.StartFdSocketRequest
use conmon_rs.Wire.Bounds.{bounded}
use conmon_rs.Requests.Config.{VersionConfig, ReopenLogContainerConfig, TerminalSize}
use conmon_rs.Requests.Fill.{
  fill_version, fill_exec_sync, fill_attach, fill_reopen_log, fill_set_window_size,
  fill_start_fd_socket,
}
use conmon_rs.Requests.Bounds.{layout_of, fill_requests-bounded}
use conmon_rs.Requests.Container.{fill_create_container}
use conmon_rs.Requests.Container.Bounds.{create_layout, fill_create_container-bounded}
use conmon_rs.Tests.Memory.{in_memory, new_message}
use conmon_rs.Tests.Sessions.{session}
use conmon_rs.Tests.Calls.{container, injected_trace}
use conmon_rs.Tests.Balance.{echo}

abbrev verbose_version : VersionConfig
verbose_version = record { verbose = true }

abbrev rotated : ReopenLogContainerConfig
rotated = record { id = "c1" }

abbrev terminal : TerminalSize
terminal = record { width = 80; height = 24 }

fill_create_container-bounded_example :
    fill_create_container
      (bounded in_memory create_layout new_message)
      true
      0
      injected_trace
      container
      new_message
    ≡ fill_create_container in_memory true 0 injected_trace container new_message
fill_create_container-bounded_example =
    fill_create_container-bounded in_memory new_message true 0 injected_trace container new_message

fill_requests-bounded_example :
    (fill_version
        (bounded in_memory (layout_of VersionRequest.object_size) new_message)
        true
        0
        injected_trace
        (some verbose_version)
        new_message
      ≡ fill_version in_memory true 0 injected_trace (some verbose_version) new_message)
    × (fill_exec_sync
          (bounded in_memory (layout_of ExecSyncContainerRequest.object_size) new_message)
          true
          0
          injected_trace
          echo
          new_message
        ≡ fill_exec_sync in_memory true 0 injected_trace echo new_message)
    × (fill_attach
          (bounded in_memory (layout_of AttachRequest.object_size) new_message)
          true
          0
          injected_trace
          session
          new_message
        ≡ fill_attach in_memory true 0 injected_trace session new_message)
    × (fill_reopen_log
          (bounded in_memory (layout_of ReopenLogRequest.object_size) new_message)
          true
          0
          injected_trace
          rotated
          new_message
        ≡ fill_reopen_log in_memory true 0 injected_trace rotated new_message)
    × (fill_set_window_size
          (bounded in_memory (layout_of SetWindowSizeRequest.object_size) new_message)
          true
          0
          injected_trace
          "c1"
          terminal
          new_message
        ≡ fill_set_window_size in_memory true 0 injected_trace "c1" terminal new_message)
    × (fill_start_fd_socket
          (bounded in_memory (layout_of StartFdSocketRequest.object_size) new_message)
          true
          0
          injected_trace
          new_message
        ≡ fill_start_fd_socket in_memory true 0 injected_trace new_message)
fill_requests-bounded_example =
    fill_requests-bounded in_memory new_message true 0 injected_trace new_message
      (some verbose_version) echo session rotated "c1" terminal
