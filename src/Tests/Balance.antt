-- ===== src/Tests/Balance.antt =====
-- All methods against a server that answers.
use conmon_rs.Base.{◌+◌, ◌≡◌, refl, some, true, [], ◌∷◌}
use conmon_rs.Requests.Config.{ExecSyncConfig}
use conmon_rs.Rpc.{Process}
use conmon_rs.Rpc.Methods.{
  call_version, call_create_container, call_exec_sync_container, call_reopen_log_container,
  call_set_window_size_container, call_create_namespaces,
}
use conmon_rs.Rpc.Attach.{call_attach_container}
use conmon_rs.Rpc.Balance.{methods-opened}
use conmon_rs.Dial.Descriptors.{one_if_ok}
use conmon_rs.RemoteFds.Connect.{remote_fds}
use conmon_rs.Tests.Fds.{fixed_reply}
use conmon_rs.Tests.Memory.{in_memory}
use conmon_rs.Tests.Calls.{container}
use conmon_rs.Tests.Sessions.{session, broken}
use conmon_rs.Tests.Life.{late_server, counts, process, no_trace, namespaces}

-- The server answers by now.
abbrev pub running : Process in_memory late_server
running = record process { world = record process.world { clock = 4 } }

abbrev pub echo : ExecSyncConfig
echo = record {
  id = "ctr";
  command = "echo" ∷ [];
  timeout = 10;
  terminal = true;
  env_vars = [];
  cgroup_manager = 0;
}

methods-opened_example :
    ((call_version in_memory late_server no_trace
        (some (record { verbose = true }))
        running).1.world.connections
      ≡ 0)
    × ((call_create_container in_memory late_server no_trace container running).1.world.connections
        ≡ 0)
    × ((call_exec_sync_container in_memory late_server no_trace echo running).1.world.connections
        ≡ 0)
    × ((call_attach_container in_memory late_server
          (λ es w. w)
          no_trace
          session
          broken
          running).1.world.connections
        ≡ 0)
    × ((call_reopen_log_container in_memory late_server no_trace
          (record { id = "ctr" })
          running).1.world.connections
        ≡ 0)
    × ((call_set_window_size_container in_memory late_server no_trace
          (record { id = "ctr"; size = some (record { width = 80; height = 24 }) })
          running).1.world.connections
        ≡ 0)
    × ((call_create_namespaces in_memory late_server no_trace namespaces
          running).1.world.connections
        ≡ 0)
    × ((remote_fds in_memory late_server fixed_reply
          (λ conn. [])
          no_trace
          running).1.world.connections
        ≡ running.world.connections
          + one_if_ok
              (remote_fds in_memory late_server fixed_reply (λ conn. []) no_trace running).0)
methods-opened_example =
    methods-opened in_memory late_server no_trace (λ w. w.connections) counts running fixed_reply
      (λ conn. []) (λ es w. w) broken (some (record { verbose = true })) container echo session
      (record { id = "ctr" })
      (record { id = "ctr"; size = some (record { width = 80; height = 24 }) }) namespaces
      (λ es w. refl)
