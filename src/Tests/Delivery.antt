-- ===== src/Tests/Delivery.antt =====
-- Two calls that succeed.
use conmon_rs.Base.{ℕ, ◌≡◌, refl, false, [], arith, ◌<◌, ◌^◌}
use conmon_rs.Base.Results.{Error, ok, err}
use conmon_rs.Proto
use conmon_rs.Wire.{root, absent}
use conmon_rs.Wire.Lists.{
  string_slice_to_text_list, set_texts, string_string_map_to_map_entry_list, set_entries,
  remote_fd_slice_to_uint64_list, set_words,
}
use conmon_rs.Requests.Metadata.{set_metadata}
use conmon_rs.Requests.Fill.{chosen_cgroup_manager, fill_exec_sync}
use conmon_rs.Requests.Container.{
  fill_create_container, fill_container_base, fill_container_lists, fill_container_rest,
  init_log_drivers, set_log_drivers,
}
use conmon_rs.Requests.Received.Exec.{ReceivesExec}
use conmon_rs.Requests.Received.Create.{ReceivesContainer}
use conmon_rs.Dial.{dial_below, dial_long_socket}
use conmon_rs.Rpc.{dial, create_container, exec_sync_container, invoke, place, on_connection}
use conmon_rs.Rpc.Methods.{
  CreateContainerResponse, ExecContainerResult, container_response, exec_response,
  call_create_container, call_exec_sync_container,
}
use conmon_rs.Rpc.Delivery.{
  IsFaithful, Exchanged, call_create_container-Exchanged, call_exec_sync_container-Exchanged,
}
use conmon_rs.Tests.Memory.{Memory, in_memory, in_memory-IsLawful, memory-IsReadable, new_message}
use conmon_rs.Tests.Calls.{container}
use conmon_rs.Tests.Life.{Network, called, late_server, no_trace}
use conmon_rs.Tests.Balance.{running, echo}

called_err : (e : Error) (w : Network) (results : Memory) → ¬ ((called (err e) w).0 ≡ ok results)
called_err e w results h = cc

new_message_lem : (req : Memory) → ok new_message ≡ ok req → (k : ℕ) → req.contents root k ≡ absent
new_message_lem req h k = let same : new_message ≡ req = cc h in rw (← same) refl

pub late_server-IsFaithful : IsFaithful in_memory late_server
late_server-IsFaithful = record {
  fails = λ conn method e w results. called_err e w results;
  fresh = λ method req h k. new_message_lem req h k;
}

abbrev created : CreateContainerResponse
created = record { pid = 0; namespaces_path = "" }

created_lem :
    (call_create_container in_memory late_server no_trace container running).0 ≡ ok created
unfolding call_create_container invoke dial dial_long_socket dial_below place on_connection
    container_response fill_create_container fill_container_base fill_container_lists
    fill_container_rest set_metadata string_slice_to_text_list set_texts
    string_string_map_to_map_entry_list set_entries remote_fd_slice_to_uint64_list set_words
    init_log_drivers set_log_drivers
created_lem = refl

manager_lem : chosen_cgroup_manager 0 1 < 2 ^ 16
unfolding chosen_cgroup_manager
manager_lem = omega arith

call_create_container-Exchanged_example :
    (m : Memory) × (response : Memory) × Exchanged in_memory late_server create_container running m
      response
    × ReceivesContainer in_memory 0 container m
    × (0 ≡ Proto.CreateContainerResponse.container_pid in_memory response)
call_create_container-Exchanged_example =
    call_create_container-Exchanged in_memory late_server in_memory-IsLawful late_server-IsFaithful
      no_trace running container created
      (record {
        exit_paths = omega arith;
        oom_exit_paths = omega arith;
        log_drivers = omega arith;
        cleanup_cmd = omega arith;
        global_args = omega arith;
        command_args = omega arith;
        env_vars = omega arith;
        additional_fds = omega arith;
        leak_fds = omega arith;
      })
      (omega arith, tt) (omega arith) manager_lem (λ m response e. memory-IsReadable m) created_lem

abbrev echoed : ExecContainerResult
echoed = record { exit_code = 0; stdout = []; stderr = []; timed_out = false }

echoed_lem : (call_exec_sync_container in_memory late_server no_trace echo running).0 ≡ ok echoed
unfolding call_exec_sync_container invoke dial dial_long_socket dial_below place on_connection
    exec_response fill_exec_sync set_metadata string_slice_to_text_list set_texts
    string_string_map_to_map_entry_list
echoed_lem = refl

echo_manager_lem : chosen_cgroup_manager 0 0 < 2 ^ 16
unfolding chosen_cgroup_manager
echo_manager_lem = omega arith

call_exec_sync_container-Exchanged_example :
    (m : Memory) × (response : Memory) × Exchanged in_memory late_server exec_sync_container running
      m response
    × ReceivesExec in_memory 0 echo m
    × (Proto.ExecSyncContainerResponse.stdout in_memory response ≡ ok echoed.stdout)
    × (Proto.ExecSyncContainerResponse.stderr in_memory response ≡ ok echoed.stderr)
    × (Proto.ExecSyncContainerResponse.exit_code in_memory response ≡ echoed.exit_code)
    × (Proto.ExecSyncContainerResponse.timed_out in_memory response ≡ echoed.timed_out)
call_exec_sync_container-Exchanged_example =
    call_exec_sync_container-Exchanged in_memory late_server in_memory-IsLawful
      late_server-IsFaithful no_trace running echo echoed
      (record {
        command = omega arith;
        env_vars = omega arith;
        timeout = omega arith;
        manager = echo_manager_lem;
      })
      (omega arith) (λ m response e. memory-IsReadable m) echoed_lem
