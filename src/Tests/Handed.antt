-- ===== src/Tests/Handed.antt =====
-- Two descriptors that are sent, and then given to a new container.
use conmon_rs.Base.{ℕ, ◌<◌, ◌^◌, ◌≡◌, refl, false, List, [], ◌∷◌, ◌++◌, length, arith}
use conmon_rs.Base.Results.{ok, err}
use conmon_rs.Wire.Lists.{
  string_slice_to_text_list, set_texts, string_string_map_to_map_entry_list, set_entries,
  remote_fd_slice_to_uint64_list, set_words,
}
use conmon_rs.Requests.Config.{CreateContainerConfig}
use conmon_rs.Requests.Metadata.{set_metadata}
use conmon_rs.Requests.Fill.{chosen_cgroup_manager}
use conmon_rs.Requests.Container.{
  fill_create_container, fill_container_base, fill_container_lists, fill_container_rest,
  init_log_drivers, set_log_drivers,
}
use conmon_rs.Requests.Container.ReadBack.{fill_create_container-ReadsBack}
use conmon_rs.Requests.Received.Create.{ReceivesContainer, ReceivesContainer_lem}
use conmon_rs.RemoteFds.{
  RemoteFds, little_endian, read_little_endian, uint64, append_uint64, request_header, read_slots,
  check_payload, check_header, check_response, exchange, finish_send, send,
}
use conmon_rs.FdSocket.{get, occupied, find_vacant, add, add_all, answer, serve}
use conmon_rs.FdSocket.Link.{link}
use conmon_rs.RpcServer.Descriptors.{take_descriptors, take_descriptors-send}
use conmon_rs.Tests.Memory.{Memory, in_memory, in_memory-IsLawful, memory-IsReadable, new_message}
use conmon_rs.Tests.Calls.{container}
use conmon_rs.Tests.Life.{no_trace}
use conmon_rs.Tests.Sockets.{renumbered, idle_client}

abbrev with_fds : CreateContainerConfig
with_fds = record container { additional_fds = 9 ∷ []; leak_fds = 10 ∷ [] }

abbrev request : Memory
request = elim (fill_create_container in_memory false 2 no_trace with_fds new_message) [
  | ok m ↦ m
  | err e ↦ new_message
]

request_lem : fill_create_container in_memory false 2 no_trace with_fds new_message ≡ ok request
unfolding fill_create_container fill_container_base fill_container_lists fill_container_rest
    set_metadata string_slice_to_text_list set_texts string_string_map_to_map_entry_list set_entries
    remote_fd_slice_to_uint64_list set_words init_log_drivers set_log_drivers
request_lem = refl

manager_lem : chosen_cgroup_manager 2 1 < 2 ^ 16
unfolding chosen_cgroup_manager
manager_lem = omega arith

request-ReceivesContainer : ReceivesContainer in_memory 2 with_fds request
request-ReceivesContainer =
    ReceivesContainer_lem in_memory 2 with_fds request (memory-IsReadable request) (
      fill_create_container-ReadsBack in_memory in_memory-IsLawful false 2 no_trace with_fds
        new_message request
        (record {
          exit_paths = omega arith;
          oom_exit_paths = omega arith;
          log_drivers = omega arith;
          cleanup_cmd = omega arith;
          global_args = omega arith;
          command_args = omega arith;
          env_vars = omega arith;
          additional_fds = omega arith;
          leak_fds = omega arith;
        })
        (omega arith, tt) (omega arith) manager_lem (λ k. refl) request_lem)

abbrev sent : RemoteFds (link renumbered)
sent = (send (link renumbered) (3 ∷ 4 ∷ []) idle_client).1

sent_lem : send (link renumbered) (3 ∷ 4 ∷ []) idle_client ≡ (ok (9 ∷ 10 ∷ []), sent)
unfolding send exchange finish_send check_response check_header check_payload read_slots uint64
    read_little_endian little_endian append_uint64 request_header serve answer add_all add
    find_vacant occupied get
sent_lem = refl

take_descriptors-send_example :
    (front : List ℕ) × (back : List ℕ) × (last : ℕ) × (take_descriptors in_memory request
        sent.conn.serving.state
      ≡ (ok (front, back), record { last = last; fds = (8, 33) ∷ [] }))
    × (front ++ back ≡ 23 ∷ 24 ∷ [])
    × (length front ≡ 1)
take_descriptors-send_example =
    take_descriptors-send in_memory 2 with_fds request renumbered 3 (4 ∷ []) (9 ∷ 10 ∷ [])
      idle_client sent (omega arith) refl refl (omega arith) sent_lem refl request-ReceivesContainer
