-- ===== src/Tests/Calls.antt =====
-- Requests and calls over messages in memory, and a server that answers after a while.
use conmon_rs.Base.{◌<◌, ◌^◌, ◌≡◌, refl, true, false, none, some, [], ◌∷◌, arith}
use conmon_rs.Base.Results.{ok, err, missing_id_mappings}
use conmon_rs.Wire.{root, words}
use conmon_rs.Requests.Config.{CreateContainerConfig, CreateNamespacesConfig}
use conmon_rs.Requests.Metadata.{Injected}
use conmon_rs.Requests.Fill.{chosen_cgroup_manager}
use conmon_rs.Requests.Metadata.{set_metadata, set_metadata_old}
use conmon_rs.Wire.Lists.{
  string_slice_to_text_list, set_texts, string_string_map_to_map_entry_list, set_entries,
  remote_fd_slice_to_uint64_list, set_words,
}
use conmon_rs.Requests.Container.{
  fill_create_container, fill_container_base, fill_container_lists, fill_container_rest,
  init_log_drivers, set_log_drivers,
}
use conmon_rs.Requests.Container.ReadBack.{ReadsBack, fill_create_container-ReadsBack}
use conmon_rs.Requests.Namespaces.{
  proto_namespace, fill_namespaces_list, set_namespaces, set_one, usable_mappings,
}
use conmon_rs.Requests.Namespaces.Guard.{wire_value, fill_namespaces_list-words}
use conmon_rs.Tests.Memory.{Memory, in_memory, in_memory-IsLawful, new_message}

abbrev pub container : CreateContainerConfig
container = record {
  id = "ctr";
  bundle_path = "/bundle";
  terminal = false;
  stdin = true;
  exit_paths = "/exit" ∷ "/exit2" ∷ [];
  oom_exit_paths = "/oom" ∷ [];
  log_drivers = record { log_driver_type = 0; path = "/log"; max_size = 100 } ∷ [];
  cleanup_cmd = "rm" ∷ [];
  global_args = "--debug" ∷ [];
  command_args = [];
  env_vars = ("HOME", "/root") ∷ [];
  cgroup_manager = 1;
  additional_fds = 9 ∷ 513 ∷ [];
  leak_fds = [];
}

abbrev pub injected_trace : Injected
injected_trace = record { entries = ("traceparent", "00-1") ∷ []; marshalled = ok (123 ∷ 125 ∷ []) }

abbrev filled : Memory
filled = elim (fill_create_container in_memory true 2 injected_trace container new_message) [
  | ok m ↦ m
  | err e ↦ new_message
]

filled_lem : fill_create_container in_memory true 2 injected_trace container new_message ≡ ok filled
unfolding fill_create_container fill_container_base fill_container_lists fill_container_rest
    set_metadata set_metadata_old string_slice_to_text_list set_texts
    string_string_map_to_map_entry_list set_entries remote_fd_slice_to_uint64_list set_words
    init_log_drivers set_log_drivers
filled_lem = refl

manager_lem : chosen_cgroup_manager 2 1 < 2 ^ 16
unfolding chosen_cgroup_manager
manager_lem = omega arith

fill_create_container-ReadsBack_example : ReadsBack in_memory 2 container filled
fill_create_container-ReadsBack_example =
    fill_create_container-ReadsBack in_memory in_memory-IsLawful true 2 injected_trace container
      new_message filled
      (record {
        exit_paths = omega arith;
        oom_exit_paths = omega arith;
        log_drivers = omega arith;
        cleanup_cmd = omega arith;
        global_args = omega arith;
        command_args = omega arith;
        env_vars = omega arith;
        additional_fds = omega arith;
        leak_fds = omega arith;
      })
      (omega arith, tt) (omega arith) manager_lem (λ k. refl) filled_lem

abbrev namespaces : CreateNamespacesConfig
namespaces = record {
  namespaces = 1 ∷ 9 ∷ 4 ∷ [];
  id_mappings = none;
  base_path = "";
  pod_id = "pod";
}

abbrev namespaces_filled : Memory
namespaces_filled =
    elim (fill_namespaces_list in_memory false injected_trace namespaces new_message) [
      | ok m ↦ m
      | err e ↦ new_message
    ]

namespaces_filled_lem :
    fill_namespaces_list in_memory false injected_trace namespaces new_message
    ≡ ok namespaces_filled
unfolding fill_namespaces_list set_metadata set_namespaces set_one
namespaces_filled_lem = refl

fill_namespaces_list-words_example :
    in_memory.content namespaces_filled root 1 ≡ words (2 ∷ 0 ∷ 4 ∷ [])
unfolding wire_value proto_namespace
fill_namespaces_list-words_example =
    fill_namespaces_list-words in_memory in_memory-IsLawful false injected_trace namespaces
      new_message namespaces_filled (omega arith) (record { lists = λ mappings h. cc })
      namespaces_filled_lem

abbrev user_namespace : CreateNamespacesConfig
user_namespace = record namespaces { namespaces = 3 ∷ 2 ∷ [] }

usable_none : usable_mappings none ≡ err missing_id_mappings
unfolding usable_mappings
usable_none = refl

user_value : proto_namespace 3 ≡ some 3
unfolding proto_namespace
user_value = refl
