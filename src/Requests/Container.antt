-- ===== src/Requests/Container.antt =====
-- The request of `CreateContainer` and its log drivers (pkg/client/client.go).
pub mod Drivers
pub mod Fields
pub mod Elements
pub mod ReadBack
pub mod Bounds
use conmon_rs.Base.{ℕ, ◌+◌, ◌==◌, some, Bool, List, [], ◌∷◌, length, if◌then◌else◌}
use conmon_rs.Base.Results.{Result, ok, err, wrapped}
use conmon_rs.Base.Chain.{◌>>=◌}
use conmon_rs.Consts.LogDriverType
use conmon_rs.Consts.ProtoLogDriverType
use conmon_rs.Proto.CreateContainerRequest
use conmon_rs.Proto.LogDriver
use conmon_rs.Wire.{Capnp, root, at, struct_list}
use conmon_rs.Wire.Lists.{
  int32, string_slice_to_text_list, string_string_map_to_map_entry_list,
  remote_fd_slice_to_uint64_list,
}
use conmon_rs.Requests.Config.{ContainerLogDriver, CreateContainerConfig}
use conmon_rs.Requests.Metadata.{Injected, set_metadata}
use conmon_rs.Requests.Fill.{chosen_cgroup_manager}

module _ (C : Capnp) where
  -- The two tests on the type; a type that is neither sets nothing.
  unfoldable pub set_log_driver_type : ℕ → ℕ → C.Message → C.Message
  set_log_driver_type i typ m =
      if typ == LogDriverType.container_runtime_interface
      then LogDriver.set_type C (at CreateContainerRequest.new_log_drivers i)
          ProtoLogDriverType.container_runtime_interface m
      else if typ == LogDriverType.json_logger
      then LogDriver.set_type C (at CreateContainerRequest.new_log_drivers i)
          ProtoLogDriverType.json m
      else m

  unfoldable pub set_log_drivers : ℕ → List ContainerLogDriver → C.Message → Result C.Message
  set_log_drivers i [] m = ok m
  set_log_drivers i (d ∷ ds) m = do
    m' ← wrapped "set log driver path" (
        LogDriver.set_path C (at CreateContainerRequest.new_log_drivers i) d.path
          (set_log_driver_type i d.log_driver_type m))
    set_log_drivers (i + 1) ds
        (LogDriver.set_max_size C (at CreateContainerRequest.new_log_drivers i) d.max_size m')

  -- The list is allocated also if it is empty.
  unfoldable pub init_log_drivers : List ContainerLogDriver → C.Message → Result C.Message
  init_log_drivers ds m = do
    m' ←
        wrapped "create log drivers"
          (C.new_list struct_list CreateContainerRequest.new_log_drivers (int32 (length ds)) m)
    set_log_drivers 0 ds m'

module _ (C : Capnp) where
  -- The closure in three parts, in its order: the first fields, the lists of texts with the log
  -- drivers between them, and what follows the command arguments.
  unfoldable pub fill_container_base : CreateContainerConfig → C.Message → Result C.Message
  fill_container_base cfg req = do
    m1 ← wrapped "set ID" (CreateContainerRequest.set_id C cfg.id req)
    m2 ← wrapped "set bundle path" (CreateContainerRequest.set_bundle_path C cfg.bundle_path m1)
    ok (
        CreateContainerRequest.set_stdin C cfg.stdin
          (CreateContainerRequest.set_terminal C cfg.terminal m2))

  unfoldable pub fill_container_lists : CreateContainerConfig → C.Message → Result C.Message
  fill_container_lists cfg req = do
    m1 ←
        wrapped "convert exit paths string slice to text list"
          (string_slice_to_text_list C CreateContainerRequest.new_exit_paths cfg.exit_paths req)
    m2 ← wrapped "convert oom exit paths string slice to text list" (
        string_slice_to_text_list C CreateContainerRequest.new_oom_exit_paths cfg.oom_exit_paths m1)
    m3 ← wrapped "init log drivers" (init_log_drivers C cfg.log_drivers m2)
    m4 ←
        wrapped "convert cleanup command string slice to text list"
          (string_slice_to_text_list C CreateContainerRequest.new_cleanup_cmd cfg.cleanup_cmd m3)
    m5 ←
        wrapped "convert global arguments string slice to text list"
          (string_slice_to_text_list C CreateContainerRequest.new_global_args cfg.global_args m4)
    wrapped "convert command arguments string slice to text list"
        (string_slice_to_text_list C CreateContainerRequest.new_command_args cfg.command_args m5)

  -- `manager` is what `setCgroupManager` sets.
  unfoldable pub fill_container_rest : ℕ → CreateContainerConfig → C.Message → Result C.Message
  fill_container_rest manager cfg req = do
    m1 ←
        wrapped "convert environment variables string slice to text list" (
          string_string_map_to_map_entry_list C CreateContainerRequest.new_env_vars cfg.env_vars
            req)
    m2 ← wrapped "convert file descriptor slice to slot list" (
        remote_fd_slice_to_uint64_list C CreateContainerRequest.new_additional_fds
          cfg.additional_fds (CreateContainerRequest.set_cgroup_manager C manager m1))
    wrapped "convert file descriptor slice to slot list"
        (remote_fd_slice_to_uint64_list C CreateContainerRequest.new_leak_fds cfg.leak_fds m2)

  unfoldable pub fill_create_container :
      Bool → ℕ → Injected → CreateContainerConfig → C.Message → Result C.Message
  fill_create_container tracing global injected cfg req = do
    m1 ← set_metadata C tracing CreateContainerRequest.metadata_slots injected req
    m2 ← fill_container_base cfg m1
    m3 ← fill_container_lists cfg m2
    fill_container_rest (chosen_cgroup_manager global cfg.cgroup_manager) cfg m3
