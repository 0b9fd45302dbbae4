-- ===== src/Requests/Container/Bounds.antt =====
-- The structs of a request for `CreateContainer` as they are allocated (pkg/client/client.go;
-- internal/proto/conmon.capnp.go).
use conmon_rs.Base.{ℕ, ◌+◌, ◌≡◌, refl, ap, ◌==◌, Bool, List, [], ◌∷◌, if◌then◌else◌}
use conmon_rs.Base.Results.{wrapped}
use conmon_rs.Proto.CreateContainerRequest
use conmon_rs.Proto.LogDriver
use conmon_rs.Proto.TextTextMapEntry
use conmon_rs.Wire.{Capnp, at}
use conmon_rs.Wire.Bounds.{
  Layout, bounded, then_same, string_slice_same, map_same, fd_slice_same, metadata_same,
}
use conmon_rs.Requests.Config.{ContainerLogDriver, CreateContainerConfig}
use conmon_rs.Requests.Metadata.{Injected}
use conmon_rs.Requests.Fill.{chosen_cgroup_manager}
use conmon_rs.Requests.Container.{
  set_log_driver_type, set_log_drivers, init_log_drivers, fill_container_base, fill_container_lists,
  fill_container_rest, fill_create_container,
}

abbrev pub create_layout : Layout
create_layout = record {
  whole = CreateContainerRequest.object_size;
  elements = λ k.
      if k == CreateContainerRequest.new_log_drivers
      then LogDriver.object_size
      else TextTextMapEntry.object_size;
}

module _ (C : Capnp) (out : C.Message) where
  abbrev sized : Capnp
  sized = bounded C create_layout out

  set_log_drivers_same :
      (i : ℕ) (ds : List ContainerLogDriver) (m : C.Message)
      → set_log_drivers sized i ds m ≡ set_log_drivers C i ds m
  unfolding set_log_drivers set_log_driver_type
  set_log_drivers_same i [] m = refl
  set_log_drivers_same i (d ∷ ds) m = then_same refl (λ m'.
      set_log_drivers_same (i + 1) ds
        (LogDriver.set_max_size C (at CreateContainerRequest.new_log_drivers i) d.max_size m'))

  init_log_drivers_same :
      (ds : List ContainerLogDriver) (m : C.Message)
      → init_log_drivers sized ds m ≡ init_log_drivers C ds m
  unfolding init_log_drivers
  init_log_drivers_same ds m = then_same refl (λ m'. set_log_drivers_same 0 ds m')

  lists_same :
      (cfg : CreateContainerConfig) (m : C.Message)
      → fill_container_lists sized cfg m ≡ fill_container_lists C cfg m
  unfolding fill_container_lists
  lists_same cfg m =
      then_same
        (ap (λ r. wrapped "convert exit paths string slice to text list" r)
          (string_slice_same C create_layout out 2 cfg.exit_paths m refl))
        (λ m1.
          then_same
            (ap (λ r. wrapped "convert oom exit paths string slice to text list" r)
              (string_slice_same C create_layout out 3 cfg.oom_exit_paths m1 refl))
            (λ m2.
              then_same
                (ap (λ r. wrapped "init log drivers" r) (init_log_drivers_same cfg.log_drivers m2))
                (λ m3.
                  then_same
                    (ap (λ r. wrapped "convert cleanup command string slice to text list" r)
                      (string_slice_same C create_layout out 5 cfg.cleanup_cmd m3 refl))
                    (λ m4.
                      then_same
                        (ap (λ r. wrapped "convert global arguments string slice to text list" r)
                          (string_slice_same C create_layout out 6 cfg.global_args m4 refl))
                        (λ m5.
                          ap (λ r. wrapped "convert command arguments string slice to text list" r)
                            (string_slice_same C create_layout out 7 cfg.command_args m5 refl))))))

  rest_same :
      (manager : ℕ) (cfg : CreateContainerConfig) (m : C.Message)
      → fill_container_rest sized manager cfg m ≡ fill_container_rest C manager cfg m
  unfolding fill_container_rest
  rest_same manager cfg m =
      then_same
        (ap (λ r. wrapped "convert environment variables string slice to text list" r)
          (map_same C create_layout out 10 cfg.env_vars m refl refl refl))
        (λ m1.
          then_same
            (ap (λ r. wrapped "convert file descriptor slice to slot list" r)
              (fd_slice_same C create_layout out 11 cfg.additional_fds
                (CreateContainerRequest.set_cgroup_manager C manager m1) refl))
            (λ m2.
              ap (λ r. wrapped "convert file descriptor slice to slot list" r)
                (fd_slice_same C create_layout out 12 cfg.leak_fds m2 refl)))

  base_same :
      (cfg : CreateContainerConfig) (m : C.Message)
      → fill_container_base sized cfg m ≡ fill_container_base C cfg m
  unfolding fill_container_base
  base_same cfg m = refl

-- Whatever the configuration, the closure of CreateContainer makes the same of a request with
-- setters that check the sizes of the structs as they are allocated: whatever a setter would do
-- outside its struct, none is used there.
pub fill_create_container-bounded :
    (C : Capnp) (out : C.Message) (tracing : Bool) (global : ℕ) (injected : Injected)
    (cfg : CreateContainerConfig) (req : C.Message)
    → fill_create_container (bounded C create_layout out) tracing global injected cfg req
      ≡ fill_create_container C tracing global injected cfg req
unfolding fill_create_container
fill_create_container-bounded C out tracing global injected cfg req =
    then_same (metadata_same C create_layout out tracing 9 8 injected req refl refl refl refl)
      (λ m1. then_same (base_same C out cfg m1) (λ m2.
        then_same (lists_same C out cfg m2)
          (λ m3. rest_same C out (chosen_cgroup_manager global cfg.cgroup_manager) cfg m3)))
