-- ===== src/Requests/Bounds.antt =====
-- The structs of the requests of `Fill` as they are allocated (pkg/client/client.go, attach.go;
-- internal/proto/conmon.capnp.go).
use conmon_rs.Base.{ℕ, ◌≡◌, refl, ap, String, Bool, true, false, Option}
use conmon_rs.Base.Results.{wrapped}
use conmon_rs.Attach.Config.{AttachConfig}
use conmon_rs.Proto.{ObjectSize}
use conmon_rs.Proto.VersionRequest
use conmon_rs.Proto.ExecSyncContainerRequest
use conmon_rs.Proto.AttachRequest
use conmon_rs.Proto.ReopenLogRequest
use conmon_rs.Proto.SetWindowSizeRequest
use conmon_rs.Proto.StartFdSocketRequest
use conmon_rs.Proto.TextTextMapEntry
use conmon_rs.Wire.{Capnp}
use conmon_rs.Wire.Bounds.{Layout, bounded, then_same, string_slice_same, map_same, metadata_same}
use conmon_rs.Requests.Config.{
  VersionConfig, ExecSyncConfig, ReopenLogContainerConfig, TerminalSize,
}
use conmon_rs.Requests.Metadata.{Injected, set_metadata_old, set_metadata}
use conmon_rs.Requests.Fill.{
  fill_version, fill_exec_sync, fill_attach, fill_reopen_log, fill_set_window_size,
  fill_start_fd_socket,
}

-- The lists of structs in these requests are maps.
abbrev pub layout_of : ObjectSize → Layout
layout_of s = record { whole = s; elements = λ k. TextTextMapEntry.object_size }

module _ (C : Capnp) (out : C.Message) (tracing : Bool) (global : ℕ) (injected : Injected)
    (req : C.Message) where
  version_same :
      (cfg : Option VersionConfig)
      → fill_version
          (bounded C (layout_of VersionRequest.object_size) out)
          tracing
          global
          injected
          cfg
          req
        ≡ fill_version C tracing global injected cfg req
  unfolding fill_version
  version_same cfg =
      then_same
        (metadata_same C (layout_of VersionRequest.object_size) out tracing 1 0 injected req refl
          refl refl refl)
        (λ m. refl)

  exec_sync_same :
      (cfg : ExecSyncConfig)
      → fill_exec_sync
          (bounded C (layout_of ExecSyncContainerRequest.object_size) out)
          tracing
          global
          injected
          cfg
          req
        ≡ fill_exec_sync C tracing global injected cfg req
  unfolding fill_exec_sync
  exec_sync_same cfg =
      let l : Layout = layout_of ExecSyncContainerRequest.object_size in
      then_same (metadata_same C l out tracing 3 2 injected req refl refl refl refl) (λ m1.
        then_same refl (λ m2.
          then_same
            (string_slice_same C l out 1 cfg.command
              (ExecSyncContainerRequest.set_timeout_sec C cfg.timeout m2) refl)
            (λ m4.
              then_same
                (map_same C l out 4 cfg.env_vars
                  (ExecSyncContainerRequest.set_terminal C cfg.terminal m4) refl refl refl)
                (λ m6. refl))))

  attach_same :
      (cfg : AttachConfig)
      → fill_attach
          (bounded C (layout_of AttachRequest.object_size) out)
          tracing
          global
          injected
          cfg
          req
        ≡ fill_attach C tracing global injected cfg req
  unfolding fill_attach
  attach_same cfg =
      then_same
        (metadata_same C (layout_of AttachRequest.object_size) out tracing 4 3 injected req refl
          refl refl refl)
        (λ m. refl)

  reopen_log_same :
      (cfg : ReopenLogContainerConfig)
      → fill_reopen_log
          (bounded C (layout_of ReopenLogRequest.object_size) out)
          tracing
          global
          injected
          cfg
          req
        ≡ fill_reopen_log C tracing global injected cfg req
  unfolding fill_reopen_log
  reopen_log_same cfg =
      then_same
        (metadata_same C (layout_of ReopenLogRequest.object_size) out tracing 2 1 injected req refl
          refl refl refl)
        (λ m. refl)

  set_window_size_same :
      (id : String) (size : TerminalSize)
      → fill_set_window_size
          (bounded C (layout_of SetWindowSizeRequest.object_size) out)
          tracing
          global
          injected
          id
          size
          req
        ≡ fill_set_window_size C tracing global injected id size req
  unfolding fill_set_window_size
  set_window_size_same id size =
      then_same
        (metadata_same C (layout_of SetWindowSizeRequest.object_size) out tracing 2 1 injected req
          refl refl refl refl)
        (λ m. refl)

start_fd_socket_same :
    (C : Capnp) (out : C.Message) (tracing : Bool) (global : ℕ) (injected : Injected)
    (req : C.Message)
    → fill_start_fd_socket
        (bounded C (layout_of StartFdSocketRequest.object_size) out)
        tracing
        global
        injected
        req
      ≡ fill_start_fd_socket C tracing global injected req
unfolding fill_start_fd_socket set_metadata set_metadata_old
start_fd_socket_same C out false global injected req = refl
start_fd_socket_same C out true global injected req = ap (wrapped "set metadata") (
    then_same
      (ap (wrapped "set metadata2") (
        map_same C (layout_of StartFdSocketRequest.object_size) out 0 injected.entries req refl refl
          refl))
      (λ m. refl))

-- Whatever the configurations, the closures of Version, ExecSyncContainer, AttachContainer,
-- ReopenLogContainer, SetWindowSizeContainer and StartFdSocket make the same of a request with
-- setters that check the sizes of the structs as they are allocated: whatever a setter would do
-- outside its struct, none is used there.
pub fill_requests-bounded :
    (C : Capnp) (out : C.Message) (tracing : Bool) (global : ℕ) (injected : Injected)
    (req : C.Message) (v : Option VersionConfig) (x : ExecSyncConfig) (a : AttachConfig)
    (r : ReopenLogContainerConfig) (id : String) (size : TerminalSize)
    → (fill_version
          (bounded C (layout_of VersionRequest.object_size) out)
          tracing
          global
          injected
          v
          req
        ≡ fill_version C tracing global injected v req)
      × (fill_exec_sync
            (bounded C (layout_of ExecSyncContainerRequest.object_size) out)
            tracing
            global
            injected
            x
            req
          ≡ fill_exec_sync C tracing global injected x req)
      × (fill_attach
            (bounded C (layout_of AttachRequest.object_size) out)
            tracing
            global
            injected
            a
            req
          ≡ fill_attach C tracing global injected a req)
      × (fill_reopen_log
            (bounded C (layout_of ReopenLogRequest.object_size) out)
            tracing
            global
            injected
            r
            req
          ≡ fill_reopen_log C tracing global injected r req)
      × (fill_set_window_size
            (bounded C (layout_of SetWindowSizeRequest.object_size) out)
            tracing
            global
            injected
            id
            size
            req
          ≡ fill_set_window_size C tracing global injected id size req)
      × (fill_start_fd_socket
            (bounded C (layout_of StartFdSocketRequest.object_size) out)
            tracing
            global
            injected
            req
          ≡ fill_start_fd_socket C tracing global injected req)
fill_requests-bounded C out tracing global injected req v x a r id size = (
  version_same C out tracing global injected req v,
  exec_sync_same C out tracing global injected req x,
  attach_same C out tracing global injected req a,
  reopen_log_same C out tracing global injected req r,
  set_window_size_same C out tracing global injected req id size,
  start_fd_socket_same C out tracing global injected req,
)
