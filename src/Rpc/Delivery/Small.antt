-- ===== src/Rpc/Delivery/Small.antt =====
-- What the server receives of the calls with few fields (pkg/client/client.go, attach.go).
use conmon_rs.Base.{List, ◌<◌, ◌^◌, ◌≡◌, some}
use conmon_rs.Base.Results.{ok}
use conmon_rs.Attach.Config.{AttachConfig}
use conmon_rs.Attach.Session.{Surroundings}
use conmon_rs.Attach.Readers.{Effect}
use conmon_rs.Proto.AttachRequest
use conmon_rs.Proto.ReopenLogRequest
use conmon_rs.Proto.SetWindowSizeRequest
use conmon_rs.Wire.{Capnp, IsLawful, IsReadable}
use conmon_rs.Requests.Config.{ReopenLogContainerConfig, SetWindowSizeContainerConfig, TerminalSize}
use conmon_rs.Requests.Metadata.{Injected}
use conmon_rs.Requests.Fill.{fill_attach, fill_reopen_log, fill_set_window_size}
use conmon_rs.Requests.Received.Small.{attach_lem, reopen_log_lem, window_size_lem}
use conmon_rs.Rpc.{Host, Process, attach_container, reopen_log_container, set_window_size_container}
use conmon_rs.Rpc.Methods.{no_response, call_reopen_log_container, call_set_window_size_container}
use conmon_rs.Rpc.Attach.{run_attach, call_attach_container}
use conmon_rs.Rpc.Delivery.{IsFaithful, Exchanged, invoke_ok}

module _ (C : Capnp) (H : Host C) (L : IsLawful C) (F : IsFaithful C H) (injected : Injected)
    (p : Process C H) where
  -- Over a lawful library and a faithful runtime, and if the request can be read: if `AttachContainer` succeeds, then the server
  -- behind the client's socket took one request whose accessors return the id of the container,
  -- the path of the attach socket, and whether to stop at the end of the input.
  pub call_attach_container-Exchanged :
      (perform : List Effect → H.World → H.World) (cfg : AttachConfig) (env : Surroundings)
      → ((m response : C.Message) → Exchanged C H attach_container p m response → IsReadable C m)
      → (call_attach_container C H perform injected cfg env p).0 ≡ ok tt
      → (m : C.Message) × (response : C.Message) × Exchanged C H attach_container p m response
        × (AttachRequest.id C m ≡ ok cfg.id)
        × (AttachRequest.socket_path C m ≡ ok cfg.socket_path)
        × (AttachRequest.stop_after_stdin_eof C m ≡ cfg.stop_after_stdin_eof)
  unfolding call_attach_container
  call_attach_container-Exchanged perform cfg env readable h =
      let global = p.client.cgroup_manager in
      let tracing = p.client.tracing_enabled in
      let (req, m, response, q, made, filled, exchanged, finished) =
        invoke_ok C H attach_container (fill_attach C tracing global injected cfg)
          (λ m. run_attach C H perform cfg env) p tt F h in
      let (id, path, stop) =
        attach_lem C L tracing global injected req m (readable m response exchanged) cfg filled in
      (m, response, exchanged, id, path, stop)

  -- Over a lawful library and a faithful runtime, for a request that can be read and a size whose two numbers are of 16 bits:
  -- if `SetWindowSizeContainer` succeeds, then the server behind the client's socket took one
  -- request whose accessors return the id of the container, the width and the height.
  pub call_set_window_size_container-Exchanged :
      (cfg : SetWindowSizeContainerConfig) (size : TerminalSize)
      → cfg.size ≡ some size
      → size.width < 2 ^ 16
      → size.height < 2 ^ 16
      → ((m response : C.Message)
          → Exchanged C H set_window_size_container p m response
          → IsReadable C m)
      → (call_set_window_size_container C H injected cfg p).0 ≡ ok tt
      → (m : C.Message) × (response : C.Message) × Exchanged C H set_window_size_container p m
          response
        × (SetWindowSizeRequest.id C m ≡ ok cfg.id)
        × (SetWindowSizeRequest.width C m ≡ size.width)
        × (SetWindowSizeRequest.height C m ≡ size.height)
  unfolding call_set_window_size_container
  call_set_window_size_container-Exchanged cfg size given fit fit' readable h =
      let global = p.client.cgroup_manager in
      let tracing = p.client.tracing_enabled in
      let (req, m, response, q, made, filled, exchanged, finished) =
        invoke_ok C H set_window_size_container
          (fill_set_window_size C tracing global injected cfg.id size) (no_response C H) p tt F
          (rw given at h) in
      let (id, width, height) =
        window_size_lem C L tracing global injected req m (readable m response exchanged) cfg.id
          size fit fit' filled in
      (m, response, exchanged, id, width, height)

  -- The server took one request with the id, if `ReopenLogContainer` succeeds and the request can be read.
  pub call_reopen_log_container-Exchanged :
      (cfg : ReopenLogContainerConfig)
      → ((m response : C.Message)
          → Exchanged C H reopen_log_container p m response
          → IsReadable C m)
      → (call_reopen_log_container C H injected cfg p).0 ≡ ok tt
      → (m : C.Message) × (response : C.Message) × Exchanged C H reopen_log_container p m response
        × (ReopenLogRequest.id C m ≡ ok cfg.id)
  unfolding call_reopen_log_container
  call_reopen_log_container-Exchanged cfg readable h =
      let global = p.client.cgroup_manager in
      let tracing = p.client.tracing_enabled in
      let (req, m, response, q, made, filled, exchanged, finished) =
        invoke_ok C H reopen_log_container (fill_reopen_log C tracing global injected cfg)
          (no_response C H) p tt F h in
      (
        m,
        response,
        exchanged,
        reopen_log_lem C L tracing global injected req m (readable m response exchanged) cfg filled,
      )
