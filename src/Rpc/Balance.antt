-- ===== src/Rpc/Balance.antt =====
-- The connections that the methods open and close (pkg/client/client.go, attach.go,
-- remote_fds.go).
use conmon_rs.Base.{ℕ, ◌+◌, ◌≡◌, refl, arith, List, Option, inl, inr, Bool-cases, Option-cases}
use conmon_rs.Base.Results.{Result, Exec, Result-cases}
use conmon_rs.Wire.{Capnp}
use conmon_rs.Proto.StartFdSocketResponse
use conmon_rs.Dial.{dial_long_socket}
use conmon_rs.Dial.Descriptors.{one_if_ok, opened-dial_long_socket}
use conmon_rs.RemoteFds.{FdConn}
use conmon_rs.RemoteFds.Connect.{connect_fds, new_remote_fds, remote_fds}
use conmon_rs.Attach.Config.{AttachConfig}
use conmon_rs.Requests.Config.{
  VersionConfig, CreateContainerConfig, ExecSyncConfig, ReopenLogContainerConfig,
  SetWindowSizeContainerConfig, CreateNamespacesConfig,
}
use conmon_rs.Requests.Metadata.{Injected}
use conmon_rs.Rpc.{Host, Process, Method, invoke}
use conmon_rs.Rpc.Methods.{
  store_version, version_response, container_response, exec_response, no_response,
  namespaces_response, call_version, call_create_container, call_exec_sync_container,
  call_reopen_log_container, call_set_window_size_container, call_create_namespaces,
}
use conmon_rs.Attach.Readers.{Effect}
use conmon_rs.Attach.Session.{Surroundings}
use conmon_rs.Rpc.Attach.{run_attach, call_attach_container}
use conmon_rs.Rpc.Attach.Effects.{opened-run_attach}
use conmon_rs.Rpc.Connections.{Counts, Adds, opened-invoke}

module _ (C : Capnp) (H : Host C) where
  pub world-version_response :
      (m : C.Message) (q : Process C H) → (version_response C H m q).1.world ≡ q.world
  unfolding version_response store_version
  world-version_response m q = ground arith

  world-exec_response :
      (m : C.Message) (q : Process C H) → (exec_response C H m q).1.world ≡ q.world
  unfolding exec_response
  world-exec_response m q = ground arith

  world-namespaces_response :
      (m : C.Message) (q : Process C H) → (namespaces_response C H m q).1.world ≡ q.world
  unfolding namespaces_response
  world-namespaces_response m q = ground arith

  opened-connect_fds :
      (D : FdConn) (state : H.Conn → D.State) (opened : H.World → ℕ)
      → Counts C H opened
      → Adds C H opened one_if_ok (λ e. refl) (connect_fds C H D state)
  unfolding connect_fds new_remote_fds
  opened-connect_fds D state opened K m q = elim (Result-cases (StartFdSocketResponse.path C m)) [
    | inr (x, e) ↦ rw e (omega arith)
    | inl (path, e) ↦
        let dials = opened-dial_long_socket H.sockets opened "unixpacket" path q.world K.sockets in
        elim (Result-cases (dial_long_socket H.sockets "unixpacket" path q.world).0) [
          | inl (conn, f) ↦ rw (e, f) (rw f at dials)
          | inr (x, f) ↦ rw (e, f) (rw f at dials)
        ]
  ]

module _ (C : Capnp) (H : Host C) (injected : Injected) (opened : H.World → ℕ)
    (K : Counts C H opened) (p : Process C H) where
  opened-same :
      {A : Type 0} (method : Method) (fill : C.Message → Result C.Message)
      (finish : C.Message → Exec (Process C H) A)
      → ((m : C.Message) (q : Process C H) → (finish m q).1.world ≡ q.world)
      → opened (invoke C H method fill finish p).1.world ≡ opened p.world
  opened-same method fill finish same = omega (
    arith,
    opened-invoke C H opened (λ r. 0) (λ e. refl) method fill finish p K
        (λ m q. rw (same m q) (omega arith)),
  )

  window_opened :
      (cfg : SetWindowSizeContainerConfig)
      → opened (call_set_window_size_container C H injected cfg p).1.world ≡ opened p.world
  unfolding call_set_window_size_container no_response
  window_opened cfg = elim (Option-cases cfg.size) [
    | inl e ↦ rw e refl
    | inr (size, e) ↦ rw e (opened-same _ _ _ (λ m q. refl))
  ]

  namespaces_opened :
      (cfg : CreateNamespacesConfig)
      → opened (call_create_namespaces C H injected cfg p).1.world ≡ opened p.world
  unfolding call_create_namespaces
  namespaces_opened cfg =
      let old = H.semver_lt p.client.server_version (H.semver 0 5 0) in
      elim (Bool-cases (H.semver_lt p.client.server_version (H.semver 0 5 0))) [
        | inl e ↦ rw e refl
        | inr e ↦ rw e (opened-same _ _ _ (world-namespaces_response C H))
      ]

  opened-attach :
      (perform : List Effect → H.World → H.World) (env : Surroundings) (cfg : AttachConfig)
      → ((es : List Effect) (w : H.World) → opened (perform es w) ≡ opened w)
      → opened (call_attach_container C H perform injected cfg env p).1.world ≡ opened p.world
  unfolding call_attach_container
  opened-attach perform env cfg h = omega (
    arith,
    opened-invoke C H opened (λ r. 0) (λ e. refl) _ _ (λ m. run_attach C H perform cfg env) p K
        (λ m q. omega (arith, opened-run_attach C H perform opened K h cfg env q)),
  )

  -- If a file or a socket that is opened counts as one descriptor, a close ends one, and a call
  -- opens and ends none, and neither do the effects of an attach session: seven of the eight
  -- methods leave as many descriptors open as there were, whatever their outcome. `RemoteFDs`
  -- leaves one more open if it succeeds, which is the packet socket that it returns, and as many
  -- as there were otherwise.
  pub methods-opened :
      (D : FdConn) (state : H.Conn → D.State) (perform : List Effect → H.World → H.World)
      (env : Surroundings) (version : Option VersionConfig) (create : CreateContainerConfig)
      (exec : ExecSyncConfig) (attach : AttachConfig) (reopen : ReopenLogContainerConfig)
      (window : SetWindowSizeContainerConfig) (namespaces : CreateNamespacesConfig)
      → ((es : List Effect) (w : H.World) → opened (perform es w) ≡ opened w)
      → (opened (call_version C H injected version p).1.world ≡ opened p.world)
        × (opened (call_create_container C H injected create p).1.world ≡ opened p.world)
        × (opened (call_exec_sync_container C H injected exec p).1.world ≡ opened p.world)
        × (opened (call_attach_container C H perform injected attach env p).1.world
            ≡ opened p.world)
        × (opened (call_reopen_log_container C H injected reopen p).1.world ≡ opened p.world)
        × (opened (call_set_window_size_container C H injected window p).1.world ≡ opened p.world)
        × (opened (call_create_namespaces C H injected namespaces p).1.world ≡ opened p.world)
        × (opened (remote_fds C H D state injected p).1.world
            ≡ opened p.world + one_if_ok (remote_fds C H D state injected p).0)
  unfolding call_version call_create_container call_exec_sync_container call_attach_container
      call_reopen_log_container remote_fds container_response no_response
  methods-opened D state perform env version create exec attach reopen window namespaces h = (
    opened-same _ _ _ (world-version_response C H),
    opened-same _ _ _ (λ m q. refl),
    opened-same _ _ _ (world-exec_response C H),
    opened-attach perform env attach h,
    opened-same _ _ _ (λ m q. refl),
    window_opened window,
    namespaces_opened namespaces,
    opened-invoke C H opened one_if_ok (λ e. refl) _ _ _ p K
        (opened-connect_fds C H D state opened K),
  )
