-- ===== src/Rpc/Methods.antt =====
-- The methods of the client (pkg/client/client.go, attach.go), but for `AttachContainer` and
-- `RemoteFDs`, which go on with a session or a connection of their own.
use conmon_rs.Base.{
  ℕ, zero, suc, ◌+◌, String, Bool, Option, none, some, List, [], ◌∷◌, if◌then◌else◌,
}
use conmon_rs.Base.Results.{
  Result, ok, err, wrap, wrapped, Exec, is_ok, lift, pure, ◌>>=◌, unsupported, terminal_size_nil,
}
use conmon_rs.Proto
use conmon_rs.Wire.{Capnp, at, length_of}
use conmon_rs.Requests.Config.{
  VersionConfig, CreateContainerConfig, ExecSyncConfig, ReopenLogContainerConfig,
  SetWindowSizeContainerConfig, CreateNamespacesConfig,
}
use conmon_rs.Requests.Metadata.{Injected}
use conmon_rs.Requests.Fill.{fill_version, fill_exec_sync, fill_reopen_log, fill_set_window_size}
use conmon_rs.Requests.Container.{fill_create_container}
use conmon_rs.Requests.Namespaces.{client_namespace, fill_create_namespaces}
use conmon_rs.Rpc.{
  dial, Host, Process, invoke, socket, version, create_container, exec_sync_container,
  reopen_log_container, set_window_size_container, create_namespaces,
}

pub record VersionResponse : Type 0 where
  pub process_id : ℕ
  pub version : String
  pub tag : String
  pub commit : String
  pub build_date : String
  pub target : String
  pub rust_version : String
  pub cargo_version : String
  pub cargo_tree : String

-- `NamespacesPath` is never set.
pub record CreateContainerResponse : Type 0 where
  pub pid : ℕ
  pub namespaces_path : String

-- The exit code is the bit pattern of an int32.
pub record ExecContainerResult : Type 0 where
  pub exit_code : ℕ
  pub stdout : List ℕ
  pub stderr : List ℕ
  pub timed_out : Bool

pub record NamespacesResponse : Type 0 where
  pub namespace_type : ℕ
  pub path : String

-- An entry in front of those that follow, or the first error.
abbrev pub prepend :
    ℕ → Result String → Result (List NamespacesResponse) → Result (List NamespacesResponse)
prepend typ (err e) rest = err e
prepend typ (ok path) (err e) = err e
prepend typ (ok path) (ok rest) = ok (record { namespace_type = typ; path = path } ∷ rest)

module _ (C : Capnp) (H : Host C) where
  -- The response of `Version`. The server's version is stored as soon as it is parsed, also if a
  -- later field fails.
  unfoldable pub store_version : H.SemVer → Exec (Process C H) (Unit {0})
  store_version v p = (ok tt, record p { client = record p.client { server_version = v } })

  unfoldable pub version_response : C.Message → Exec (Process C H) VersionResponse
  version_response m = do
    text ← lift (wrapped "set version" (Proto.VersionResponse.version C m))
    parsed ← lift (wrapped "parse server version to semver" (H.parse_semver text))
    _ ← store_version parsed
    tag ← lift (wrapped "set tag" (Proto.VersionResponse.tag C m))
    commit ← lift (wrapped "set commit" (Proto.VersionResponse.commit C m))
    build_date ← lift (wrapped "set build date" (Proto.VersionResponse.build_date C m))
    target ← lift (wrapped "set target" (Proto.VersionResponse.target C m))
    rust_version ← lift (wrapped "set rust version" (Proto.VersionResponse.rust_version C m))
    cargo_version ← lift (wrapped "set cargo version" (Proto.VersionResponse.cargo_version C m))
    cargo_tree ← lift (wrapped "set cargo version" (Proto.VersionResponse.cargo_tree C m))
    pure (record {
      process_id = Proto.VersionResponse.process_id C m;
      version = text;
      tag = tag;
      commit = commit;
      build_date = build_date;
      target = target;
      rust_version = rust_version;
      cargo_version = cargo_version;
      cargo_tree = cargo_tree;
    })

  unfoldable pub container_response : C.Message → Exec (Process C H) CreateContainerResponse
  container_response m =
      pure (record { pid = Proto.CreateContainerResponse.container_pid C m; namespaces_path = "" })

  unfoldable pub exec_response : C.Message → Exec (Process C H) ExecContainerResult
  exec_response m = do
    stdout ← lift (wrapped "get stdout" (Proto.ExecSyncContainerResponse.stdout C m))
    stderr ← lift (wrapped "get stderr" (Proto.ExecSyncContainerResponse.stderr C m))
    pure (record {
      exit_code = Proto.ExecSyncContainerResponse.exit_code C m;
      stdout = stdout;
      stderr = stderr;
      timed_out = Proto.ExecSyncContainerResponse.timed_out C m;
    })

  unfoldable pub no_response : C.Message → Exec (Process C H) (Unit {0})
  no_response m = pure tt

  -- `for i := 0; i < namespaces.Len(); i++`, on the elements that are left.
  unfoldable pub read_namespaces : ℕ → ℕ → C.Message → Result (List NamespacesResponse)
  read_namespaces zero i m = ok []
  read_namespaces (suc n) i m =
      prepend (client_namespace (Proto.NamespaceResponse.type C (at 0 i) m))
        (wrapped "namespace has no path" (Proto.NamespaceResponse.path C (at 0 i) m))
        (read_namespaces n (i + 1) m)

  unfoldable pub namespaces_response : C.Message → Exec (Process C H) (List NamespacesResponse)
  namespaces_response m = do
    namespaces ← lift (wrapped "set path" (Proto.CreateNamespacesResponse.namespaces C m))
    lift (read_namespaces (length_of namespaces) 0 m)

module _ (C : Capnp) (H : Host C) (injected : Injected) where
  unfoldable pub call_version : Option VersionConfig → Exec (Process C H) VersionResponse
  call_version cfg p =
      invoke C H version
        (fill_version C p.client.tracing_enabled p.client.cgroup_manager injected cfg)
        (version_response C H) p

  unfoldable pub call_create_container :
      CreateContainerConfig → Exec (Process C H) CreateContainerResponse
  call_create_container cfg p =
      invoke C H create_container
        (fill_create_container C p.client.tracing_enabled p.client.cgroup_manager injected cfg)
        (container_response C H) p

  unfoldable pub call_exec_sync_container : ExecSyncConfig → Exec (Process C H) ExecContainerResult
  call_exec_sync_container cfg p =
      invoke C H exec_sync_container
        (fill_exec_sync C p.client.tracing_enabled p.client.cgroup_manager injected cfg)
        (exec_response C H) p

  unfoldable pub call_reopen_log_container :
      ReopenLogContainerConfig → Exec (Process C H) (Unit {0})
  call_reopen_log_container cfg p =
      invoke C H reopen_log_container
        (fill_reopen_log C p.client.tracing_enabled p.client.cgroup_manager injected cfg)
        (no_response C H) p

  -- A nil size is refused before anything is connected.
  unfoldable pub call_set_window_size_container :
      SetWindowSizeContainerConfig → Exec (Process C H) (Unit {0})
  call_set_window_size_container cfg p = elim cfg.size [
    | none ↦ (err terminal_size_nil, p)
    | some size ↦
        invoke C H set_window_size_container
          (fill_set_window_size C p.client.tracing_enabled p.client.cgroup_manager injected cfg.id
            size)
          (no_response C H) p
  ]

  -- What the closure leaves in the caller's configuration, once it runs.
  unfoldable pub after_closure : CreateNamespacesConfig → Process C H → CreateNamespacesConfig
  after_closure cfg p = elim (H.new_request create_namespaces) [
    | err e ↦ cfg
    | ok req ↦ (fill_create_namespaces C p.client.tracing_enabled injected cfg req).1
  ]

  -- The feature wants a server of 0.5.0 or later; an older one is refused before anything is
  -- connected. The configuration comes back, since the closure can write to it.
  unfoldable pub call_create_namespaces :
      CreateNamespacesConfig
      → Process C H
      → (Result (List NamespacesResponse) × CreateNamespacesConfig) × Process C H
  call_create_namespaces cfg p =
      if H.semver_lt p.client.server_version (H.semver 0 5 0)
      then ((err (wrap "requires at least 0.5.0" unsupported), cfg), p)
      else let (r, p') =
          invoke C H create_namespaces
            (λ req. (fill_create_namespaces C p.client.tracing_enabled injected cfg req).0)
            (namespaces_response C H) p in
        let (dialed, w) = dial C H (socket C H p.client) p.world in
        ((r, if is_ok dialed then after_closure cfg p else cfg), p')
