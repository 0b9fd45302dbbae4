-- ===== src/RpcServer.antt =====
-- conmon-rs/server/src/rpc.rs: the answers of the server, as far as the client reads them. What a
-- handler has found out, such as the output of a command, is an argument. The setters of the
-- server are generated from the same schema as those of Proto, with the same slots.
pub mod Version
pub mod Exec
pub mod Namespaces
pub mod Call
pub mod Descriptors
use conmon_rs.Consts.ProtoNamespace
use conmon_rs.Proto
use conmon_rs.Base.{
  ℕ, ◌+◌, ◌-◌, ◌^◌, String, str_eq, Bool, true, ◌||◌, List, [], ◌∷◌, length, if◌then◌else◌,
}
use conmon_rs.Base.Results.{Result, ok, err, external}
use conmon_rs.Base.Chain.{◌>>=◌}
use conmon_rs.Wire.{Capnp, at}

-- The constants of the build, which `shadow!` generates (conmon-rs/server/src/version.rs).
pub record Build : Type 0 where
  pub pkg_version : String
  pub tag : String
  pub commit_hash : String
  pub build_time : String
  pub build_target : String
  pub rust_version : String
  pub cargo_version : String
  pub cargo_tree : String

pub record ServerVersion : Type 0 where
  pub verbose : Bool
  pub version : String
  pub tag : String
  pub commit : String
  pub build_date : String
  pub target : String
  pub rust_version : String
  pub cargo_version : String
  pub cargo_tree : String

-- `Version::new`.
unfoldable pub new_version : Build → Bool → ServerVersion
new_version b verbose = record {
  verbose = verbose;
  version = b.pkg_version;
  tag = b.tag;
  commit = b.commit_hash;
  build_date = b.build_time;
  target = b.build_target;
  rust_version = b.rust_version;
  cargo_version = b.cargo_version;
  cargo_tree = if verbose then b.cargo_tree else "";
}

-- How the command of `exec_sync_container` went: its output, whether reading it timed out, the
-- exit code as the bit pattern of an int32, and whether the child timed out; or it did not start.
pub data Execution : Type 0 where
  ran : List ℕ → List ℕ → Bool → ℕ → Bool → Execution
  not_started : Execution

-- The namespaces of conmon-rs/server/src/pause.rs, with `to_capnp_namespace`.
pub data PauseNamespace : Type 0 where
  ipc pid net user uts : PauseNamespace

unfoldable pub to_capnp_namespace : PauseNamespace → ℕ
to_capnp_namespace ipc = ProtoNamespace.ipc
to_capnp_namespace pid = ProtoNamespace.pid
to_capnp_namespace net = ProtoNamespace.net
to_capnp_namespace user = ProtoNamespace.user
to_capnp_namespace uts = ProtoNamespace.uts

module _ (C : Capnp) where
  -- `version`: the request, and an empty response.
  unfoldable pub answer_version : Build → ℕ → C.Message → C.Message → Result C.Message
  answer_version build process_id req response = do
    let version = new_version build (Proto.VersionRequest.verbose C req)
    let m = Proto.VersionResponse.set_process_id C process_id response
    m ← Proto.VersionResponse.set_version C version.version m
    m ← Proto.VersionResponse.set_tag C version.tag m
    m ← Proto.VersionResponse.set_commit C version.commit m
    m ← Proto.VersionResponse.set_build_date C version.build_date m
    m ← Proto.VersionResponse.set_target C version.target m
    m ← Proto.VersionResponse.set_rust_version C version.rust_version m
    m ← Proto.VersionResponse.set_cargo_version C version.cargo_version m
    Proto.VersionResponse.set_cargo_tree C version.cargo_tree m

  -- The end of `exec_sync_container`.
  unfoldable pub answer_exec_sync : Execution → C.Message → Result C.Message
  answer_exec_sync (ran stdout stderr read_timed_out exit_code exit_timed_out) response = do
    m ← Proto.ExecSyncContainerResponse.set_stdout C stdout response
    m ← Proto.ExecSyncContainerResponse.set_stderr C stderr m
    let m = Proto.ExecSyncContainerResponse.set_exit_code C exit_code m
    ok (
        if read_timed_out || exit_timed_out
        then Proto.ExecSyncContainerResponse.set_timed_out C true m
        else m)
  answer_exec_sync not_started response =
      ok (Proto.ExecSyncContainerResponse.set_exit_code C (2 ^ 32 - 2) response)

  -- The loop of `create_namespaces`, from index `i` on.
  unfoldable pub write_namespaces :
      ℕ → List (PauseNamespace × String) → C.Message → Result C.Message
  write_namespaces i [] m = ok m
  write_namespaces i ((namespace, path) ∷ namespaces) m = do
    m ← Proto.NamespaceResponse.set_path C (at 0 i) path m
    let m = Proto.NamespaceResponse.set_type C (at 0 i) (to_capnp_namespace namespace) m
    write_namespaces (i + 1) namespaces m

  -- `create_namespaces` with the namespaces that `Pause` has made for the pod, and their paths. A
  -- request with no pod is refused.
  unfoldable pub answer_create_namespaces :
      List (PauseNamespace × String) → C.Message → C.Message → Result C.Message
  answer_create_namespaces namespaces req response = do
    pod_id ← Proto.CreateNamespacesRequest.pod_id C req
    if str_eq pod_id ""
        then err (external 0)
        else Proto.CreateNamespacesResponse.new_namespaces C (length namespaces) response
          >>= write_namespaces 0 namespaces

  -- The end of `start_fd_socket`, with the path on which the socket listens.
  unfoldable pub answer_start_fd_socket : String → C.Message → Result C.Message
  answer_start_fd_socket path response = Proto.StartFdSocketResponse.set_path C path response
