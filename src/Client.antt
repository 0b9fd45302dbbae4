-- ===== src/Client.antt =====
-- The state of a client (pkg/client/client.go, `ConmonClient`). The logger and the tracer are left
-- out: no result depends on what is logged or traced.
use conmon_rs.Base.{ℕ, String, Bool, List}

-- `attachReaderValue` (pkg/client/attach.go). A number names the input stream.
pub record AttachReader : Type 0 where
  pub stdin : ℕ
  pub socket_path : String

-- `V` is the type of `semver.Version`, of a third-party module. `attach_readers` is a `sync.Map`.
pub record ConmonClient (V : Type 0) : Type 0 where
  pub server_pid : ℕ
  pub run_dir : String
  pub attach_readers : List (String × AttachReader)
  pub tracing_enabled : Bool
  pub server_version : V
  pub cgroup_manager : ℕ
