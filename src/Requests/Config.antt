-- ===== src/Requests/Config.antt =====
-- The configurations of the calls (pkg/client/client.go and attach.go).
use conmon_rs.Base.{ℕ, String, Bool, Option, List}

pub record VersionConfig : Type 0 where
  pub verbose : Bool

pub record ContainerLogDriver : Type 0 where
  pub log_driver_type : ℕ
  pub path : String
  pub max_size : ℕ

-- A map is the list of its entries in the order in which `range` goes over it. A `RemoteFD` is a
-- slot number.
pub record CreateContainerConfig : Type 0 where
  pub id : String
  pub bundle_path : String
  pub terminal : Bool
  pub stdin : Bool
  pub exit_paths : List String
  pub oom_exit_paths : List String
  pub log_drivers : List ContainerLogDriver
  pub cleanup_cmd : List String
  pub global_args : List String
  pub command_args : List String
  pub env_vars : List (String × String)
  pub cgroup_manager : ℕ
  pub additional_fds : List ℕ
  pub leak_fds : List ℕ

pub record ExecSyncConfig : Type 0 where
  pub id : String
  pub command : List String
  pub timeout : ℕ
  pub terminal : Bool
  pub env_vars : List (String × String)
  pub cgroup_manager : ℕ

pub record ReopenLogContainerConfig : Type 0 where
  pub id : String

-- `resize.TerminalSize`: two 16-bit numbers.
pub record TerminalSize : Type 0 where
  pub width : ℕ
  pub height : ℕ

pub record SetWindowSizeContainerConfig : Type 0 where
  pub id : String
  pub size : Option TerminalSize

-- `idtools.IDMap` and the two lists of `idtools.IDMappings`.
pub record IdMap : Type 0 where
  pub container_id : ℕ
  pub host_id : ℕ
  pub size : ℕ

pub record IdMappings : Type 0 where
  pub uids : List IdMap
  pub gids : List IdMap

pub record CreateNamespacesConfig : Type 0 where
  pub namespaces : List ℕ
  pub id_mappings : Option IdMappings
  pub base_path : String
  pub pod_id : String
