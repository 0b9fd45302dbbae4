-- ===== src/Requests/Received/Create.antt =====
-- The request of `CreateContainer` as its reader finds it (pkg/client/client.go).
use conmon_rs.Base.{ℕ, ◌≡◌, length}
use conmon_rs.Base.Results.{ok}
use conmon_rs.Proto.CreateContainerRequest
use conmon_rs.Wire.{Capnp, root, absent, structs, IsReadable}
use conmon_rs.Wire.Frame.{ReadsEntries}
use conmon_rs.Requests.Config.{CreateContainerConfig}
use conmon_rs.Requests.Metadata.Effect.{given_texts, given_words, given_structs}
use conmon_rs.Requests.Fill.{chosen_cgroup_manager}
use conmon_rs.Requests.Container.Drivers.{ReadsDrivers}
use conmon_rs.Requests.Container.ReadBack.{ReadsBack}
use conmon_rs.Requests.Received.Reading.{flag_lem, text_lem, list_lem}

-- What the accessors of the request return. An empty list is a null pointer, but for the log
-- drivers.
pub record ReceivesContainer (C : Capnp) (global : ℕ) (cfg : CreateContainerConfig) (m : C.Message)
    : Type 0 where
  pub id : CreateContainerRequest.id C m ≡ ok cfg.id
  pub bundle_path : CreateContainerRequest.bundle_path C m ≡ ok cfg.bundle_path
  pub exit_paths : CreateContainerRequest.exit_paths C m ≡ ok (given_texts cfg.exit_paths absent)
  pub oom_exit_paths :
      CreateContainerRequest.oom_exit_paths C m ≡ ok (given_texts cfg.oom_exit_paths absent)
  pub log_drivers : CreateContainerRequest.log_drivers C m ≡ ok (structs (length cfg.log_drivers))
  pub each_driver : ReadsDrivers C 0 cfg.log_drivers m
  pub cleanup_cmd : CreateContainerRequest.cleanup_cmd C m ≡ ok (given_texts cfg.cleanup_cmd absent)
  pub global_args : CreateContainerRequest.global_args C m ≡ ok (given_texts cfg.global_args absent)
  pub command_args :
      CreateContainerRequest.command_args C m ≡ ok (given_texts cfg.command_args absent)
  pub env_vars : CreateContainerRequest.env_vars C m ≡ ok (given_structs cfg.env_vars absent)
  pub each_entry : ReadsEntries C CreateContainerRequest.new_env_vars 0 cfg.env_vars m
  pub additional_fds :
      CreateContainerRequest.additional_fds C m ≡ ok (given_words cfg.additional_fds absent)
  pub leak_fds : CreateContainerRequest.leak_fds C m ≡ ok (given_words cfg.leak_fds absent)
  pub terminal : CreateContainerRequest.terminal C m ≡ cfg.terminal
  pub stdin : CreateContainerRequest.stdin C m ≡ cfg.stdin
  pub cgroup_manager :
      CreateContainerRequest.cgroup_manager C m ≡ chosen_cgroup_manager global cfg.cgroup_manager

module _ (C : Capnp) (global : ℕ) (cfg : CreateContainerConfig) (m : C.Message)
    (R : IsReadable C m) where
  pub ReceivesContainer_lem : ReadsBack C global cfg m → ReceivesContainer C global cfg m
  ReceivesContainer_lem b = record {
    id = text_lem C R root 0 b.id;
    bundle_path = text_lem C R root 1 b.bundle_path;
    exit_paths = list_lem C R root 2 b.exit_paths;
    oom_exit_paths = list_lem C R root 3 b.oom_exit_paths;
    log_drivers = list_lem C R root 4 b.log_drivers;
    each_driver = b.each_driver;
    cleanup_cmd = list_lem C R root 5 b.cleanup_cmd;
    global_args = list_lem C R root 6 b.global_args;
    command_args = list_lem C R root 7 b.command_args;
    env_vars = list_lem C R root 10 b.env_vars;
    each_entry = b.each_entry;
    additional_fds = list_lem C R root 11 b.additional_fds;
    leak_fds = list_lem C R root 12 b.leak_fds;
    terminal = flag_lem cfg.terminal b.terminal;
    stdin = flag_lem cfg.stdin b.stdin;
    cgroup_manager = b.cgroup_manager;
  }
