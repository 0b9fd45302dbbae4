-- ===== src/Proto/CreateContainerRequest.antt =====
-- The accessors of `Conmon_CreateContainerRequest` that the client or a reader of its requests uses
-- (internal/proto/conmon.capnp.go).
use conmon_rs.Base.{ℕ, String, Bool, some, ◌==◌}
use conmon_rs.Base.Results.{Result}
use conmon_rs.Wire.{Capnp, root, Content, bit}
use conmon_rs.Proto.{MetadataSlots, ObjectSize}

abbrev pub metadata_slots : MetadataSlots
metadata_slots = record { metadata = 9; old = some 8 }

-- A constructor of a list stands for the slot that it puts the list in.
abbrev pub new_exit_paths : ℕ
new_exit_paths = 2

abbrev pub new_oom_exit_paths : ℕ
new_oom_exit_paths = 3

abbrev pub new_log_drivers : ℕ
new_log_drivers = 4

abbrev pub new_cleanup_cmd : ℕ
new_cleanup_cmd = 5

abbrev pub new_global_args : ℕ
new_global_args = 6

abbrev pub new_command_args : ℕ
new_command_args = 7

abbrev pub new_env_vars : ℕ
new_env_vars = 10

abbrev pub new_additional_fds : ℕ
new_additional_fds = 11

abbrev pub new_leak_fds : ℕ
new_leak_fds = 12

abbrev pub object_size : ObjectSize
object_size = record { data_size = 8; pointer_count = 13 }

module _ (C : Capnp) where
  abbrev pub set_id : String → C.Message → Result C.Message
  set_id v m = C.set_text root 0 v m

  abbrev pub id : C.Message → Result String
  id m = C.read_text m root 0

  abbrev pub set_bundle_path : String → C.Message → Result C.Message
  set_bundle_path v m = C.set_text root 1 v m

  abbrev pub bundle_path : C.Message → Result String
  bundle_path m = C.read_text m root 1

  abbrev pub set_terminal : Bool → C.Message → C.Message
  set_terminal v m = C.set_scalar root 0 1 (bit v) m

  abbrev pub terminal : C.Message → Bool
  terminal m = C.scalar m root 0 1 == 1

  abbrev pub set_stdin : Bool → C.Message → C.Message
  set_stdin v m = C.set_scalar root 1 1 (bit v) m

  abbrev pub stdin : C.Message → Bool
  stdin m = C.scalar m root 1 1 == 1

  abbrev pub exit_paths : C.Message → Result Content
  exit_paths m = C.read_list m root 2

  abbrev pub oom_exit_paths : C.Message → Result Content
  oom_exit_paths m = C.read_list m root 3

  abbrev pub log_drivers : C.Message → Result Content
  log_drivers m = C.read_list m root 4

  abbrev pub cleanup_cmd : C.Message → Result Content
  cleanup_cmd m = C.read_list m root 5

  abbrev pub global_args : C.Message → Result Content
  global_args m = C.read_list m root 6

  abbrev pub command_args : C.Message → Result Content
  command_args m = C.read_list m root 7

  abbrev pub env_vars : C.Message → Result Content
  env_vars m = C.read_list m root 10

  abbrev pub set_cgroup_manager : ℕ → C.Message → C.Message
  set_cgroup_manager v m = C.set_scalar root 16 16 v m

  abbrev pub cgroup_manager : C.Message → ℕ
  cgroup_manager m = C.scalar m root 16 16

  abbrev pub additional_fds : C.Message → Result Content
  additional_fds m = C.read_list m root 11

  abbrev pub leak_fds : C.Message → Result Content
  leak_fds m = C.read_list m root 12
