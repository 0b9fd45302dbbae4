-- ===== src/Proto/ExecSyncContainerRequest.antt =====
-- The accessors of `Conmon_ExecSyncContainerRequest` that the client or a reader of its requests uses
-- (internal/proto/conmon.capnp.go).
use conmon_rs.Base.{ℕ, String, Bool, some, ◌==◌}
use conmon_rs.Base.Results.{Result}
use conmon_rs.Wire.{Capnp, root, Content, bit}
use conmon_rs.Proto.{MetadataSlots, ObjectSize}

abbrev pub metadata_slots : MetadataSlots
metadata_slots = record { metadata = 3; old = some 2 }

-- A constructor of a list stands for the slot that it puts the list in.
abbrev pub new_command : ℕ
new_command = 1

abbrev pub new_env_vars : ℕ
new_env_vars = 4

abbrev pub object_size : ObjectSize
object_size = record { data_size = 16; pointer_count = 5 }

module _ (C : Capnp) where
  abbrev pub set_id : String → C.Message → Result C.Message
  set_id v m = C.set_text root 0 v m

  abbrev pub id : C.Message → Result String
  id m = C.read_text m root 0

  abbrev pub set_timeout_sec : ℕ → C.Message → C.Message
  set_timeout_sec v m = C.set_scalar root 0 64 v m

  abbrev pub timeout_sec : C.Message → ℕ
  timeout_sec m = C.scalar m root 0 64

  abbrev pub command : C.Message → Result Content
  command m = C.read_list m root 1

  abbrev pub set_terminal : Bool → C.Message → C.Message
  set_terminal v m = C.set_scalar root 64 1 (bit v) m

  abbrev pub terminal : C.Message → Bool
  terminal m = C.scalar m root 64 1 == 1

  abbrev pub env_vars : C.Message → Result Content
  env_vars m = C.read_list m root 4

  abbrev pub set_cgroup_manager : ℕ → C.Message → C.Message
  set_cgroup_manager v m = C.set_scalar root 80 16 v m

  abbrev pub cgroup_manager : C.Message → ℕ
  cgroup_manager m = C.scalar m root 80 16
