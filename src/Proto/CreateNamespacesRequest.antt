-- ===== src/Proto/CreateNamespacesRequest.antt =====
-- The accessors of `Conmon_CreateNamespacesRequest` that the client or a reader of its requests uses
-- (internal/proto/conmon.capnp.go).
use conmon_rs.Base.{ℕ, String, some}
use conmon_rs.Base.Results.{Result}
use conmon_rs.Wire.{Capnp, root, Content}
use conmon_rs.Proto.{MetadataSlots}

abbrev pub metadata_slots : MetadataSlots
metadata_slots = record { metadata = 6; old = some 0 }

-- A constructor of a list stands for the slot that it puts the list in.
abbrev pub new_namespaces : ℕ
new_namespaces = 1

abbrev pub new_uid_mappings : ℕ
new_uid_mappings = 2

abbrev pub new_gid_mappings : ℕ
new_gid_mappings = 3

module _ (C : Capnp) where
  abbrev pub namespaces : C.Message → Result Content
  namespaces m = C.read_list m root 1

  abbrev pub set_namespaces : C.Message → Result C.Message
  set_namespaces m = C.set_list 1 m

  abbrev pub uid_mappings : C.Message → Result Content
  uid_mappings m = C.read_list m root 2

  abbrev pub gid_mappings : C.Message → Result Content
  gid_mappings m = C.read_list m root 3

  abbrev pub set_base_path : String → C.Message → Result C.Message
  set_base_path v m = C.set_text root 4 v m

  abbrev pub base_path : C.Message → Result String
  base_path m = C.read_text m root 4

  abbrev pub set_pod_id : String → C.Message → Result C.Message
  set_pod_id v m = C.set_text root 5 v m

  abbrev pub pod_id : C.Message → Result String
  pod_id m = C.read_text m root 5
