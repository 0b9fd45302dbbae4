-- ===== src/Proto/VersionRequest.antt =====
-- The accessors of `Conmon_VersionRequest` that the client or a reader of its requests uses
-- (internal/proto/conmon.capnp.go).
use conmon_rs.Base.{ℕ, Bool, List, some, ◌==◌}
use conmon_rs.Base.Results.{Result}
use conmon_rs.Wire.{Capnp, root, Content, bit}
use conmon_rs.Proto.{MetadataSlots, ObjectSize}

abbrev pub metadata_slots : MetadataSlots
metadata_slots = record { metadata = 1; old = some 0 }

abbrev pub object_size : ObjectSize
object_size = record { data_size = 8; pointer_count = 2 }

module _ (C : Capnp) where
  abbrev pub set_verbose : Bool → C.Message → C.Message
  set_verbose v m = C.set_scalar root 0 1 (bit v) m

  abbrev pub verbose : C.Message → Bool
  verbose m = C.scalar m root 0 1 == 1

  abbrev pub metadata : C.Message → Result Content
  metadata m = C.read_list m root 1

  abbrev pub metadata_old : C.Message → Result (List ℕ)
  metadata_old m = C.read_data m root 0
