-- ===== src/Proto/StartFdSocketRequest.antt =====
-- The accessors of `Conmon_StartFdSocketRequest` that the client or a reader of its requests uses
-- (internal/proto/conmon.capnp.go).
use conmon_rs.Base.{none}
use conmon_rs.Proto.{MetadataSlots, ObjectSize}

abbrev pub metadata_slots : MetadataSlots
metadata_slots = record { metadata = 0; old = none }

abbrev pub object_size : ObjectSize
object_size = record { data_size = 0; pointer_count = 1 }
