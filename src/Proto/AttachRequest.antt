-- ===== src/Proto/AttachRequest.antt =====
-- The accessors of `Conmon_AttachRequest` that the client or a reader of its requests uses
-- (internal/proto/conmon.capnp.go).
use conmon_rs.Base.{String, Bool, some, ◌==◌}
use conmon_rs.Base.Results.{Result}
use conmon_rs.Wire.{Capnp, root, bit}
use conmon_rs.Proto.{MetadataSlots, ObjectSize}

abbrev pub metadata_slots : MetadataSlots
metadata_slots = record { metadata = 4; old = some 3 }

abbrev pub object_size : ObjectSize
object_size = record { data_size = 8; pointer_count = 5 }

module _ (C : Capnp) where
  abbrev pub set_id : String → C.Message → Result C.Message
  set_id v m = C.set_text root 0 v m

  abbrev pub id : C.Message → Result String
  id m = C.read_text m root 0

  abbrev pub set_socket_path : String → C.Message → Result C.Message
  set_socket_path v m = C.set_text root 1 v m

  abbrev pub socket_path : C.Message → Result String
  socket_path m = C.read_text m root 1

  abbrev pub set_stop_after_stdin_eof : Bool → C.Message → C.Message
  set_stop_after_stdin_eof v m = C.set_scalar root 0 1 (bit v) m

  abbrev pub stop_after_stdin_eof : C.Message → Bool
  stop_after_stdin_eof m = C.scalar m root 0 1 == 1
