-- ===== src/Proto/SetWindowSizeRequest.antt =====
-- The accessors of `Conmon_SetWindowSizeRequest` that the client or a reader of its requests uses
-- (internal/proto/conmon.capnp.go).
use conmon_rs.Base.{ℕ, String, some}
use conmon_rs.Base.Results.{Result}
use conmon_rs.Wire.{Capnp, root}
use conmon_rs.Proto.{MetadataSlots, ObjectSize}

abbrev pub metadata_slots : MetadataSlots
metadata_slots = record { metadata = 2; old = some 1 }

abbrev pub object_size : ObjectSize
object_size = record { data_size = 8; pointer_count = 3 }

module _ (C : Capnp) where
  abbrev pub set_id : String → C.Message → Result C.Message
  set_id v m = C.set_text root 0 v m

  abbrev pub id : C.Message → Result String
  id m = C.read_text m root 0

  abbrev pub set_width : ℕ → C.Message → C.Message
  set_width v m = C.set_scalar root 0 16 v m

  abbrev pub width : C.Message → ℕ
  width m = C.scalar m root 0 16

  abbrev pub set_height : ℕ → C.Message → C.Message
  set_height v m = C.set_scalar root 16 16 v m

  abbrev pub height : C.Message → ℕ
  height m = C.scalar m root 16 16
