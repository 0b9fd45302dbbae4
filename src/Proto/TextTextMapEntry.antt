-- ===== src/Proto/TextTextMapEntry.antt =====
-- The accessors of `Conmon_TextTextMapEntry` that the client or a reader of its requests uses
-- (internal/proto/conmon.capnp.go).
use conmon_rs.Base.{String}
use conmon_rs.Base.Results.{Result}
use conmon_rs.Proto.{ObjectSize}
use conmon_rs.Wire.{Capnp, Place}

abbrev pub object_size : ObjectSize
object_size = record { data_size = 0; pointer_count = 2 }

module _ (C : Capnp) where
  abbrev pub set_key : Place → String → C.Message → Result C.Message
  set_key p v m = C.set_text p 0 v m

  abbrev pub key : Place → C.Message → Result String
  key p m = C.read_text m p 0

  abbrev pub set_value : Place → String → C.Message → Result C.Message
  set_value p v m = C.set_text p 1 v m

  abbrev pub value : Place → C.Message → Result String
  value p m = C.read_text m p 1
