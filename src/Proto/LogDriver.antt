-- ===== src/Proto/LogDriver.antt =====
-- The accessors of `Conmon_LogDriver` that the client or a reader of its requests uses
-- (internal/proto/conmon.capnp.go).
use conmon_rs.Base.{ℕ, String}
use conmon_rs.Base.Results.{Result}
use conmon_rs.Proto.{ObjectSize}
use conmon_rs.Wire.{Capnp, Place}

abbrev pub object_size : ObjectSize
object_size = record { data_size = 16; pointer_count = 1 }

module _ (C : Capnp) where
  abbrev pub set_type : Place → ℕ → C.Message → C.Message
  set_type p v m = C.set_scalar p 0 16 v m

  abbrev pub type : Place → C.Message → ℕ
  type p m = C.scalar m p 0 16

  abbrev pub set_path : Place → String → C.Message → Result C.Message
  set_path p v m = C.set_text p 0 v m

  abbrev pub path : Place → C.Message → Result String
  path p m = C.read_text m p 0

  abbrev pub set_max_size : Place → ℕ → C.Message → C.Message
  set_max_size p v m = C.set_scalar p 64 64 v m

  abbrev pub max_size : Place → C.Message → ℕ
  max_size p m = C.scalar m p 64 64
