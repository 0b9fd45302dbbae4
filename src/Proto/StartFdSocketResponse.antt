-- ===== src/Proto/StartFdSocketResponse.antt =====
-- The accessors of `Conmon_StartFdSocketResponse` that the client and its server use
-- (internal/proto/conmon.capnp.go).
use conmon_rs.Base.{String}
use conmon_rs.Base.Results.{Result}
use conmon_rs.Wire.{Capnp, root}

module _ (C : Capnp) where
  abbrev pub path : C.Message → Result String
  path m = C.read_text m root 0

  abbrev pub set_path : String → C.Message → Result C.Message
  set_path v m = C.set_text root 0 v m
