-- ===== src/Proto/NamespaceResponse.antt =====
-- The accessors of `Conmon_NamespaceResponse` that the client and its server use
-- (internal/proto/conmon.capnp.go).
use conmon_rs.Base.{ℕ, String}
use conmon_rs.Base.Results.{Result}
use conmon_rs.Wire.{Capnp, Place}

module _ (C : Capnp) where
  abbrev pub type : Place → C.Message → ℕ
  type p m = C.scalar m p 0 16

  abbrev pub path : Place → C.Message → Result String
  path p m = C.read_text m p 0

  abbrev pub set_type : Place → ℕ → C.Message → C.Message
  set_type p v m = C.set_scalar p 0 16 v m

  abbrev pub set_path : Place → String → C.Message → Result C.Message
  set_path p v m = C.set_text p 0 v m
