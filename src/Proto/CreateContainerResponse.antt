-- ===== src/Proto/CreateContainerResponse.antt =====
-- The accessors of `Conmon_CreateContainerResponse` that the client and its server use
-- (internal/proto/conmon.capnp.go).
use conmon_rs.Base.{ℕ}
use conmon_rs.Wire.{Capnp, root}

module _ (C : Capnp) where
  abbrev pub container_pid : C.Message → ℕ
  container_pid m = C.scalar m root 0 32

  abbrev pub set_container_pid : ℕ → C.Message → C.Message
  set_container_pid v m = C.set_scalar root 0 32 v m
