-- ===== src/Proto/CreateNamespacesResponse.antt =====
-- The accessors of `Conmon_CreateNamespacesResponse` that the client and its server use
-- (internal/proto/conmon.capnp.go).
use conmon_rs.Base.{ℕ}
use conmon_rs.Base.Results.{Result}
use conmon_rs.Wire.{Capnp, root, Content, struct_list}

module _ (C : Capnp) where
  abbrev pub namespaces : C.Message → Result Content
  namespaces m = C.read_list m root 0

  abbrev pub new_namespaces : ℕ → C.Message → Result C.Message
  new_namespaces n m = C.new_list struct_list 0 n m
