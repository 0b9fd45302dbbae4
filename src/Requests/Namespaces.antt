-- ===== src/Requests/Namespaces.antt =====
-- The request and the response of `CreateNamespaces` (pkg/client/client.go).
pub mod Translation
pub mod Guard
use conmon_rs.Base.{
  ℕ, ◌+◌, ◌==◌, String, str_eq, Bool, true, false, Option, none, some, List, [], ◌∷◌, length,
  if◌then◌else◌,
}
use conmon_rs.Base.Results.{Result, ok, err, wrapped, missing_id_mappings}
use conmon_rs.Base.Chain.{◌>>=◌}
use conmon_rs.Consts.Namespace
use conmon_rs.Consts.ProtoNamespace
use conmon_rs.Proto.CreateNamespacesRequest
use conmon_rs.Wire.{Capnp, root, word_list}
use conmon_rs.Wire.Lists.{int32, string_slice_to_text_list}
use conmon_rs.Requests.Config.{IdMap, IdMappings, CreateNamespacesConfig}
use conmon_rs.Requests.Mappings.{mappings_to_slice}
use conmon_rs.Requests.Metadata.{Injected, set_metadata}

-- The `switch` of the request: the value that is set; `none` where no case fits, so that nothing
-- is set.
unfoldable pub proto_namespace : ℕ → Option ℕ
proto_namespace n =
    if n == Namespace.ipc
    then some ProtoNamespace.ipc
    else if n == Namespace.net
    then some ProtoNamespace.net
    else if n == Namespace.pid
    then some ProtoNamespace.pid
    else if n == Namespace.user
    then some ProtoNamespace.user
    else if n == Namespace.uts
    then some ProtoNamespace.uts
    else none

-- The `switch` of the response; a type that fits no case leaves `typ` at its zero value.
unfoldable pub client_namespace : ℕ → ℕ
client_namespace n =
    if n == ProtoNamespace.ipc
    then Namespace.ipc
    else if n == ProtoNamespace.net
    then Namespace.net
    else if n == ProtoNamespace.pid
    then Namespace.pid
    else if n == ProtoNamespace.user
    then Namespace.user
    else if n == ProtoNamespace.uts
    then Namespace.uts
    else 0

-- The mappings, or `ErrMissingIDMappings`: a nil pointer, or one of the two lists empty.
unfoldable pub usable_mappings : Option IdMappings → Result IdMappings
usable_mappings none = err missing_id_mappings
usable_mappings (some mappings) =
    if length mappings.uids == 0
    then err missing_id_mappings
    else if length mappings.gids == 0
    then err missing_id_mappings
    else ok mappings

unfoldable pub base_path_of : CreateNamespacesConfig → String
base_path_of cfg = if str_eq cfg.base_path "" then "/var/run" else cfg.base_path

module _ (C : Capnp) where
  unfoldable pub set_namespace : ℕ → ℕ → C.Message → C.Message
  set_namespace i n m = elim (proto_namespace n) [
    | none ↦ m
    | some v ↦ C.set_word_elem CreateNamespacesRequest.new_namespaces i v m
  ]

  -- The case of the user namespace goes on with the mappings.
  unfoldable pub set_user_namespace : Option IdMappings → ℕ → C.Message → Result C.Message
  set_user_namespace id_mappings i m = do
    mappings ← usable_mappings id_mappings
    m1 ← wrapped "convert user ID mappings to text list" (
        string_slice_to_text_list C CreateNamespacesRequest.new_uid_mappings
          (mappings_to_slice mappings.uids) (set_namespace i Namespace.user m))
    wrapped "convert group ID mappings to text list" (
        string_slice_to_text_list C CreateNamespacesRequest.new_gid_mappings
          (mappings_to_slice mappings.gids) m1)

  unfoldable pub set_one : Option IdMappings → ℕ → ℕ → C.Message → Result C.Message
  set_one id_mappings i n m =
      if n == Namespace.user then set_user_namespace id_mappings i m else ok (set_namespace i n m)

  unfoldable pub set_namespaces : Option IdMappings → ℕ → List ℕ → C.Message → Result C.Message
  set_namespaces id_mappings i [] m = ok m
  set_namespaces id_mappings i (n ∷ ns) m = do
    m' ← set_one id_mappings i n m
    set_namespaces id_mappings (i + 1) ns m'

module _ (C : Capnp) (tracing : Bool) (injected : Injected) where
  unfoldable pub fill_namespaces_list : CreateNamespacesConfig → C.Message → Result C.Message
  fill_namespaces_list cfg req = do
    m1 ← set_metadata C tracing CreateNamespacesRequest.metadata_slots injected req
    m2 ← wrapped "init namespaces" (
        C.new_list word_list CreateNamespacesRequest.new_namespaces (int32 (length cfg.namespaces))
          m1)
    set_namespaces C cfg.id_mappings 0 cfg.namespaces m2

  unfoldable pub fill_namespaces_paths :
      CreateNamespacesConfig → C.Message → Result C.Message × CreateNamespacesConfig
  fill_namespaces_paths cfg m =
      let base_path = base_path_of cfg in
      let filled = do
        m1 ← wrapped "set base path" (CreateNamespacesRequest.set_base_path C base_path m)
        wrapped "set base path" (CreateNamespacesRequest.set_pod_id C cfg.pod_id m1)
      in (filled, record cfg { base_path = base_path })

  -- The closure. It writes the default into the caller's configuration, which is therefore a part
  -- of the result.
  unfoldable pub fill_create_namespaces :
      CreateNamespacesConfig → C.Message → Result C.Message × CreateNamespacesConfig
  fill_create_namespaces cfg req =
      elim (fill_namespaces_list cfg req >>= λ m.
      wrapped "set namespaces" (CreateNamespacesRequest.set_namespaces C m)) [
        | ok m ↦ fill_namespaces_paths cfg m
        | err e ↦ (err e, cfg)
      ]
