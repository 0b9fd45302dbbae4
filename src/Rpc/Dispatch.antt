-- ===== src/Rpc/Dispatch.antt =====
-- The methods of the interface `Conmon` (internal/proto/conmon.capnp.go): how a client names them,
-- and the table that `Conmon_NewServer` hands to a server.
use conmon_rs.Base.{
  ℕ, ◌==◌, ◌≡◌, refl, String, ◌&&◌, Option, none, some, List, [], ◌∷◌, if◌then◌else◌,
}
use conmon_rs.Rpc.{
  Method, version, create_container, exec_sync_container, attach_container, reopen_log_container,
  set_window_size_container, create_namespaces, start_fd_socket,
}

-- `capnp.Method`
pub record MethodTag : Type 0 where
  pub interface_id : ℕ
  pub method_id : ℕ
  pub interface_name : String
  pub method_name : String

abbrev pub conmon_type_id : ℕ
conmon_type_id = 0xb737e899dd6633f1

abbrev pub conmon_tag : ℕ → String → MethodTag
conmon_tag n name = record {
  interface_id = conmon_type_id;
  method_id = n;
  interface_name = "internal/proto/conmon.capnp:Conmon";
  method_name = name;
}

-- The tag that the stub of a method sends.
unfoldable pub sent_tag : Method → MethodTag
sent_tag version = conmon_tag 0 "version"
sent_tag create_container = conmon_tag 1 "createContainer"
sent_tag exec_sync_container = conmon_tag 2 "execSyncContainer"
sent_tag attach_container = conmon_tag 3 "attachContainer"
sent_tag reopen_log_container = conmon_tag 4 "reopenLogContainer"
sent_tag set_window_size_container = conmon_tag 5 "setWindowSizeContainer"
sent_tag create_namespaces = conmon_tag 6 "createNamespaces"
sent_tag start_fd_socket = conmon_tag 7 "startFdSocket"

-- `Conmon_Methods`: the tags with the methods of the server that they invoke.
unfoldable pub conmon_methods : List (MethodTag × Method)
conmon_methods =
    (conmon_tag 0 "version", version)
    ∷ (conmon_tag 1 "createContainer", create_container)
    ∷ (conmon_tag 2 "execSyncContainer", exec_sync_container)
    ∷ (conmon_tag 3 "attachContainer", attach_container)
    ∷ (conmon_tag 4 "reopenLogContainer", reopen_log_container)
    ∷ (conmon_tag 5 "setWindowSizeContainer", set_window_size_container)
    ∷ (conmon_tag 6 "createNamespaces", create_namespaces)
    ∷ (conmon_tag 7 "startFdSocket", start_fd_socket)
    ∷ []

-- The method of the first entry with the ids of a tag.
unfoldable pub find_method : MethodTag → List (MethodTag × Method) → Option Method
find_method tag [] = none
find_method tag ((other, method) ∷ rest) =
    if tag.interface_id == other.interface_id && tag.method_id == other.method_id
    then some method
    else find_method tag rest

-- The first entry of the table with the ids that the stub of a method sends is the one of the same
-- method.
pub find_method-sent_tag : (m : Method) → find_method (sent_tag m) conmon_methods ≡ some m
unfolding find_method sent_tag conmon_methods
find_method-sent_tag version = refl
find_method-sent_tag create_container = refl
find_method-sent_tag exec_sync_container = refl
find_method-sent_tag attach_container = refl
find_method-sent_tag reopen_log_container = refl
find_method-sent_tag set_window_size_container = refl
find_method-sent_tag create_namespaces = refl
find_method-sent_tag start_fd_socket = refl
