-- ===== src/Attach/Readers.antt =====
-- The readers of the attach sessions (pkg/client/attach.go: `attachReaders`,
-- `tryCloseAttachReaderForID`, `closeAttachReader`; pkg/client/client.go: the loop of `Shutdown`).
-- Closing a stream and removing a socket can fail, but the code only logs that; so a call here
-- gives the list of the effects that it has, in order.
pub mod Sockets
pub mod Order
use conmon_rs.Base.{
  ℕ, String, str_eq, Bool, true, false, ◌||◌, Option, none, some, List, [], ◌∷◌, ◌++◌,
  if◌then◌else◌,
}
use conmon_rs.Client.{AttachReader}

pub data Effect : Type 0 where
  close_stdin : ℕ → Effect
  remove_all : String → Effect

abbrev pub Readers : Type 0
Readers = List (String × AttachReader)

-- `sync.Map`: `Store` replaces the value of a key, `LoadAndDelete` returns it and takes it out.
unfoldable pub store : String → AttachReader → Readers → Readers
store id v [] = (id, v) ∷ []
store id v ((k, w) ∷ m) = if str_eq k id then (id, v) ∷ m else (k, w) ∷ store id v m

unfoldable pub load : String → Readers → Option AttachReader
load id [] = none
load id ((k, w) ∷ m) = if str_eq k id then some w else load id m

unfoldable pub delete : String → Readers → Readers
delete id [] = []
delete id ((k, w) ∷ m) = if str_eq k id then m else (k, w) ∷ delete id m

-- The `Range` that looks for another reader of the same socket.
unfoldable pub socket_path_in_use : String → Readers → Bool
socket_path_in_use path [] = false
socket_path_in_use path ((k, w) ∷ m) = str_eq w.socket_path path || socket_path_in_use path m

unfoldable pub close_attach_reader : AttachReader → Readers → List Effect
close_attach_reader v m =
    close_stdin v.stdin
    ∷ (if socket_path_in_use v.socket_path m then [] else remove_all v.socket_path ∷ [])

abbrev pub close_found : Option AttachReader → Readers → List Effect
close_found none m = []
close_found (some v) m = close_attach_reader v m

-- The new map and the effects. The entry is gone before the reader is closed.
unfoldable pub try_close_attach_reader_for_id : String → Readers → Readers × List Effect
try_close_attach_reader_for_id id m = let m' = delete id m in (m', close_found (load id m) m')

-- The loop of `Shutdown`: each reader is closed while the map still holds all of them.
unfoldable pub close_each : Readers → Readers → List Effect
close_each [] m = []
close_each ((k, v) ∷ rest) m = close_attach_reader v m ++ close_each rest m

unfoldable pub shutdown_readers : Readers → List Effect
shutdown_readers m = close_each m m
