-- ===== src/Rpc.antt =====
-- The remote calls of the client (pkg/client/client.go, attach.go, remote_fds.go): connect, send
-- the request, wait, and read the response. What the capnp runtime, the server and the semver
-- module do is the parameter `Host`.
pub mod Methods
pub mod Dispatch
pub mod Versions
pub mod Attach
pub mod Connections
pub mod Balance
pub mod Delivery
use conmon_rs.Base.{ℕ, String, Bool, Option, List}
use conmon_rs.Base.Results.{Error, Result, ok, err, wrap, wrapped, Exec, continue}
use conmon_rs.Base.Chain.{◌>>=◌}
use conmon_rs.Client.{ConmonClient}
use conmon_rs.Dial.{Sockets, dial_long_socket}
use conmon_rs.Wire.{Capnp}

pub data Method : Type 0 where
  version create_container exec_sync_container attach_container reopen_log_container : Method
  set_window_size_container create_namespaces start_fd_socket : Method

-- `call` sends what the closure made of a new request,
-- or fails with the closure's error, and waits for the results, `response` reads them out.
pub record Host (C : Capnp) : Type 1 where
  pub World : Type 0
  pub Conn : Type 0
  pub Results : Type 0
  pub SemVer : Type 0
  pub sockets : Sockets World Conn
  pub close : Conn → World → World
  pub new_request : Method → Result C.Message
  pub call : Conn → Method → Result C.Message → Exec World Results
  pub response : Results → Result C.Message
  pub join_path : String → String → String
  pub parse_semver : String → Result SemVer
  pub semver : ℕ → ℕ → ℕ → SemVer
  pub semver_lt : SemVer → SemVer → Bool

-- The text of the error for a response that cannot be read.
abbrev pub response_text : Method → String
response_text start_fd_socket = "get response"
response_text _ = "set response"

module _ (C : Capnp) (H : Host C) where
  pub record Process : Type 0 where
    pub client : ConmonClient H.SemVer
    pub world : H.World

  -- `p.NewRequest()` and then the rest of the closure.
  unfoldable pub place : Method → (C.Message → Result C.Message) → Result C.Message
  place method fill = wrapped "create request" (H.new_request method) >>= fill

  abbrev pub lift_world : {A : Type 0} → Exec H.World A → Exec Process A
  lift_world m p = let (r, w) = m p.world in (r, record p { world = w })

  abbrev pub read_response : Method → Result H.Results → Result C.Message
  read_response method (ok results) = wrapped (response_text method) (H.response results)
  read_response method (err e) = err (wrap "create result" e)

  -- What follows on an open connection, which is closed whatever happens.
  unfoldable pub on_connection :
      {A : Type 0}
      → Method
      → Result C.Message
      → (C.Message → Exec Process A)
      → H.Conn
      → Exec Process A
  on_connection method request finish conn p =
      let (results, w) = H.call conn method request p.world in
      let (r, p') = continue (read_response method results) finish (record p { world = w }) in
      (r, record p' { world = H.close conn p'.world })

  abbrev pub socket : ConmonClient H.SemVer → String
  socket c = H.join_path c.run_dir "conmon.sock"

  -- The socket of `newRPCConn`.
  unfoldable pub dial : String → Exec H.World H.Conn
  dial path = dial_long_socket H.sockets "unix" path

  -- The shape that all methods share.
  unfoldable pub invoke :
      {A : Type 0}
      → Method
      → (C.Message → Result C.Message)
      → (C.Message → Exec Process A)
      → Exec Process A
  invoke method fill finish p =
      let (dialed, w) = dial (socket p.client) p.world in
      continue (wrapped "create RPC connection" (wrapped "dial long socket" dialed))
        (on_connection method (place method fill) finish) (record p { world = w })
