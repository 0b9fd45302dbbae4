-- ===== src/Dial.antt =====
-- `DialLongSocket` (pkg/client/client.go): a socket is reached through an open descriptor of its
-- directory, so that the name that is dialed stays short. Files, sockets and the functions of
-- path/filepath are the parameter `Sockets`.
pub mod Descriptors
pub mod Names
use conmon_rs.Base.{ℕ, String, List, [], ◌∷◌}
use conmon_rs.Base.Decimal.{decimal}
use conmon_rs.Base.Results.{wrapped, Exec, context, ◌>>=◌}

-- `os.Open`, `Fd` and `Close` of a file; `net.DialUnix` with a network and a name; `filepath.Dir`,
-- `filepath.Base` and `filepath.Join`. The error of the deferred `Close` is dropped.
pub record Sockets (World Conn : Type 0) : Type 1 where
  pub File : Type 0
  pub open_file : String → Exec World File
  pub fd : File → ℕ
  pub close_file : File → World → World
  pub dial_unix : String → String → Exec World Conn
  pub dir : String → String
  pub base : String → String
  pub join : List String → String

abbrev pub proc_self_fd_path : String
proc_self_fd_path = "/proc/self/fd"

module _ {World Conn : Type 0} (O : Sockets World Conn) where
  abbrev pub socket_path : String → O.File → String
  socket_path path f = O.join (proc_self_fd_path ∷ decimal (O.fd f) ∷ O.base path ∷ [])

  -- What follows on the open directory, which is closed whatever happens.
  unfoldable pub dial_below : String → String → O.File → Exec World Conn
  dial_below network path f w =
      let (conn, w') = O.dial_unix network (socket_path path f) w in
      (wrapped "dial unix socket" conn, O.close_file f w')

  unfoldable pub dial_long_socket : String → String → Exec World Conn
  dial_long_socket network path =
      context "open socket parent" (O.open_file (O.dir path)) >>= dial_below network path
