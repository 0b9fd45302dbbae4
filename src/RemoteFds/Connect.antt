-- ===== src/RemoteFds/Connect.antt =====
-- How a connection for descriptors comes about (pkg/client/remote_fds.go: `NewRemoteFDs`,
-- `ConmonClient.RemoteFDs`). `state` gives the packet socket behind a new connection.
use conmon_rs.Base.{String}
use conmon_rs.Base.Results.{wrapped, Exec, context, lift, pure, ◌>>=◌}
use conmon_rs.Proto.StartFdSocketResponse
use conmon_rs.Wire.{Capnp}
use conmon_rs.Dial.{dial_long_socket}
use conmon_rs.Requests.Metadata.{Injected}
use conmon_rs.Requests.Fill.{fill_start_fd_socket}
use conmon_rs.Rpc.{Host, Process, invoke, lift_world, start_fd_socket}
use conmon_rs.RemoteFds.{FdConn, RemoteFds}

module _ (C : Capnp) (H : Host C) (D : FdConn) (state : H.Conn → D.State) where
  -- A fresh connection has sent no request.
  unfoldable pub new_remote_fds : String → Exec H.World (RemoteFds D)
  new_remote_fds path = do
    conn ← context "dial long socket" (dial_long_socket H.sockets "unixpacket" path)
    pure (record { conn = state conn; req_id = 0 })

  -- Behind the response, while the connection of the call is still open.
  unfoldable pub connect_fds : C.Message → Exec (Process C H) (RemoteFds D)
  connect_fds m = do
    path ← lift (wrapped "get path" (StartFdSocketResponse.path C m))
    context "connect to remote fd socket" (lift_world C H (new_remote_fds path))

  unfoldable pub remote_fds : Injected → Exec (Process C H) (RemoteFds D)
  remote_fds injected p =
      invoke C H start_fd_socket
        (fill_start_fd_socket C p.client.tracing_enabled p.client.cgroup_manager injected)
        connect_fds p
