-- ===== src/Lib.antt =====
-- The Go client of conmon-rs, a container monitor. A client starts a server process for one run
-- directory, or takes over one that is running, and drives it over Cap'n Proto calls on a socket.
-- It attaches to the streams of containers over packet sockets, and hands file descriptors over to
-- the server on a socket of their own.
--
-- The parts, and the files that model them:
-- - Base: what all parts share. Base/Results has the package's errors with `errors.Is`, results,
--   and code that changes a state and may fail; Base/Chain is `do` for results alone; Base/Decimal
--   prints numbers.
-- - Consts: the constants of pkg/client/consts.go and the enumerations of
--   internal/proto/conmon.capnp.go, a module for each type.
-- - Client: `ConmonClient` of pkg/client/client.go, without its logger and its tracer.
-- - Config: `ConmonServerConfig`, `FromLogrusLevel`, the validation and `toArgs` of
--   pkg/client/client.go. Config/Reader has a reader of the arguments, the abstract view of
--   what the server is told.
-- - Server: `New`, `toClient`, `startServer`, `pidGivenFile`, `waitUntilServerUp` and `Shutdown` of
--   pkg/client/client.go. The operating system is the parameter `System`.
--   Server/Budget has what `New` and `Shutdown` spend.
-- - Dial: `DialLongSocket` of pkg/client/client.go, over the parameter `Sockets` for files, sockets
--   and path/filepath.
-- - Rpc: `newRPCConn`, the shape that all methods share, and the methods themselves
--   (pkg/client/client.go, pkg/client/attach.go). The capnp runtime with the server behind it,
--   joined paths and the semver module are the parameter `Host`. Rpc/Delivery relates a call that
--   succeeds to the message that the server took and to its response; Rpc/Dispatch has the tags of
--   the methods in internal/proto/conmon.capnp.go.
-- - Requests: the configurations of the calls, and the closures that fill the requests. A map is the
--   list of its entries in the order of one iteration. Requests/Received has what the accessors of
--   a filled request return.
-- - Proto: the accessors in internal/proto/conmon.capnp.go that the calls use, with their slots and
--   offsets, a module for each structure, and the sizes that the requests are allocated with. The
--   setters of Wire/Bounds check these sizes.
-- - Wire: Cap'n Proto messages, as the parameter `Capnp` with the laws `IsLawful`, and the list
--   conversions of pkg/client/capnp_util.go.
-- - Attach: pkg/client/attach.go. Attach/Output is `redirectResponseToOutputStreams` with
--   `handlePacket`, over the parameter `Output` for the caller's writers; Attach/Readers is the map
--   of sessions with `closeAttachReader`; Attach/Session is `attach` with `readStdio`.
--   Attach/Channels is a session as the steps of its goroutines, with the channels between them;
--   Attach/Closing is the steps of sessions that end at the same time, and Attach/Beginning those of
--   a session that begins meanwhile, up to its dial: the server is taken to run throughout. Rpc/Attach is `AttachContainer` as a whole.
-- - RemoteFds: pkg/client/remote_fds.go, over the parameter `FdConn` for the packet socket.
--   RemoteFds/Connect opens it.
-- - FdSocket: the other end itself, the slots and `serve` of conmon-rs/server/src/fd_socket.rs.
--   FdSocket/Link joins it to the client's `Send`, over a parameter for the descriptors that the
--   kernel passes; FdSocket/Sequence is several calls of it in a row, against an abstract hand-over,
--   and FdSocket/Owners is all connections of the socket together.
-- - AttachServer: `read_loop` and `write_loop` of conmon-rs/server/src/attach.rs, over parameters
--   for the socket and the channel to the container. AttachServer/Delivered joins `write_loop` to
--   the redirection in Attach/Output.
-- - RpcServer: what the handlers of conmon-rs/server/src/rpc.rs write into their responses, with
--   `Version::new` of version.rs and `to_capnp_namespace` of pause.rs beside it; RpcServer/Call
--   joins the client's `Version` to it, and RpcServer/Descriptors joins `Send`, the request of
--   `CreateContainer` and the slots that `create_container` takes.
-- - Tests: the parameters with concrete operations, and runs.
--
-- `Rpc` and `RemoteFds` use `Dial` for their sockets. `Server` uses `Config` for the command line,
-- `Rpc` to ask for the version, and `Attach.Readers` to close the sessions. `Rpc` uses `Requests`,
-- which uses `Proto` and `Wire`; Rpc/Attach runs a session of `Attach` inside its call.
--
-- Numbers are natural numbers; an id of a request wraps at 2 ^ 32, a header at 2 ^ 64, and a length
-- goes through `int32` as its bit pattern modulo 2 ^ 32. The code's own bounds are the only fuel of
-- the polling loops: 100 polls in `Shutdown` and 100 attempts in `waitUntilServerUp`. The loop over
-- an attach connection runs over the list of what its reads deliver, and waits where the list ends.
-- The server's search for a vacant slot has one round more than there are descriptors as its fuel,
-- which is enough below 2 ^ 64 of them. Printing a number has one more digit than the number as its fuel, which it cannot use up.
--
-- Not modelled: logging and tracing spans, since no result depends on them; contexts and timeouts;
-- the copying of stdin and the resizing of terminals by other modules, whose outcomes are arguments;
-- the generated code beyond its enumerations, the tags of its
-- methods and the accessors in Proto; the server, which is written in Rust, beyond its fd socket, the
-- loops of an attach connection and its answers; what it found out before an answer is an argument.
pub mod Base
pub mod Consts
pub mod Client
pub mod Config
pub mod Dial
pub mod Attach
pub mod Wire
pub mod Proto
pub mod Requests
pub mod Rpc
pub mod Server
pub mod RemoteFds
pub mod FdSocket
pub mod AttachServer
pub mod RpcServer
pub mod Tests
