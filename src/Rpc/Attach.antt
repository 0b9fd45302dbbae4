-- ===== src/Rpc/Attach.antt =====
-- `AttachContainer` as a whole (pkg/client/attach.go): the call, and then the session on the
-- container's own socket while the connection of the call is still open. `perform` does to the
-- world what the session's calls on streams and sockets do.
pub mod Effects
use conmon_rs.Base.{String, Option, none, some, List, if◌then◌else◌}
use conmon_rs.Base.Results.{Error, Result, ok, err, Exec}
use conmon_rs.Wire.{Capnp}
use conmon_rs.Dial.{dial_long_socket}
use conmon_rs.Attach.Config.{AttachConfig}
use conmon_rs.Attach.Readers.{Effect}
use conmon_rs.Attach.Session.{Surroundings, wrap_error, attach}
use conmon_rs.Requests.Metadata.{Injected}
use conmon_rs.Requests.Fill.{fill_attach}
use conmon_rs.Rpc.{Host, Process, invoke, attach_container}

abbrev pub error_of : {A : Type 0} → Result A → Option Error
error_of (ok a) = none
error_of (err e) = some e

abbrev pub result_of : Option Error → Result (Unit {0})
result_of none = ok tt
result_of (some e) = err e

module _ (C : Capnp) (H : Host C) (perform : List Effect → H.World → H.World) where
  -- `attach` with what its dial came to.
  unfoldable pub run_session :
      AttachConfig → Surroundings → Option Error → Exec (Process C H) (Unit {0})
  run_session cfg env dialed p =
      let ended = attach cfg (record env { dial = dialed }) p.client.attach_readers in
      (
        result_of (wrap_error "run attach" ended.result),
        record {
          client = record p.client { attach_readers = ended.readers };
          world = perform ended.effects p.world;
        },
      )

  -- The deferred `conn.Close()` of a socket that was dialed.
  abbrev pub close_dialed : Result H.Conn → Process C H → Process C H
  close_dialed (ok conn) p = record p { world = H.close conn p.world }
  close_dialed (err e) p = p

  unfoldable pub run_dialed : AttachConfig → Surroundings → Exec (Process C H) (Unit {0})
  run_dialed cfg env p =
      let (dialed, w) = dial_long_socket H.sockets "unixpacket" cfg.socket_path p.world in
      let (r, p') = run_session cfg env (error_of dialed) (record p { world = w }) in
      (r, close_dialed dialed p')

  unfoldable pub run_attach : AttachConfig → Surroundings → Exec (Process C H) (Unit {0})
  run_attach cfg env p =
      if cfg.passthrough then run_session cfg env none p else run_dialed cfg env p

  unfoldable pub call_attach_container :
      Injected → AttachConfig → Surroundings → Exec (Process C H) (Unit {0})
  call_attach_container injected cfg env p =
      invoke C H attach_container
        (fill_attach C p.client.tracing_enabled p.client.cgroup_manager injected cfg)
        (λ m. run_attach cfg env) p
