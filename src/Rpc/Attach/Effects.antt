-- ===== src/Rpc/Attach/Effects.antt =====
-- What `AttachContainer` does to the descriptors of the process and to the sessions of the client
-- (pkg/client/attach.go).
use conmon_rs.Base.{ℕ, ◌≡◌, ◌≢◌, refl, arith, String, Option, none, List, inl, inr}
use conmon_rs.Base.Results.{Error, Result, ok, err, Result-cases, continue}
use conmon_rs.Wire.{Capnp}
use conmon_rs.Dial.{dial_long_socket}
use conmon_rs.Dial.Descriptors.{opened-dial_long_socket}
use conmon_rs.Attach.Config.{AttachConfig}
use conmon_rs.Attach.Readers.{Effect, load}
use conmon_rs.Attach.Session.{Surroundings}
use conmon_rs.Attach.Session.Cleanup.{load-attach_ne}
use conmon_rs.Requests.Metadata.{Injected}
use conmon_rs.Rpc.{Host, Process, on_connection, socket, dial, invoke}
use conmon_rs.Rpc.Connections.{Counts}
use conmon_rs.Rpc.Attach.{error_of, run_session, run_dialed, run_attach, call_attach_container}

module _ (C : Capnp) (H : Host C) (perform : List Effect → H.World → H.World) (opened : H.World → ℕ)
    (K : Counts C H opened)
    (performed : (es : List Effect) (w : H.World) → opened (perform es w) ≡ opened w) where
  opened-run_session :
      (cfg : AttachConfig) (env : Surroundings) (dialed : Option Error) (p : Process C H)
      → opened (run_session C H perform cfg env dialed p).1.world ≡ opened p.world
  unfolding run_session
  opened-run_session cfg env dialed p = performed _ p.world

  opened-run_dialed :
      (cfg : AttachConfig) (env : Surroundings) (p : Process C H)
      → opened (run_dialed C H perform cfg env p).1.world ≡ opened p.world
  unfolding run_dialed run_session
  opened-run_dialed cfg env p =
      let (dialed, w) = dial_long_socket H.sockets "unixpacket" cfg.socket_path p.world in
      let dials =
        opened-dial_long_socket H.sockets opened "unixpacket" cfg.socket_path p.world K.sockets in
      let session = opened-run_session cfg env (error_of dialed) (record p { world = w }) in
      let p' = (run_session C H perform cfg env (error_of dialed) (record p { world = w })).1 in
      elim (Result-cases (dial_long_socket H.sockets "unixpacket" cfg.socket_path p.world).0) [
        | inl (conn, e) ↦ rw e (omega (arith, rw e at dials, K.closed conn p'.world, session))
        | inr (x, e) ↦ rw e (omega (arith, rw e at dials, session))
      ]

  -- Where closing a stream and removing a socket leave the descriptors alone, a session leaves as
  -- many open as there were.
  pub opened-run_attach :
      (cfg : AttachConfig) (env : Surroundings) (p : Process C H)
      → opened (run_attach C H perform cfg env p).1.world ≡ opened p.world
  unfolding run_attach
  opened-run_attach cfg env p =
      ground (arith, opened-run_session cfg env none p, opened-run_dialed cfg env p)

module _ (C : Capnp) (H : Host C) (perform : List Effect → H.World → H.World) (cfg : AttachConfig)
    (env : Surroundings) (j : String) (other : j ≢ env.id) where
  load-run_session :
      (dialed : Option Error) (p : Process C H)
      → load env.id p.client.attach_readers ≡ none
      → load j (run_session C H perform cfg env dialed p).1.client.attach_readers
        ≡ load j p.client.attach_readers
  unfolding run_session
  load-run_session dialed p fresh =
      load-attach_ne cfg (record env { dial = dialed }) p.client.attach_readers j fresh other

  load-run_dialed :
      (p : Process C H)
      → load env.id p.client.attach_readers ≡ none
      → load j (run_dialed C H perform cfg env p).1.client.attach_readers
        ≡ load j p.client.attach_readers
  unfolding run_dialed
  load-run_dialed p fresh =
      let (dialed, w) = dial_long_socket H.sockets "unixpacket" cfg.socket_path p.world in
      let same = load-run_session (error_of dialed) (record p { world = w }) fresh in
      elim (Result-cases (dial_long_socket H.sockets "unixpacket" cfg.socket_path p.world).0) [
        | inl (conn, e) ↦ rw e (rw e at same)
        | inr (x, e) ↦ rw e (rw e at same)
      ]

  load-run_attach :
      (p : Process C H)
      → load env.id p.client.attach_readers ≡ none
      → load j (run_attach C H perform cfg env p).1.client.attach_readers
        ≡ load j p.client.attach_readers
  unfolding run_attach
  load-run_attach p fresh = ground (arith, load-run_session none p fresh, load-run_dialed p fresh)

  load-read :
      (r : Result C.Message) (p : Process C H)
      → load env.id p.client.attach_readers ≡ none
      → load j (continue r (λ m. run_attach C H perform cfg env) p).1.client.attach_readers
        ≡ load j p.client.attach_readers
  load-read (ok m) p fresh = load-run_attach p fresh
  load-read (err e) p fresh = refl

  -- `AttachContainer` with a new id never touches the reader of another session, whatever comes of
  -- the call, of the dial and of the session.
  pub load-call_attach_container :
      (injected : Injected) (p : Process C H)
      → load env.id p.client.attach_readers ≡ none
      → load j (call_attach_container C H perform injected cfg env p).1.client.attach_readers
        ≡ load j p.client.attach_readers
  unfolding call_attach_container invoke on_connection
  load-call_attach_container injected p fresh =
      elim (Result-cases (dial C H (socket C H p.client) p.world).0) [
        | inl (conn, e) ↦ rw e (load-read _ _ fresh)
        | inr (x, e) ↦ rw e refl
      ]
