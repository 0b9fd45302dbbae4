-- ===== src/Server/Budget/Calls.antt =====
-- A remote call spends nothing of what the operating system is charged for
-- (pkg/client/client.go: `Version`).
use conmon_rs.Base.{ℕ, ◌≡◌, refl, ap, ◌∙◌, String, inl, inr}
use conmon_rs.Base.Results.{Result, ok, err, Exec, continue, Result-cases}
use conmon_rs.Wire.{Capnp}
use conmon_rs.Dial.{socket_path, dial_below, dial_long_socket}
use conmon_rs.Requests.Metadata.{Injected}
use conmon_rs.Rpc.{Host, Process, Method, place, on_connection, read_response, socket, dial, invoke}
use conmon_rs.Rpc.Methods.{call_version, version_response}
use conmon_rs.Rpc.Balance.{world-version_response}

module _ (C : Capnp) (H : Host C) (spent : H.World → ℕ) where
  pub record IsFree : Type 0 where
    pub opens : (path : String) (w : H.World) → spent (H.sockets.open_file path w).1 ≡ spent w
    pub closes : (f : H.sockets.File) (w : H.World) → spent (H.sockets.close_file f w) ≡ spent w
    pub dials :
        (network name : String) (w : H.World)
        → spent (H.sockets.dial_unix network name w).1 ≡ spent w
    pub ends : (conn : H.Conn) (w : H.World) → spent (H.close conn w) ≡ spent w
    pub calls :
        (conn : H.Conn) (method : Method) (r : Result C.Message) (w : H.World)
        → spent (H.call conn method r w).1 ≡ spent w

  module _ (F : IsFree) where
    spent-dial : (path : String) (w : H.World) → spent (dial C H path w).1 ≡ spent w
    unfolding dial dial_long_socket dial_below
    spent-dial path w =
        let w' = (H.sockets.open_file (H.sockets.dir path) w).1 in
        elim (Result-cases (H.sockets.open_file (H.sockets.dir path) w).0) [
          | inr (x, e) ↦ rw e (F.opens (H.sockets.dir path) w)
          | inl (f, e) ↦ rw e (
              F.closes f _
              ∙ F.dials "unix" (socket_path H.sockets path f) w'
              ∙ F.opens (H.sockets.dir path) w)
        ]

    spent-finish :
        {A : Type 0} (r : Result C.Message) (finish : C.Message → Exec (Process C H) A)
        (p : Process C H)
        → ((m : C.Message) (q : Process C H) → (finish m q).1.world ≡ q.world)
        → spent (continue r finish p).1.world ≡ spent p.world
    spent-finish (ok m) finish p h = ap spent (h m p)
    spent-finish (err e) finish p h = refl

    spent-on_connection :
        {A : Type 0} (method : Method) (request : Result C.Message)
        (finish : C.Message → Exec (Process C H) A) (conn : H.Conn) (p : Process C H)
        → ((m : C.Message) (q : Process C H) → (finish m q).1.world ≡ q.world)
        → spent (on_connection C H method request finish conn p).1.world ≡ spent p.world
    unfolding on_connection
    spent-on_connection method request finish conn p h =
        let (results, w) = H.call conn method request p.world in
        F.ends conn _
        ∙ spent-finish (read_response C H method results) finish (record p { world = w }) h
        ∙ F.calls conn method request p.world

    spent-invoke :
        {A : Type 0} (method : Method) (fill : C.Message → Result C.Message)
        (finish : C.Message → Exec (Process C H) A) (p : Process C H)
        → ((m : C.Message) (q : Process C H) → (finish m q).1.world ≡ q.world)
        → spent (invoke C H method fill finish p).1.world ≡ spent p.world
    unfolding invoke
    spent-invoke method fill finish p h =
        let path = socket C H p.client in
        elim (Result-cases (dial C H path p.world).0) [
          | inl (conn, e) ↦
              rw (e, invoke)
                (spent-on_connection method (place C H method fill) finish conn
                    (record p { world = (dial C H path p.world).1 }) h
                  ∙ spent-dial path p.world)
          | inr (x, e) ↦ rw (e, invoke) (spent-dial path p.world)
        ]

    pub spent-call_version :
        (injected : Injected) (cfg : _) (p : Process C H)
        → spent (call_version C H injected cfg p).1.world ≡ spent p.world
    unfolding call_version
    spent-call_version injected cfg p =
        spent-invoke _ _ (version_response C H) p (world-version_response C H)
