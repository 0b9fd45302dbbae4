-- ===== src/Rpc/Connections.antt =====
-- The connections of a remote call (pkg/client/client.go: the deferred `conn.Close()` of each method).
use conmon_rs.Base.{ℕ, ◌+◌, ◌-◌, ◌≡◌, arith, String, inl, inr}
use conmon_rs.Base.Results.{Error, Result, ok, err, Exec, Result-cases, continue}
use conmon_rs.Wire.{Capnp}
use conmon_rs.Dial.Descriptors
use conmon_rs.Dial.Descriptors.{opened-dial_long_socket}
use conmon_rs.Rpc.{dial, Host, Process, Method, place, on_connection, socket, invoke, read_response}

module _ (C : Capnp) (H : Host C) where
  -- How many descriptors a state of the world holds open: files and sockets count as in
  -- `DialLongSocket`, a connection that is closed takes one away, and a call changes nothing.
  pub record Counts (opened : H.World → ℕ) : Type 0 where
    pub sockets : Descriptors.Counts H.sockets opened
    pub closed : (conn : H.Conn) (w : H.World) → opened (H.close conn w) ≡ opened w - 1
    pub called :
        (conn : H.Conn) (method : Method) (r : Result C.Message) (w : H.World)
        → opened (H.call conn method r w).1 ≡ opened w

  opened-dial_ok :
      (opened : H.World → ℕ) (path : String) (w : H.World) (conn : H.Conn)
      → Counts opened
      → (dial C H path w).0 ≡ ok conn
      → opened (dial C H path w).1 ≡ opened w + 1
  unfolding dial
  opened-dial_ok opened path w conn K e =
      rw e at (opened-dial_long_socket H.sockets opened "unix" path w K.sockets)

  opened-dial_err :
      (opened : H.World → ℕ) (path : String) (w : H.World) (x : Error)
      → Counts opened
      → (dial C H path w).0 ≡ err x
      → opened (dial C H path w).1 ≡ opened w
  unfolding dial
  opened-dial_err opened path w x K e =
      omega (arith, rw e at (opened-dial_long_socket H.sockets opened "unix" path w K.sockets))

  -- What a step adds to the descriptors, from its result: nothing where it fails.
  module _ {A : Type 0} (opened : H.World → ℕ) (adds : Result A → ℕ)
      (none_if_err : (e : Error) → adds (err e) ≡ 0) where
    abbrev pub Adds : (C.Message → Exec (Process C H) A) → Type 0
    Adds finish =
        (m : C.Message) (q : Process C H)
        → opened (finish m q).1.world ≡ opened q.world + adds (finish m q).0

    opened-continue :
        (r : Result C.Message) (finish : C.Message → Exec (Process C H) A) (p : Process C H)
        → Adds finish
        → opened (continue r finish p).1.world ≡ opened p.world + adds (continue r finish p).0
    opened-continue (ok m) finish p h = h m p
    opened-continue (err e) finish p h = omega (arith, none_if_err e)

    opened-on_connection :
        (method : Method) (request : Result C.Message) (finish : C.Message → Exec (Process C H) A)
        (conn : H.Conn) (p : Process C H)
        → Counts opened
        → Adds finish
        → opened (on_connection C H method request finish conn p).1.world
          ≡ (opened p.world + adds (on_connection C H method request finish conn p).0) - 1
    unfolding on_connection
    opened-on_connection method request finish conn p K h =
        let (results, w) = H.call conn method request p.world in
        let (r, p') = continue (read_response C H method results) finish (record p { world = w }) in
        omega (
          arith,
          K.closed conn p'.world,
          opened-continue (read_response C H method results) finish (record p { world = w }) h,
          K.called conn method request p.world,
        )

    -- If descriptors are counted so, then a call of a method adds to those that are open what the
    -- reading of the response adds, on every outcome: the dial fails, the closure fails, the
    -- server fails, the response cannot be read, or all is well.
    pub opened-invoke :
        (method : Method) (fill : C.Message → Result C.Message)
        (finish : C.Message → Exec (Process C H) A) (p : Process C H)
        → Counts opened
        → Adds finish
        → opened (invoke C H method fill finish p).1.world
          ≡ opened p.world + adds (invoke C H method fill finish p).0
    unfolding invoke
    opened-invoke method fill finish p K h =
        let path = socket C H p.client in
        elim (Result-cases (dial C H path p.world).0) [
          | inl (conn, e) ↦
              rw (e, invoke)
                (omega (
                  arith,
                  opened-dial_ok opened path p.world conn K e,
                  opened-on_connection method (place C H method fill) finish conn
                      (record p { world = (dial C H path p.world).1 }) K h,
                ))
          | inr (x, e) ↦
              rw (e, invoke)
                (omega (arith, opened-dial_err opened path p.world x K e, none_if_err _))
        ]
