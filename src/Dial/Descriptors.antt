-- ===== src/Dial/Descriptors.antt =====
-- The descriptors that `DialLongSocket` leaves open (pkg/client/client.go).
use conmon_rs.Base.{ℕ, ◌+◌, ◌-◌, ◌≡◌, arith, String, inl, inr}
use conmon_rs.Base.Results.{Error, Result, ok, err, Result-cases}
use conmon_rs.Dial.{Sockets, socket_path, dial_below, dial_long_socket}

-- One more if something came out, and otherwise as many as before.
abbrev pub one_if_ok {ℓ} : {A : Type ℓ} → Result A → ℕ
one_if_ok (ok a) = 1
one_if_ok (err e) = 0

module _ {World Conn : Type 0} (O : Sockets World Conn) (opened : World → ℕ) where
  -- How many descriptors a state of the world holds open: a file or a socket that is opened adds
  -- one, an attempt that fails none, and a file that is closed takes one away.
  pub record Counts : Type 0 where
    pub opens :
        (path : String) (w : World) (f : O.File)
        → (O.open_file path w).0 ≡ ok f
        → opened (O.open_file path w).1 ≡ opened w + 1
    pub opens_none :
        (path : String) (w : World) (e : Error)
        → (O.open_file path w).0 ≡ err e
        → opened (O.open_file path w).1 ≡ opened w
    pub closes : (f : O.File) (w : World) → opened (O.close_file f w) ≡ opened w - 1
    pub dials :
        (network name : String) (w : World) (conn : Conn)
        → (O.dial_unix network name w).0 ≡ ok conn
        → opened (O.dial_unix network name w).1 ≡ opened w + 1
    pub dials_none :
        (network name : String) (w : World) (e : Error)
        → (O.dial_unix network name w).0 ≡ err e
        → opened (O.dial_unix network name w).1 ≡ opened w

  opened-dial_below :
      (network path : String) (f : O.File) (w : World) (n : ℕ)
      → Counts
      → opened w ≡ n + 1
      → opened (dial_below O network path f w).1 ≡ n + one_if_ok (dial_below O network path f w).0
  unfolding dial_below
  opened-dial_below network path f w n K h =
      let name = socket_path O path f in
      let closed = K.closes f (O.dial_unix network name w).1 in
      elim (Result-cases (O.dial_unix network name w).0) [
        | inl (conn, e) ↦ rw e (omega (arith, closed, K.dials network name w conn e))
        | inr (x, e) ↦ rw e (omega (arith, closed, K.dials_none network name w x e))
      ]

  -- Whatever fails on the way, no descriptor is left over: a dial that succeeds leaves one more
  -- open than there were, the connection, and one that fails leaves as many.
  pub opened-dial_long_socket :
      (network path : String) (w : World)
      → Counts
      → opened (dial_long_socket O network path w).1
        ≡ opened w + one_if_ok (dial_long_socket O network path w).0
  unfolding dial_long_socket
  opened-dial_long_socket network path w K = elim (Result-cases (O.open_file (O.dir path) w).0) [
    | inl (f, e) ↦ rw e (
        opened-dial_below network path f (O.open_file (O.dir path) w).1 (opened w) K
          (K.opens (O.dir path) w f e))
    | inr (x, e) ↦ rw e (omega (arith, K.opens_none (O.dir path) w x e))
  ]
