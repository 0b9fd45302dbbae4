-- ===== src/Dial/Names.antt =====
-- How long the name is that `DialLongSocket` dials (pkg/client/client.go).
use Prim.Native.String.{◌++◌ as ◌<>◌, len}
use text.Mathlib.TextPositions.{len-append}
use conmon_rs.Base.{ℕ, suc, ◌+◌, ◌^◌, ◌<◌, ◌≤◌, ◌≡◌, String, [], ◌∷◌, arith}
use conmon_rs.Base.Decimal.{decimal, len-decimal}
use conmon_rs.Dial.{Sockets, proc_self_fd_path, socket_path}

module _ {World Conn : Type 0} (O : Sockets World Conn) where
  -- `filepath.Join` sets a slash between elements that need no cleaning, which a file name that is
  -- neither `.` nor `..` does not.
  abbrev pub IsPlain : String → Type 0
  IsPlain name =
      (n : ℕ)
      → O.join (proc_self_fd_path ∷ decimal n ∷ name ∷ [])
        ≡ proc_self_fd_path <> ("/" <> (decimal n <> ("/" <> name)))

  -- The name that is dialed for a socket does not grow with the directory of the socket: if the
  -- descriptor of the directory has at most k + 1 digits, then the name has at most k + 16 bytes
  -- more than the plain file name of the socket.
  pub len-socket_path :
      (path : String) (f : O.File) (k : ℕ)
      → IsPlain (O.base path)
      → O.fd f < 10 ^ suc k
      → len (socket_path O path f) ≤ k + 16 + len (O.base path)
  len-socket_path path f k plain small =
      let number = decimal (O.fd f) in
      rw (plain (O.fd f)) (
        omega (
          arith,
          len-decimal (O.fd f) k small,
          len-append proc_self_fd_path ("/" <> (number <> ("/" <> O.base path))),
          len-append "/" (number <> ("/" <> O.base path)),
          len-append number ("/" <> O.base path),
          len-append "/" (O.base path),
        ))
