-- ===== src/Tests/Dials.antt =====
-- A socket in a directory with a long name.
use conmon_rs.Base.{◌+◌, ◌≡◌, refl}
use conmon_rs.Dial.{dial_long_socket}
use conmon_rs.Dial.Names.{IsPlain}
use conmon_rs.Dial.Descriptors.{one_if_ok, opened-dial_long_socket}
use conmon_rs.Tests.Life.{files, counts, just_started}

conmon_sock-IsPlain : IsPlain files "conmon.sock"
conmon_sock-IsPlain n = refl

opened-dial_long_socket_example :
    (dial_long_socket files "unix" "conmon.sock" just_started).1.connections
    ≡ just_started.connections
      + one_if_ok (dial_long_socket files "unix" "conmon.sock" just_started).0
opened-dial_long_socket_example =
    opened-dial_long_socket files (λ w. w.connections) "unix" "conmon.sock" just_started
      counts.sockets
