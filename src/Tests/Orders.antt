-- ===== src/Tests/Orders.antt =====
-- Two maps with the same entries.
use conmon_rs.Base.{◌≡◌, refl, [], ◌∷◌}
use mathlib.Core.List.{Permᴰ}
use conmon_rs.Attach.Readers.{Readers, load}
use conmon_rs.Attach.Readers.Sockets.{close_sessions}
use conmon_rs.Attach.Readers.Order.{Distinct, close_sessions-Perm}
use conmon_rs.Tests.Sessions.{two_readers}

abbrev turned : Readers
turned =
    ("b", record { stdin = 6; socket_path = "/attach" })
    ∷ ("a", record { stdin = 5; socket_path = "/attach" })
    ∷ []

two_readers-Distinct : Distinct two_readers
unfolding load
two_readers-Distinct = (refl, (refl, tt))

close_sessions-Perm_example :
    ((close_sessions ("b" ∷ "zz" ∷ "a" ∷ []) two_readers).1
      ≡ (close_sessions ("b" ∷ "zz" ∷ "a" ∷ []) turned).1)
    × Permᴰ
        (close_sessions ("b" ∷ "zz" ∷ "a" ∷ []) two_readers).0
        (close_sessions ("b" ∷ "zz" ∷ "a" ∷ []) turned).0
close_sessions-Perm_example =
    close_sessions-Perm ("b" ∷ "zz" ∷ "a" ∷ []) two_readers turned (Permᴰ.swap refl refl)
      two_readers-Distinct
