-- ===== src/Consts/Namespace.antt =====
-- The namespaces of pkg/client/consts.go, counted by iota; the wire counts in another order.
use conmon_rs.Base.{ℕ}

abbrev pub ipc : ℕ
ipc = 0

abbrev pub pid : ℕ
pid = 1

abbrev pub net : ℕ
net = 2

abbrev pub user : ℕ
user = 3

abbrev pub uts : ℕ
uts = 4
