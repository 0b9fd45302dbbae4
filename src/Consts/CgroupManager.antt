-- ===== src/Consts/CgroupManager.antt =====
-- The cgroup managers of pkg/client/consts.go, which are 16-bit numbers.
use conmon_rs.Base.{ℕ}

abbrev pub systemd : ℕ
systemd = 0

abbrev pub cgroupfs : ℕ
cgroupfs = 1

abbrev pub per_command : ℕ
per_command = 0xffff
