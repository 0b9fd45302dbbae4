-- ===== src/Consts/LogDriverType.antt =====
-- `LogDriverType` of pkg/client/client.go.
use conmon_rs.Base.{ℕ}

abbrev pub container_runtime_interface : ℕ
container_runtime_interface = 0

abbrev pub json_logger : ℕ
json_logger = 1
