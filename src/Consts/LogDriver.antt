-- ===== src/Consts/LogDriver.antt =====
-- The log drivers of pkg/client/consts.go, which are Go strings.
use conmon_rs.Base.{String}

abbrev pub stdout : String
stdout = "stdout"

abbrev pub systemd : String
systemd = "systemd"
