-- ===== src/Consts/LogLevel.antt =====
-- The log levels of pkg/client/consts.go. A `LogLevel` is a Go string: any text can stand where one
-- is expected.
use conmon_rs.Base.{String}

abbrev pub trace : String
trace = "trace"

abbrev pub debug : String
debug = "debug"

abbrev pub info : String
info = "info"

abbrev pub warn : String
warn = "warn"

abbrev pub error : String
error = "error"

abbrev pub off : String
off = "off"
