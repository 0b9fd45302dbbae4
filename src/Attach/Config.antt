-- ===== src/Attach/Config.antt =====
-- `AttachConfig` and `AttachStreams` (pkg/client/attach.go).
use conmon_rs.Base.{ℕ, String, Bool, Option, List}

-- A number names the input stream, `none` is nil. Of an output stream only whether it is nil is
-- kept here: what it does is the parameter `Output` of the redirection.
pub record AttachStreams : Type 0 where
  pub stdin : Option ℕ
  pub stdout : Bool
  pub stderr : Bool

-- The closures and the channel of resize events are arguments of `attach`.
pub record AttachConfig : Type 0 where
  pub id : String
  pub socket_path : String
  pub exec_session : String
  pub tty : Bool
  pub stop_after_stdin_eof : Bool
  pub container_stdin : Bool
  pub passthrough : Bool
  pub streams : AttachStreams
  pub detach_keys : List ℕ
