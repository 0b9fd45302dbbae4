-- ===== src/Attach/Session.antt =====
-- An attach session (pkg/client/attach.go: `attach`, `setupStdioChannels`, `readStdio`). What the
-- callees and the other goroutines do is an argument: the outcome of each call, which channel the
-- `select` finds ready, and what is received later. An error value is `none` where it is nil.
pub mod Cleanup
use conmon_rs.Base.{
  ℕ, String, Bool, true, false, ◌||◌, Option, none, some, List, [], ◌∷◌, ◌++◌, if◌then◌else◌,
}
use conmon_rs.Base.Results.{Error, wrap, join, join_one, is_error, is_detached, is_closed_pipe}
use conmon_rs.Client.{AttachReader}
use conmon_rs.Attach.Config.{AttachConfig}
use conmon_rs.Attach.Readers.{Effect, Readers, store, try_close_attach_reader_for_id}

-- The channel that the `select` of `readStdio` receives from, with the message.
pub data Message : Type 0 where
  from_output from_stdin : Option Error → Message

pub record Ended : Type 0 where
  pub result : Option Error
  pub readers : Readers
  pub effects : List Effect

abbrev pub wrap_error : String → Option Error → Option Error
wrap_error text none = none
wrap_error text (some e) = some (wrap text e)

-- `errors.Join(closeErr, err)` leaves a nil out.
abbrev pub join_errors : Error → Option Error → Error
join_errors e none = join_one e
join_errors e (some f) = join e f

-- `errors.Is` is false on nil.
abbrev pub is_in : (Error → Bool) → Option Error → Bool
is_in test none = false
is_in test (some e) = is_error test e

-- The goroutine that copies stdin reports how `detach.Copy` ended, but for a closed pipe.
unfoldable pub stdin_message : Option Error → Option Message
stdin_message error = if is_in is_closed_pipe error then none else some (from_stdin error)

-- After the reader of this session is closed: the result, from the message and the outcome of
-- `conn.CloseWrite()`.
unfoldable pub output_result : Option Error → Option Error → Option Error
output_result close_write error = elim close_write [
  | some e ↦ some (join_errors e error)
  | none ↦ wrap_error "got stdout error" error
]

-- `later` is what the output channel delivers afterwards.
unfoldable pub stdin_result :
    AttachConfig → Option Error → Option Error → Option Error → Option Error
stdin_result cfg close_write error later =
    if is_in is_detached error
    then elim close_write [ some e ↦ some (join_errors e error) | none ↦ error ]
    else if cfg.streams.stdout || cfg.streams.stderr
    then later
    else none

abbrev pub closing : String → Readers → Option Error → Ended
closing id m result =
    let (m', es) = try_close_attach_reader_for_id id m in
    record { result = result; readers = m'; effects = es }

unfoldable pub read_stdio :
    AttachConfig → String → Option Error → Option Error → Message → Readers → Ended
read_stdio cfg id close_write later (from_output error) m =
    closing id m (output_result close_write error)
read_stdio cfg id close_write later (from_stdin error) m =
    if cfg.stop_after_stdin_eof
    then record { result = none; readers = m; effects = [] }
    else closing id m (stdin_result cfg close_write error later)

-- `setupStdioChannels`: the reader is in the map if there is a stdin.
unfoldable pub setup_stdio_channels : AttachConfig → String → Readers → Readers
setup_stdio_channels cfg id m = elim cfg.streams.stdin [
  | none ↦ m
  | some stdin ↦ store id (record { stdin = stdin; socket_path = cfg.socket_path }) m
]

-- The outcomes around a session. A closure that is nil counts as one that returns nil.
pub record Surroundings : Type 0 where
  pub dial : Option Error
  pub pre_attach : Option Error
  pub id : String
  pub post_attach : Option Error
  pub message : Message
  pub close_write : Option Error
  pub later : Option Error

abbrev pub fails : Error → Readers → Ended
fails e m = record { result = some e; readers = m; effects = [] }

-- `attach` behind `PreAttachFunc`.
unfoldable pub attach_streams : AttachConfig → Surroundings → Readers → Ended
attach_streams cfg env m =
    let m' = setup_stdio_channels cfg env.id m in
    elim env.post_attach [
      | some e ↦ fails (wrap "run post attach func" e) m'
      | none ↦
          let ended = read_stdio cfg env.id env.close_write env.later env.message m' in
          record ended { result = wrap_error "read stdio" ended.result }
    ]

unfoldable pub pre_attach : AttachConfig → Surroundings → Readers → Ended
pre_attach cfg env m = elim env.pre_attach [
  | some e ↦ fails (wrap "run pre attach func" e) m
  | none ↦
      if cfg.passthrough
      then record { result = none; readers = m; effects = [] }
      else attach_streams cfg env m
]

unfoldable pub attach : AttachConfig → Surroundings → Readers → Ended
attach cfg env m = if cfg.passthrough then pre_attach cfg env m else elim env.dial [
  | some e ↦ fails (wrap "failed to connect to container's attach socket" e) m
  | none ↦ pre_attach cfg env m
]
