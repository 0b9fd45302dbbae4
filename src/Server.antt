-- ===== src/Server.antt =====
-- The life of the server as the client drives it (pkg/client/client.go: `New`, `toClient`,
-- `startServer`, `pidGivenFile`, `waitUntilServerUp`, `Shutdown`). The operating system is the
-- parameter `System`, on the world of the remote calls.
pub mod Pid
pub mod Waiting
pub mod Start
pub mod Source
pub mod Budget
use conmon_rs.Base.{
  ℕ, zero, suc, ◌+◌, ◌-◌, ◌*◌, ◌^◌, ◌==◌, ltb, leb, String, str_eq, Bool, true, false, ◌&&◌, not,
  Option, none, some, List, [], ◌∷◌, if◌then◌else◌,
}
use mathlib.Core.List.{foldl}
use conmon_rs.Base.Results.{
  Error, external, esrch, is_error, is_esrch, run_dir_not_created, timeout_wait_for_pid, wrap,
  Result, ok, err, wrapped, Exec, pure, fail, lift, context, continue, ◌>>=◌, ◌>>◌,
}
use conmon_rs.Consts.LogDriver
use conmon_rs.Client.{ConmonClient}
use conmon_rs.Config.{ConmonServerConfig, os_stdout, os_stderr, to_args_of}
use conmon_rs.Attach.Readers.{Effect, shutdown_readers}
use conmon_rs.Wire.{Capnp}
use conmon_rs.Requests.Config.{VersionConfig}
use conmon_rs.Requests.Metadata.{Injected}
use conmon_rs.Rpc.{Host, Process, lift_world}
use conmon_rs.Rpc.Methods.{VersionResponse, call_version}

-- `exec.Cmd`; a nil stream is `none`.
pub record Command : Type 0 where
  pub entrypoint : String
  pub args : List String
  pub setpgid : Bool
  pub stdout : Option ℕ
  pub stderr : Option ℕ

pub record System (World : Type 0) : Type 0 where
  pub mkdir_all : String → ℕ → Exec World (Unit {0})
  pub is_exist : Error → Bool
  pub look_path : String → World → Result String
  pub run_command : Command → Exec World (Unit {0})
  pub read_file : String → Exec World (List ℕ)
  pub remove : String → Exec World (Unit {0})
  pub kill : ℕ → ℕ → Exec World (Unit {0})
  pub sleep : ℕ → World → World
  pub perform : Effect → World → World

abbrev pub sigint : ℕ
sigint = 2

abbrev pub is_digit : ℕ → Bool
is_digit c = leb b'0' c && leb c b'9'

-- `strconv.ParseUint(s, 10, 32)`: the loop over the bytes. An error stands for either of its two,
-- bad syntax and out of range.
abbrev pub parse_error : Error
parse_error = external 0

unfoldable pub parse_uint_loop : ℕ → List ℕ → Result ℕ
parse_uint_loop n [] = ok n
parse_uint_loop n (c ∷ cs) =
    let n' = n * 10 + (c - b'0') in
    let rest = parse_uint_loop n' cs in
    if not (is_digit c) then err parse_error else if ltb n' (2 ^ 32) then rest else err parse_error

unfoldable pub parse_uint : List ℕ → Result ℕ
parse_uint [] = err parse_error
parse_uint (c ∷ cs) = parse_uint_loop 0 (c ∷ cs)

-- The streams of the command: those of the configuration, or else the process's own.
abbrev pub stream_or : Option ℕ → ℕ → Option ℕ
stream_or none os = some os
stream_or (some s) os = some s

unfoldable pub command_of : ConmonServerConfig → String × List String → Command
command_of config (entrypoint, args) =
    let to_stdout = str_eq config.log_driver LogDriver.stdout in
    record {
      entrypoint = entrypoint;
      args = args;
      setpgid = true;
      stdout = if to_stdout then stream_or config.stdout os_stdout else none;
      stderr = if to_stdout then stream_or config.stderr os_stderr else none;
    }

-- `errors.Is(err, syscall.ESRCH)`
abbrev pub gone : Result (Unit {0}) → Bool
gone (ok _) = false
gone (err e) = is_error is_esrch e

module _ (C : Capnp) (H : Host C) (S : System H.World) where
  unfoldable pub pid_given_file : String → Exec H.World ℕ
  pid_given_file file = do
    pid_bytes ← context "reading pid bytes" (S.read_file file)
    lift (wrapped "parsing pid" (parse_uint pid_bytes))

  abbrev pub pid_file : ConmonClient H.SemVer → String
  pid_file c = H.join_path c.run_dir "pidfile"

  -- A new client has no server yet.
  unfoldable pub new_client : ConmonServerConfig → ConmonClient H.SemVer
  new_client config = record {
    server_pid = 0;
    run_dir = config.server_run_dir;
    attach_readers = [];
    tracing_enabled = false;
    server_version = H.semver 0 0 0;
    cgroup_manager = config.cgroup_manager;
  }

  -- A directory that is there already is no error.
  unfoldable pub made_dir : ConmonServerConfig → Result (Unit {0}) → Result (ConmonClient H.SemVer)
  made_dir config (ok _) = ok (new_client config)
  made_dir config (err e) =
      if S.is_exist e
      then ok (new_client config)
      else err (wrap config.server_run_dir run_dir_not_created)

  unfoldable pub to_client : ConmonServerConfig → Exec H.World (ConmonClient H.SemVer)
  to_client config w =
      let (r, w') = S.mkdir_all config.server_run_dir 0o755 w in (made_dir config r, w')

  unfoldable pub start_server : ConmonServerConfig → Exec (Process C H) (Unit {0})
  start_server config p =
      let (args, c) = to_args_of (S.look_path "conmonrs" p.world) config p.client in
      continue (wrapped "convert config to args" args)
        (λ a. context "run server command" (lift_world C H (S.run_command (command_of config a))))
        (record p { client = c })

  -- `Shutdown`: the polls that are left, each with a signal 0 and a sleep of 100 ms.
  unfoldable pub wait_for_exit : ℕ → ℕ → Exec H.World (Unit {0})
  wait_for_exit zero pid w = (err timeout_wait_for_pid, w)
  wait_for_exit (suc n) pid w =
      let (r, w') = S.kill pid 0 w in
      let rest = wait_for_exit n pid (S.sleep 100 w') in if gone r then (ok tt, w') else rest

  unfoldable pub after_sigint : ℕ → Result (Unit {0}) → Exec H.World (Unit {0})
  after_sigint pid (ok _) w = wait_for_exit 100 pid w
  after_sigint pid (err e) w =
      if is_error is_esrch e then (ok tt, w) else (err (wrap "kill server PID" e), w)

  unfoldable pub shutdown : ConmonClient H.SemVer → Exec H.World (Unit {0})
  shutdown c w =
      let closed = foldl (λ v e. S.perform e v) w (shutdown_readers c.attach_readers) in
      let (r, w') = S.kill c.server_pid sigint closed in after_sigint c.server_pid r w'

module _ (C : Capnp) (H : Host C) (S : System H.World) (injected : Injected) where
  abbrev pub quiet : Option VersionConfig
  quiet = some (record { verbose = false })

  -- The attempts that are left; `last` is the error of the previous one, nil before the first.
  unfoldable pub wait_loop : ℕ → Result (Unit {0}) → Exec (Process C H) (Unit {0})
  wait_loop zero last p = (last, p)
  wait_loop (suc n) last p =
      let (r, p') = call_version C H injected quiet p in
      elim r [
        | ok _ ↦ (ok tt, p')
        | err e ↦ wait_loop n (err e) (record p' { world = S.sleep 1 p'.world })
      ]

  unfoldable pub wait_until_server_up : Exec (Process C H) (Unit {0})
  wait_until_server_up = wait_loop 100 (ok tt)

  unfoldable pub remove_pid_file : Exec (Process C H) (Unit {0})
  remove_pid_file p =
      context "remove pid file" (lift_world C H (S.remove (pid_file C H S p.client))) p

  -- The steps of `New` once the pid is known.
  unfoldable pub come_up : Exec (Process C H) (Unit {0})
  come_up = context "wait until server is up" wait_until_server_up >> remove_pid_file

  -- The deferred clean-up of a failure in them; what `Shutdown` returns is only logged.
  unfoldable pub clean_up : Result (Unit {0}) → Exec (Process C H) (ConmonClient H.SemVer)
  clean_up (ok _) p = (ok p.client, p)
  clean_up (err e) p = (err e, record p { world = (shutdown C H S p.client p.world).1 })

  unfoldable pub finish_new : ℕ → Exec (Process C H) (ConmonClient H.SemVer)
  finish_new pid p =
      let (r, p') = come_up (record p { client = record p.client { server_pid = pid } }) in
      clean_up r p'

  unfoldable pub read_pid : Exec (Process C H) ℕ
  read_pid p =
      context "get pid from env" (lift_world C H (pid_given_file C H S (pid_file C H S p.client))) p

  -- A server that did not answer is started; its pid is in the file that it wrote.
  unfoldable pub start_new : ConmonServerConfig → Exec (Process C H) (ConmonClient H.SemVer)
  start_new config = do
    context "start server" (start_server C H S config)
    pid ← read_pid
    finish_new pid

  unfoldable pub adopt_or_start :
      ConmonServerConfig → Result VersionResponse → Exec (Process C H) (ConmonClient H.SemVer)
  adopt_or_start config (ok resp) p =
      let c = record p.client { server_pid = resp.process_id } in (ok c, record p { client = c })
  adopt_or_start config (err e) p = start_new config p

  unfoldable pub new : ConmonServerConfig → Exec H.World (ConmonClient H.SemVer)
  new config w =
      let (made, w') = context "convert config to client" (to_client C H S config) w in
      elim made [
        | err e ↦ (err e, w')
        | ok c ↦
            let (resp, p) = call_version C H injected quiet (record { client = c; world = w' }) in
            let (r, p') = adopt_or_start config resp p in (r, p'.world)
      ]
