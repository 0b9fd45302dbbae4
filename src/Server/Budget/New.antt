-- ===== src/Server/Budget/New.antt =====
-- What `New` spends (pkg/client/client.go).
use native.Mathlib.Nat.{suc-mul}
use conmon_rs.Base.{ℕ, zero, suc, ◌+◌, ◌*◌, ◌≤◌, ◌≡◌, inl, inr, arith, Bool, if◌then◌else◌}
use conmon_rs.Base.Results.{Result, ok, err, is_ok, Result-cases}
use conmon_rs.Wire.{Capnp}
use conmon_rs.Config.{ConmonServerConfig, to_args_of}
use conmon_rs.Requests.Metadata.{Injected}
use conmon_rs.Rpc.{Host, Process}
use conmon_rs.Rpc.Methods.{call_version}
use conmon_rs.Server.{
  System, command_of, pid_file, pid_given_file, quiet, wait_loop, wait_until_server_up,
  remove_pid_file, come_up, clean_up, finish_new, read_pid, start_server, start_new, adopt_or_start,
  to_client, new,
}
use conmon_rs.Server.Source.{first, to_client_cases}
use conmon_rs.Server.Budget.{Prices, spent-shutdown}
use conmon_rs.Server.Budget.Calls.{IsFree, spent-call_version}

module _ (C : Capnp) (H : Host C) (S : System H.World) (injected : Injected) where
  -- Whether a server answers when `New` asks for its version.
  abbrev pub answers : ConmonServerConfig → H.World → Bool
  answers config w =
      is_ok (call_version C H injected (quiet C H S injected) (first C H S injected config w)).0

module _ (C : Capnp) (H : Host C) (S : System H.World) (injected : Injected) (spent : H.World → ℕ)
    (command per_ms : ℕ) (P : Prices C H S spent command per_ms) (F : IsFree C H spent) where
  spent-wait_loop :
      (n : ℕ) (last : Result (Unit {0})) (p : Process C H)
      → spent (wait_loop C H S injected n last p).1.world ≤ spent p.world + n * per_ms
  unfolding wait_loop
  spent-wait_loop zero last p = omega arith
  spent-wait_loop (suc n) last p =
      let same = spent-call_version C H spent F injected (quiet C H S injected) p in
      let q = (call_version C H injected (quiet C H S injected) p).1 in
      elim (Result-cases (call_version C H injected (quiet C H S injected) p).0) [
        | inl (v, up) ↦ rw (wait_loop, up) (omega (arith, same))
        | inr (f, down) ↦
            rw (wait_loop, down)
              (omega (
                arith,
                same,
                suc-mul n per_ms,
                P.sleeps 1 q.world,
                spent-wait_loop n (err f) (record q { world = S.sleep 1 q.world }),
              ))
      ]

  spent-come_up :
      (p : Process C H) → spent (come_up C H S injected p).1.world ≤ spent p.world + 100 * per_ms
  unfolding come_up wait_until_server_up remove_pid_file
  spent-come_up p =
      let q = (wait_loop C H S injected 100 (ok tt) p).1 in
      let waited = spent-wait_loop 100 (ok tt) p in
      let removed = P.removes (pid_file C H S q.client) q.world in
      elim (Result-cases (wait_loop C H S injected 100 (ok tt) p).0) [
        | inl (_, up) ↦ rw up (omega arith)
        | inr (e, down) ↦ rw down (omega arith)
      ]

  spent-finish_new :
      (pid : ℕ) (p : Process C H)
      → spent (finish_new C H S injected pid p).1.world ≤ spent p.world + 10100 * per_ms
  unfolding finish_new clean_up
  spent-finish_new pid p =
      let start = record p { client = record p.client { server_pid = pid } } in
      let q = (come_up C H S injected start).1 in
      let came = spent-come_up start in
      let shut = spent-shutdown C H S spent command per_ms P q.client q.world in
      elim (Result-cases (come_up C H S injected start).0) [
        | inl (_, up) ↦ rw up (omega arith)
        | inr (e, down) ↦ rw down (omega arith)
      ]

  spent-start_server :
      (config : ConmonServerConfig) (p : Process C H)
      → spent (start_server C H S config p).1.world ≤ spent p.world + command
  unfolding start_server
  spent-start_server config p =
      let (args, c) = to_args_of (S.look_path "conmonrs" p.world) config p.client in
      elim (Result-cases (to_args_of (S.look_path "conmonrs" p.world) config p.client).0) [
        | inl (a, given) ↦ rw given (P.runs (command_of config a) p.world)
        | inr (e, wrong) ↦ rw wrong (omega arith)
      ]

  spent-read_pid : (p : Process C H) → spent (read_pid C H S injected p).1.world ≡ spent p.world
  unfolding read_pid pid_given_file
  spent-read_pid p =
      let file = pid_file C H S p.client in
      elim (Result-cases (S.read_file file p.world).0) [
        | inl (bytes, there) ↦ rw there (P.reads file p.world)
        | inr (e, missing) ↦ rw missing (P.reads file p.world)
      ]

  spent-start_new :
      (config : ConmonServerConfig) (p : Process C H)
      → spent (start_new C H S injected config p).1.world ≤ spent p.world + command + 10100 * per_ms
  unfolding start_new
  spent-start_new config p =
      let q = (start_server C H S config p).1 in
      let q' = (read_pid C H S injected q).1 in
      let ran = spent-start_server config p in
      let read = spent-read_pid q in
      elim (Result-cases (start_server C H S config p).0) [
        | inr (e, failed) ↦ rw failed (omega arith)
        | inl (_, started) ↦ elim (Result-cases (read_pid C H S injected q).0) [
          | inr (e, unread) ↦ rw (started, unread) (omega arith)
          | inl (pid, found) ↦ rw (started, found) (omega (arith, spent-finish_new pid q'))
        ]
      ]

  spent-to_client :
      (config : ConmonServerConfig) (w : H.World) → spent (to_client C H S config w).1 ≡ spent w
  unfolding to_client
  spent-to_client config w = P.makes config.server_run_dir 0o755 w

  -- If a command costs at most `command`, a millisecond of sleep at most `per_ms`, and nothing
  -- else anything: `New` spends nothing when a server answers, and otherwise at most what one
  -- command and 10.1 seconds of sleep cost, whether it succeeds or fails, its clean-up included.
  pub spent-new :
      (config : ConmonServerConfig) (w : H.World)
      → spent (new C H S injected config w).1
        ≤ spent w + (if answers C H S injected config w then 0 else command + 10100 * per_ms)
  unfolding new adopt_or_start
  spent-new config w =
      let p = first C H S injected config w in
      let q = (call_version C H injected (quiet C H S injected) p).1 in
      let same = spent-call_version C H spent F injected (quiet C H S injected) p in
      let made = spent-to_client config w in
      elim (to_client_cases C H S injected config w) [
        | inr (e, failed) ↦ rw (new, failed) (omega arith)
        | inl done ↦ elim (Result-cases (call_version C H injected (quiet C H S injected) p).0) [
          | inl (v, up) ↦ rw (new, done, up) (omega arith)
          | inr (e, down) ↦ rw (new, done, down) (omega (arith, spent-start_new config q))
        ]
      ]
