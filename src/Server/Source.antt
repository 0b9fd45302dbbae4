-- ===== src/Server/Source.antt =====
-- Where the pid of a new client comes from (pkg/client/client.go: `New`).
use conmon_rs.Base.{ℕ, ◌≡◌, refl, sym, ap, ◌∙◌, ◌⊎◌, inl, inr, Bool-cases, arith}
use conmon_rs.Base.Results.{Error, Result, ok, err, wrap, run_dir_not_created, Result-cases}
use conmon_rs.Client.{ConmonClient}
use conmon_rs.Config.{ConmonServerConfig}
use conmon_rs.Wire.{Capnp}
use conmon_rs.Requests.Metadata.{Injected}
use conmon_rs.Rpc.{Host, Process}
use conmon_rs.Rpc.Methods.{VersionResponse, call_version}
use conmon_rs.Server.{
  System, quiet, pid_given_file, pid_file, new_client, made_dir, to_client, start_server, read_pid,
  start_new, finish_new, adopt_or_start, new,
}
use conmon_rs.Server.Start.{finish_new_outcome}

module _ (C : Capnp) (H : Host C) (S : System H.World) (injected : Injected) where
  finish_new_pid :
      (pid : ℕ) (p : Process C H) (c : ConmonClient H.SemVer)
      → (finish_new C H S injected pid p).0 ≡ ok c
      → c.server_pid ≡ pid
  finish_new_pid pid p c h = elim (finish_new_outcome C H S injected pid p) [
    | inl (c', made, same) ↦ ground arith
    | inr (e, failed, _) ↦ cc
  ]

  start_new_pid :
      (config : ConmonServerConfig) (p : Process C H) (c : ConmonClient H.SemVer)
      → (start_new C H S injected config p).0 ≡ ok c
      → let q = (start_server C H S config p).1 in
        (pid_given_file C H S (pid_file C H S q.client) q.world).0 ≡ ok c.server_pid
  unfolding start_new read_pid
  start_new_pid config p c h =
      let q = (start_server C H S config p).1 in
      elim (Result-cases (start_server C H S config p).0) [
        | inr (e, failed) ↦ cc (rw failed at h)
        | inl (_, started) ↦
            let given = (pid_given_file C H S (pid_file C H S q.client) q.world).0 in
            elim (Result-cases (pid_given_file C H S (pid_file C H S q.client) q.world).0) [
              | inr (e, unread) ↦ cc (rw (started, unread) at h)
              | inl (pid, found) ↦
                  found ∙ ap (λ n. ok n) (sym (finish_new_pid pid _ c (rw (started, found) at h)))
            ]
      ]

  made_dir_cases :
      (config : ConmonServerConfig) (r : Result (Unit {0}))
      → (made_dir C H S config r ≡ ok (new_client C H S config))
        ⊎ ((e : Error) × (made_dir C H S config r ≡ err e))
  unfolding made_dir
  made_dir_cases config (ok _) = inl refl
  made_dir_cases config (err e) = elim (Bool-cases (S.is_exist e)) [
    | inl there ↦ inl (rw there refl)
    | inr other ↦ inr (wrap config.server_run_dir run_dir_not_created, rw other refl)
  ]

  -- The client that `New` starts with, once the run directory is made.
  abbrev pub first : ConmonServerConfig → H.World → Process C H
  first config w = record { client = new_client C H S config; world = (to_client C H S config w).1 }

  pub to_client_cases :
      (config : ConmonServerConfig) (w : H.World)
      → ((to_client C H S config w).0 ≡ ok (new_client C H S config))
        ⊎ ((e : Error) × ((to_client C H S config w).0 ≡ err e))
  unfolding to_client
  to_client_cases config w = made_dir_cases config (S.mkdir_all config.server_run_dir 0o755 w).0

  -- If `New` succeeds, then the pid of the client is the one that a running server answered with;
  -- or no server answered, and it is the one in the pid file after the server was started.
  pub new_pid_source :
      (config : ConmonServerConfig) (w : H.World) (c : ConmonClient H.SemVer)
      → (new C H S injected config w).0 ≡ ok c
      → let (r, p) = call_version C H injected (quiet C H S injected) (first config w) in
        let q = (start_server C H S config p).1 in
        ((v : VersionResponse) × (r ≡ ok v) × (c.server_pid ≡ v.process_id))
        ⊎ ((e : Error) × (r ≡ err e)
            × ((pid_given_file C H S (pid_file C H S q.client) q.world).0 ≡ ok c.server_pid))
  unfolding new adopt_or_start
  new_pid_source config w c h =
      let made : (to_client C H S config w).0 ≡ ok (new_client C H S config)
          ⊎ ((e : Error) × ((to_client C H S config w).0 ≡ err e)) =
        to_client_cases config w in
      elim made [
        | inr (e, failed) ↦ cc (rw (new, failed) at h)
        | inl done ↦
            elim (Result-cases
              (call_version C H injected (quiet C H S injected) (first config w)).0) [
                | inl (v, up) ↦ inl (v, up, ground (arith, rw (new, done, up) at h))
                | inr (e, down) ↦
                    inr (e, down, start_new_pid config _ c (rw (new, done, down) at h))
              ]
      ]
