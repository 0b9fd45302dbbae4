-- ===== src/Server/Start.antt =====
-- Starting a server, and cleaning it up when a later step fails (pkg/client/client.go: `New`).
use conmon_rs.Base.{ℕ, zero, suc, ◌≡◌, refl, ap, ◌∙◌, ◌⊎◌, inl, inr, arith}
use conmon_rs.Base.Results.{Error, Result, ok, err, Exec, continue, Result-cases}
use conmon_rs.Wire.{Capnp}
use conmon_rs.Requests.Metadata.{Injected}
use conmon_rs.Rpc.{Host, Process, Method, place, invoke, on_connection}
use conmon_rs.Rpc.Methods.{version_response, store_version, call_version}
use conmon_rs.Server.{
  System, shutdown, quiet, wait_loop, wait_until_server_up, remove_pid_file, come_up, clean_up,
  finish_new,
}

module _ (C : Capnp) (H : Host C) where
  server_pid-continue :
      {A B : Type 0} (r : Result A) (finish : A → Exec (Process C H) B) (p : Process C H)
      → ((a : A) (q : Process C H) → (finish a q).1.client.server_pid ≡ q.client.server_pid)
      → (continue r finish p).1.client.server_pid ≡ p.client.server_pid
  server_pid-continue (ok a) finish p h = h a p
  server_pid-continue (err e) finish p h = refl

  server_pid-invoke :
      {A : Type 0} (method : Method) (fill : C.Message → Result C.Message)
      (finish : C.Message → Exec (Process C H) A) (p : Process C H)
      → ((m : C.Message) (q : Process C H) → (finish m q).1.client.server_pid ≡ q.client.server_pid)
      → (invoke C H method fill finish p).1.client.server_pid ≡ p.client.server_pid
  unfolding invoke on_connection
  server_pid-invoke method fill finish p h =
      server_pid-continue _ (on_connection C H method (place C H method fill) finish) _
        λ conn q. server_pid-continue _ finish _ h

  server_pid-version_response :
      (m : C.Message) (p : Process C H)
      → (version_response C H m p).1.client.server_pid ≡ p.client.server_pid
  unfolding version_response store_version
  server_pid-version_response m p = ground arith

  server_pid-call_version :
      (S : System H.World) (injected : Injected) (p : Process C H)
      → (call_version C H injected (quiet C H S injected) p).1.client.server_pid
        ≡ p.client.server_pid
  unfolding call_version
  server_pid-call_version S injected p =
      server_pid-invoke _ _ (version_response C H) p server_pid-version_response

module _ (C : Capnp) (H : Host C) (S : System H.World) (injected : Injected) where
  server_pid-wait_loop :
      (n : ℕ) (last : Result (Unit {0})) (p : Process C H)
      → (wait_loop C H S injected n last p).1.client.server_pid ≡ p.client.server_pid
  unfolding wait_loop
  server_pid-wait_loop zero last p = refl
  server_pid-wait_loop (suc n) last p =
      let q = (call_version C H injected (quiet C H S injected) p).1 in
      let same = server_pid-call_version C H S injected p in
      elim (Result-cases (call_version C H injected (quiet C H S injected) p).0) [
        | inl (v, up) ↦ rw (wait_loop, up) same
        | inr (f, down) ↦
            rw (wait_loop, down)
              (server_pid-wait_loop n (err f) (record q { world = S.sleep 1 q.world }) ∙ same)
      ]

  server_pid-come_up :
      (p : Process C H) → (come_up C H S injected p).1.client.server_pid ≡ p.client.server_pid
  unfolding come_up wait_until_server_up remove_pid_file
  server_pid-come_up p = let same = server_pid-wait_loop 100 (ok tt) p in ground arith

  -- Once the pid of the started server is known, a success returns a client with this pid, and
  -- after a failure the world is what `Shutdown` of a client with this pid leaves.
  pub finish_new_outcome :
      (pid : ℕ) (p : Process C H)
      → ((c : _) × ((finish_new C H S injected pid p).0 ≡ ok c) × (c.server_pid ≡ pid))
        ⊎ ((e : Error) × ((finish_new C H S injected pid p).0 ≡ err e)
            × ((q : Process C H) × (q.client.server_pid ≡ pid)
                × ((finish_new C H S injected pid p).1.world
                    ≡ (shutdown C H S q.client q.world).1)))
  unfolding finish_new clean_up
  finish_new_outcome pid p =
      let start = record p { client = record p.client { server_pid = pid } } in
      let same = server_pid-come_up start in
      let q = (come_up C H S injected start).1 in
      elim (Result-cases (come_up C H S injected start).0) [
        | inl (_, up) ↦ inl (q.client, ap (λ r. (clean_up C H S injected r q).0) up, same)
        | inr (e, down) ↦ inr (
          e,
          ap (λ r. (clean_up C H S injected r q).0) down,
          (q, same, ap (λ r. (clean_up C H S injected r q).1.world) down),
        )
      ]
