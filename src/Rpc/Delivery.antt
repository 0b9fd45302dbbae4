-- ===== src/Rpc/Delivery.antt =====
-- From a method of the client to what arrives at the server (pkg/client/client.go).
pub mod Small
use conmon_rs.Proto
use conmon_rs.Base.{All, ℕ, ◌<◌, ◌^◌, ◌≡◌, refl, inl, inr, arith}
use conmon_rs.Base.Results.{Error, Result, ok, err, wrapped, Exec, Result-cases}
use conmon_rs.Base.Chain.{>>=-eq-ok}
use conmon_rs.Wire.{Capnp, root, absent, IsLawful, IsReadable}
use conmon_rs.Wire.Frame.{FitsInt32, wrapped-eq-ok}
use conmon_rs.Requests.Config.{CreateContainerConfig, ExecSyncConfig}
use conmon_rs.Requests.Metadata.{Injected}
use conmon_rs.Requests.Fill.{chosen_cgroup_manager, fill_exec_sync}
use conmon_rs.Requests.Container.{fill_create_container}
use conmon_rs.Requests.Container.Drivers.{FitsDriver}
use conmon_rs.Requests.Container.Fields.{FitsConfig}
use conmon_rs.Requests.Container.ReadBack.{fill_create_container-ReadsBack}
use conmon_rs.Requests.Received.Exec.{FitsExec, ReceivesExec, fill_exec_sync-ReceivesExec}
use conmon_rs.Requests.Received.Create.{ReceivesContainer, ReceivesContainer_lem}
use conmon_rs.Rpc.{
  dial, Host, Process, Method, create_container, exec_sync_container, socket, place, invoke,
  on_connection,
}
use conmon_rs.Rpc.Methods.{
  CreateContainerResponse, ExecContainerResult, container_response, exec_response,
  call_create_container, call_exec_sync_container,
}

module _ (C : Capnp) (H : Host C) where
  -- The runtime sends nothing for a closure that failed, and a new request is empty.
  pub record IsFaithful : Type 0 where
    pub fails :
        (conn : H.Conn) (method : Method) (e : Error) (w : H.World) (results : H.Results)
        → ¬ ((H.call conn method (err e) w).0 ≡ ok results)
    pub fresh :
        (method : Method) (req : C.Message)
        → H.new_request method ≡ ok req
        → (k : ℕ) → C.content req root k ≡ absent

  -- The server was reached on the socket of the client, took the message, and gave the response.
  pub record Exchanged (method : Method) (p : Process C H) (m response : C.Message) : Type 0 where
    pub conn : H.Conn
    pub results : H.Results
    pub dialed : (dial C H (socket C H p.client) p.world).0 ≡ ok conn
    pub called :
        (H.call conn method (ok m) (dial C H (socket C H p.client) p.world).1).0 ≡ ok results
    pub responded : H.response results ≡ ok response

  on_connection_ok :
      {A : Type 0} (method : Method) (request : Result C.Message)
      (finish : C.Message → Exec (Process C H) A) (conn : H.Conn) (p : Process C H) (a : A)
      → IsFaithful
      → (on_connection C H method request finish conn p).0 ≡ ok a
      → (m : C.Message) × (response : C.Message) × (results : H.Results) × (request ≡ ok m)
        × ((H.call conn method (ok m) p.world).0 ≡ ok results)
        × (H.response results ≡ ok response)
        × ((finish response (record p { world = (H.call conn method (ok m) p.world).1 })).0 ≡ ok a)
  unfolding on_connection
  on_connection_ok method (err e) finish conn p a F h =
      elim (Result-cases (H.call conn method (err e) p.world).0) [
        | inl (results, called) ↦ absurd (F.fails conn method e p.world results called)
        | inr (x, failed) ↦ cc (rw (failed) at h)
      ]
  on_connection_ok method (ok m) finish conn p a F h =
      elim (Result-cases (H.call conn method (ok m) p.world).0) [
        | inr (x, failed) ↦ cc (rw failed at h)
        | inl (results, called) ↦ elim (Result-cases (H.response results)) [
          | inr (x, failed) ↦ cc (rw failed at (rw called at h))
          | inl (response, responded) ↦
              (m, response, results, refl, called, responded, rw responded at (rw called at h))
        ]
      ]

  pub invoke_ok :
      {A : Type 0} (method : Method) (fill : C.Message → Result C.Message)
      (finish : C.Message → Exec (Process C H) A) (p : Process C H) (a : A)
      → IsFaithful
      → (invoke C H method fill finish p).0 ≡ ok a
      → (req : C.Message) × (m : C.Message) × (response : C.Message) × (q : Process C H)
        × (H.new_request method ≡ ok req)
        × (fill req ≡ ok m)
        × Exchanged method p m response
        × ((finish response q).0 ≡ ok a)
  unfolding invoke place
  invoke_ok method fill finish p a F h =
      elim (Result-cases (dial C H (socket C H p.client) p.world).0) [
        | inr (x, failed) ↦ cc (rw failed at h)
        | inl (conn, dialed) ↦
            let (m, response, results, placed, called, responded, finished) =
              on_connection_ok method (place C H method fill) finish conn _ a F (rw dialed at h) in
            let (req, made, filled) =
              >>=-eq-ok (wrapped "create request" (H.new_request method)) fill placed in
            (
              req,
              m,
              response,
              _,
              wrapped-eq-ok _ _ made,
              filled,
              record {
                conn = conn;
                results = results;
                dialed = dialed;
                called = called;
                responded = responded;
              },
              finished,
            )
      ]

  exec_response_lem :
      (response : C.Message) (q : Process C H) (r : ExecContainerResult)
      → (exec_response C H response q).0 ≡ ok r
      → (Proto.ExecSyncContainerResponse.stdout C response ≡ ok r.stdout)
        × (Proto.ExecSyncContainerResponse.stderr C response ≡ ok r.stderr)
        × (Proto.ExecSyncContainerResponse.exit_code C response ≡ r.exit_code)
        × (Proto.ExecSyncContainerResponse.timed_out C response ≡ r.timed_out)
  unfolding exec_response
  exec_response_lem response q r h = ground arith

module _ (C : Capnp) (H : Host C) (L : IsLawful C) (F : IsFaithful C H) (injected : Injected)
    (p : Process C H) where
  -- Over a lawful library and a faithful runtime, with lists of fewer than 2 ^ 31 elements, sizes
  -- of 64 bits and a chosen cgroup manager of 16, and if the request that the server takes can be
  -- read there without an error: if `CreateContainer` succeeds, then the server behind the client's
  -- socket took one request whose accessors return every field of the configuration and the cgroup
  -- manager that was chosen, and the pid is the one of its response.
  pub call_create_container-Exchanged :
      (cfg : CreateContainerConfig) (r : CreateContainerResponse)
      → FitsConfig cfg
      → All FitsDriver cfg.log_drivers
      → FitsInt32 injected.entries
      → chosen_cgroup_manager p.client.cgroup_manager cfg.cgroup_manager < 2 ^ 16
      → ((m response : C.Message) → Exchanged C H create_container p m response → IsReadable C m)
      → (call_create_container C H injected cfg p).0 ≡ ok r
      → (m : C.Message) × (response : C.Message) × Exchanged C H create_container p m response
        × ReceivesContainer C p.client.cgroup_manager cfg m
        × (r.pid ≡ Proto.CreateContainerResponse.container_pid C response)
  unfolding call_create_container container_response
  call_create_container-Exchanged cfg r fit sizes short small readable h =
      let global = p.client.cgroup_manager in
      let tracing = p.client.tracing_enabled in
      let (req, m, response, q, made, filled, exchanged, finished) =
        invoke_ok C H create_container (fill_create_container C tracing global injected cfg)
          (container_response C H) p r F h in
      (
        m,
        response,
        exchanged,
        ReceivesContainer_lem C global cfg m (readable m response exchanged) (
            fill_create_container-ReadsBack C L tracing global injected cfg req m fit sizes short
              small (F.fresh create_container req made) filled),
        ground arith,
      )

  -- Over a lawful library and a faithful runtime, with lists of fewer than 2 ^ 31 elements, a
  -- timeout of 64 bits and a chosen cgroup manager of 16, and if the request that the server takes
  -- can be read there without an error: if `ExecSyncContainer` succeeds, then the server behind the client's socket took one request whose accessors return every field of
  -- the configuration and the cgroup manager that was chosen, and the result is what the accessors
  -- of its response return.
  pub call_exec_sync_container-Exchanged :
      (cfg : ExecSyncConfig) (r : ExecContainerResult)
      → FitsExec p.client.cgroup_manager cfg
      → FitsInt32 injected.entries
      → ((m response : C.Message) → Exchanged C H exec_sync_container p m response → IsReadable C m)
      → (call_exec_sync_container C H injected cfg p).0 ≡ ok r
      → (m : C.Message) × (response : C.Message) × Exchanged C H exec_sync_container p m response
        × ReceivesExec C p.client.cgroup_manager cfg m
        × (Proto.ExecSyncContainerResponse.stdout C response ≡ ok r.stdout)
        × (Proto.ExecSyncContainerResponse.stderr C response ≡ ok r.stderr)
        × (Proto.ExecSyncContainerResponse.exit_code C response ≡ r.exit_code)
        × (Proto.ExecSyncContainerResponse.timed_out C response ≡ r.timed_out)
  unfolding call_exec_sync_container exec_response
  call_exec_sync_container-Exchanged cfg r fit short readable h =
      let global = p.client.cgroup_manager in
      let tracing = p.client.tracing_enabled in
      let (req, m, response, q, made, filled, exchanged, finished) =
        invoke_ok C H exec_sync_container (fill_exec_sync C tracing global injected cfg)
          (exec_response C H) p r F h in
      let (out, errs, code, late) = exec_response_lem C H response q r finished in
      (
        m,
        response,
        exchanged,
        fill_exec_sync-ReceivesExec C L tracing global injected cfg req m
            (readable m response exchanged) fit short (F.fresh exec_sync_container req made) filled,
        out,
        errs,
        code,
        late,
      )
