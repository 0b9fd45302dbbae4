-- ===== src/RpcServer/Call.antt =====
-- `Version` against the server that answers it (pkg/client/client.go,
-- conmon-rs/server/src/rpc.rs).
use conmon_rs.Proto.VersionRequest
use conmon_rs.Base.{ℕ, ◌<◌, ◌^◌, ◌≡◌, ◌∙◌, sym, Option, if◌then◌else◌}
use conmon_rs.Base.Results.{ok}
use conmon_rs.Base.Chain.{>>=-eq-ok}
use conmon_rs.Wire.{Capnp, root, bit, IsLawful, IsReadable}
use conmon_rs.Requests.Config.{VersionConfig}
use conmon_rs.Requests.Metadata.{Injected, set_metadata}
use conmon_rs.Requests.Fill.{verbose_of, fill_version}
use conmon_rs.Requests.Received.Reading.{bit-lt, flag_lem}
use conmon_rs.Rpc.{Host, Process, version}
use conmon_rs.Rpc.Methods.{VersionResponse, version_response, call_version}
use conmon_rs.Rpc.Delivery.{IsFaithful, Exchanged, invoke_ok}
use conmon_rs.RpcServer.{Build, answer_version}
use conmon_rs.RpcServer.Version.{version_response-answer_version}

module _ (C : Capnp) (H : Host C) (L : IsLawful C) (F : IsFaithful C H) (injected : Injected)
    (p : Process C H) where
  verbose_lem :
      (cfg : Option VersionConfig) (req m : C.Message)
      → fill_version C p.client.tracing_enabled p.client.cgroup_manager injected cfg req ≡ ok m
      → VersionRequest.verbose C m ≡ verbose_of cfg
  unfolding fill_version
  verbose_lem cfg req m h =
      let (m1, h1, r) =
        >>=-eq-ok
          (set_metadata C p.client.tracing_enabled VersionRequest.metadata_slots injected req) _
          h in
      let last : C.set_scalar root 0 1 (bit (verbose_of cfg)) m1 ≡ m = cc r in
      rw (← last) (
        flag_lem (verbose_of cfg)
          (L.scalar-set_scalar root 0 1 (bit (verbose_of cfg)) m1 (bit-lt (verbose_of cfg))))

  -- Over a lawful library and a faithful runtime, if the server behind it answers each request for
  -- its version from the constants of its build, whose version parses, in a response that can be
  -- read without an error, and has a process id of 32 bits: whenever `Version` succeeds, it returns that process id and those constants, with the
  -- cargo tree if the configuration is verbose, and with an empty one if it is nil or not verbose.
  pub call_version-answered :
      (b : Build) (process_id : ℕ) (parsed : H.SemVer) (cfg : Option VersionConfig)
      (r : VersionResponse)
      → process_id < 2 ^ 32
      → H.parse_semver b.pkg_version ≡ ok parsed
      → ((m response : C.Message)
          → Exchanged C H version p m response
          → (new : C.Message) × (answer_version C b process_id m new ≡ ok response)
            × IsReadable C response)
      → (call_version C H injected cfg p).0 ≡ ok r
      → r ≡ record {
        process_id = process_id;
        version = b.pkg_version;
        tag = b.tag;
        commit = b.commit_hash;
        build_date = b.build_time;
        target = b.build_target;
        rust_version = b.rust_version;
        cargo_version = b.cargo_version;
        cargo_tree = if verbose_of cfg then b.cargo_tree else "";
      }
  unfolding call_version
  call_version-answered b process_id parsed cfg r fits parses answers h =
      let (req, m, response, q, made, filled, exchanged, finished) =
        invoke_ok C H version
          (fill_version C p.client.tracing_enabled p.client.cgroup_manager injected cfg)
          (version_response C H) p r F h in
      let (new, answered, readable) = answers m response exchanged in
      let read =
        version_response-answer_version C L H b process_id m new response q parsed fits answered
          readable parses in
      cc (sym finished ∙ read, verbose_lem cfg req m filled)
