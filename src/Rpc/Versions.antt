-- ===== src/Rpc/Versions.antt =====
-- The gate of `CreateNamespaces` (pkg/client/client.go).
use conmon_rs.Base.{◌≡◌, true, arith, String}
use conmon_rs.Base.Results.{ok, err, wrap, unsupported}
use conmon_rs.Proto.VersionResponse
use conmon_rs.Wire.{Capnp}
use conmon_rs.Requests.Config.{CreateNamespacesConfig}
use conmon_rs.Requests.Metadata.{Injected}
use conmon_rs.Rpc.{Host, Process}
use conmon_rs.Rpc.Methods.{version_response, store_version, call_create_namespaces}

module _ (C : Capnp) (H : Host C) where
  -- Once the version text of an answer is read, the client holds the version that it parses to,
  -- also if a later field of the answer fails; a text that does not parse leaves the version as
  -- it was.
  pub server_version-version_response :
      (m : C.Message) (p : Process C H) (text : String)
      → VersionResponse.version C m ≡ ok text
      → (version_response C H m p).1.client.server_version
        ≡ (elim (H.parse_semver text) [ ok v ↦ v | err e ↦ p.client.server_version ])
  unfolding version_response store_version
  server_version-version_response m p text h = ground arith

  -- After an answer whose version is older than 0.5.0, `CreateNamespaces` is refused: nothing is
  -- sent, and neither the world nor the configuration changes. This holds also if a later field of
  -- that answer could not be read.
  pub create_namespaces_outdated :
      (injected : Injected) (m : C.Message) (p : Process C H) (text : String) (v : H.SemVer)
      (cfg : CreateNamespacesConfig)
      → VersionResponse.version C m ≡ ok text
      → H.parse_semver text ≡ ok v
      → H.semver_lt v (H.semver 0 5 0) ≡ true
      → let p' = (version_response C H m p).1 in
        call_create_namespaces C H injected cfg p'
        ≡ ((err (wrap "requires at least 0.5.0" unsupported), cfg), p')
  unfolding call_create_namespaces
  create_namespaces_outdated injected m p text v cfg h k old =
      ground (arith, server_version-version_response m p text h)
