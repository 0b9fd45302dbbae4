-- ===== src/Requests/Namespaces/Translation.antt =====
-- The two numberings of the namespaces (pkg/client/client.go, pkg/client/consts.go).
use conmon_rs.Base.{ℕ, ◌<◌, ◌≡◌, some, arith}
use conmon_rs.Requests.Namespaces.{proto_namespace, client_namespace}

-- A namespace that the request translates comes back as itself through the translation of the
-- response, and its wire value is below 5.
pub client_namespace-proto_namespace :
    (n v : ℕ) → proto_namespace n ≡ some v → (client_namespace v ≡ n) × (v < 5)
unfolding proto_namespace client_namespace
client_namespace-proto_namespace n v h = ground arith
