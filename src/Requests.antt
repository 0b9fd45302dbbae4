-- ===== src/Requests.antt =====
-- The requests that the methods of the client fill in (pkg/client/client.go, attach.go and
-- remote_fds.go: the closures that are given to the calls). They are filled through the accessors
-- of `Proto`.
pub mod Config
pub mod Metadata
pub mod Fill
pub mod Container
pub mod Mappings
pub mod Namespaces
pub mod Received
pub mod Bounds
