-- ===== src/Attach.antt =====
-- Attaching to a container (pkg/client/attach.go).
pub mod Readers
pub mod Config
pub mod Output
pub mod Session
pub mod Channels
pub mod Closing
pub mod Beginning
