-- ===== src/Requests/Received.antt =====
-- What the accessors of a filled request return to its reader.
pub mod Reading
pub mod Small
pub mod Exec
pub mod Create
