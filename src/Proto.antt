-- ===== src/Proto.antt =====
-- The generated accessors of the messages (internal/proto/conmon.capnp.go), a module for each
-- struct. Byte offsets of the source are bit offsets here.
pub mod AttachRequest
pub mod CreateContainerRequest
pub mod CreateContainerResponse
pub mod CreateNamespacesRequest
pub mod CreateNamespacesResponse
pub mod ExecSyncContainerRequest
pub mod ExecSyncContainerResponse
pub mod LogDriver
pub mod NamespaceResponse
pub mod ReopenLogRequest
pub mod SetWindowSizeRequest
pub mod StartFdSocketRequest
pub mod StartFdSocketResponse
pub mod TextTextMapEntry
pub mod VersionRequest
pub mod VersionResponse
use conmon_rs.Base.{ℕ, Option}

-- Where a type of request has its metadata: the slot of `NewMetadata`, and that of
-- `SetMetadataOld` for the types that have this method.
pub record MetadataSlots : Type 0 where
  pub metadata : ℕ
  pub old : Option ℕ

-- `capnp.ObjectSize`: the bytes of data of a struct, and its pointers.
pub record ObjectSize : Type 0 where
  pub data_size : ℕ
  pub pointer_count : ℕ
