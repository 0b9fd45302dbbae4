-- ===== src/Consts.antt =====
-- The constants of pkg/client/consts.go and the enumerations of internal/proto/conmon.capnp.go, a
-- module for each type.
pub mod LogLevel
pub mod LogDriver
pub mod CgroupManager
pub mod Namespace
pub mod ProtoNamespace
pub mod ProtoCgroupManager
pub mod LogDriverType
pub mod ProtoLogDriverType
