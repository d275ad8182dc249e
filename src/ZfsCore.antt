-- ===== src/ZfsCore.antt =====
-- The parts of libs/zfs-core that are modelled.
pub mod Allocator
pub mod Journal
pub mod Snapshot
pub mod Bytes
pub mod Directory
pub mod Utf8
pub mod Crc
pub mod Metadata
pub mod Device
