-- ===== src/Server.antt =====
-- internal/server: the Firestore service over a storage adapter.
pub mod RunQuery
pub mod Aggregation
pub mod Mask
pub mod Writes
pub mod Commit
pub mod Documents
pub mod Reads
pub mod Listen
pub mod WriteStream
pub mod Transforms
