-- ===== src/Codec.antt =====
-- internal/codec: between Firestore messages and stored documents and queries.
pub mod Values
pub mod Query
pub mod Aggregation
pub mod Match
pub mod Documents
