-- ===== src/Server/Listen.antt =====
-- The Listen stream (internal/server/listen.go): what it sends (Messages), the snapshot of a target
-- (Snapshot), what a change sends to the targets (Changes), and the loop over requests, changes
-- and ticks (Stream).
pub mod Messages
pub mod Snapshot
pub mod Changes
pub mod Stream
pub mod View
pub mod Watch
pub mod Announce
