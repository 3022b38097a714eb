-- ===== src/Listen.antt =====
-- internal/listen: the registry of the Listen handler.
pub mod Registry
