-- ===== src/Postgres.antt =====
-- internal/store/postgres: the same storage interface on PostgreSQL.
pub mod Adapter
pub mod Transaction
pub mod Subscribe
pub mod Paging
pub mod Aggregation
