-- ===== src/Sqlite.antt =====
-- internal/store/sqlite/sqlite.go: the SQLite backend. `Table` has the rows and the statements,
-- `Adapter` the adapter with its subscribers and the document operations, `Transaction` the
-- Firestore transactions, `Paging` the listing and querying of documents.
pub mod Table
pub mod Adapter
pub mod Spec
pub mod Refine
pub mod Transaction
pub mod Paging
pub mod Aggregation
