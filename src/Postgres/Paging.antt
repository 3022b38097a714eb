-- ===== src/Postgres/Paging.antt =====
-- Listing and querying in pages on PostgreSQL: `ListDocuments`, `QueryDocuments` and
-- `ListCollectionIds` of internal/store/postgres/postgres.go. Texts are ordered by the collation of
-- the database.
pub mod Laws
use embyr.Base.{ℕ, String, List, map, if◌then◌else◌}
use embyr.Base.Int.{ℤ}
use embyr.Base.Result.{invalid_argument, Result, ok, err}
use embyr.Store.{Document, Query, ListPage}
use embyr.Store.Page.{decode_page_token}
use embyr.Sqlite.Table.{Row, document_of}
use embyr.Sqlite.Paging.{
  positive_or, page_of, listed, select_rows, collections_under, Statement, statement_of,
  valid_statement, has_cursor,
}
use embyr.Postgres.Adapter.{Adapter}

-- PostgreSQL: ORDER BY path and ORDER BY collection, and the rows that a query's SELECT gives.
pub record Selection : Type 0 where
  pub by_path : List Row → List Row
  pub by_name : List String → List String
  pub select : Statement → List Row → List Document

unfoldable pub list_documents : Selection → String → String → ℤ → List ℕ → Adapter → ListPage
unfolding positive_or page_of listed select_rows
list_documents sql parent collection_id page_size page_token a =
    let (docs, next) =
      page_of (positive_or 100 page_size) (decode_page_token page_token)
        (map document_of (sql.by_path (select_rows (listed parent collection_id) a.documents))) in
    record { documents = docs; next_page_token = next }

unfoldable pub list_collection_ids :
    Selection → String → ℤ → List ℕ → Adapter → List String × List ℕ
unfolding positive_or page_of collections_under
list_collection_ids sql parent page_size page_token a =
    page_of (positive_or 100 page_size) (decode_page_token page_token)
      (sql.by_name (collections_under parent a.documents))

unfoldable pub query_documents : Selection → Query → Adapter → Result ListPage
unfolding positive_or page_of statement_of valid_statement has_cursor
query_documents sql q a =
    let offset = if has_cursor q then 0 else decode_page_token q.page_token in
    let (docs, next) =
      page_of (positive_or 300 q.page_size) offset (sql.select (statement_of q) a.documents) in
    if valid_statement (statement_of q)
    then ok (record { documents = docs; next_page_token = next })
    else err invalid_argument
