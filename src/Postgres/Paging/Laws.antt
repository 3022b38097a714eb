-- ===== src/Postgres/Paging/Laws.antt =====
-- The lists of both databases, page by page.
use embyr.Base.{ℕ, ◌+◌, ◌<◌, String, List, [], Option, some, ◌≡◌, arith, length}
use embyr.Base.Int.{ℤ, half_range}
use embyr.Store.{Document, ListPage}
use embyr.Sqlite.Table.{Row}
use embyr.Sqlite.Adapter.{Adapter as SqliteAdapter}
use embyr.Sqlite.Paging.{positive_or, listing, listed, select_rows, order_by_path}
use embyr.Sqlite.Paging.{list_documents as sqlite_list_documents}
use embyr.Sqlite.Paging.Walk.{walk, walk_complete, positive_or_pos}
use embyr.Postgres.Adapter.{Adapter}
use embyr.Postgres.Paging.{Selection, list_documents}

abbrev entries : ListPage → List Document × List ℕ
entries p = (p.documents, p.next_page_token)

-- The documents that a client gets from all pages of `ListDocuments`, in `fuel` rounds.
abbrev pub walk_sqlite : String → String → ℤ → SqliteAdapter → ℕ → Option (List Document)
walk_sqlite parent collection_id page_size a fuel =
    walk (λ t. entries (sqlite_list_documents parent collection_id page_size t a)) fuel []

abbrev pub walk_postgres : Selection → String → String → ℤ → Adapter → ℕ → Option (List Document)
walk_postgres sql parent collection_id page_size a fuel =
    walk (λ t. entries (list_documents sql parent collection_id page_size t a)) fuel []

list_documents_complete :
    (parent collection_id : String) (page_size : ℤ) (a : SqliteAdapter) (fuel : ℕ)
    → length (listing parent collection_id a.documents) + positive_or 100 page_size < half_range
    → length (listing parent collection_id a.documents) < fuel
    → walk_sqlite parent collection_id page_size a fuel
      ≡ some (listing parent collection_id a.documents)
unfolding sqlite_list_documents
list_documents_complete parent collection_id page_size a fuel fits enough =
    walk_complete (positive_or 100 page_size) (listing parent collection_id a.documents) fuel
      (positive_or_pos 100 page_size (omega arith)) fits enough

postgres_list_documents_complete :
    (sql : Selection) (parent collection_id : String) (page_size : ℤ) (b : Adapter) (fuel : ℕ)
    → ((rows : List Row) → sql.by_path rows ≡ order_by_path rows)
    → length (listing parent collection_id b.documents) + positive_or 100 page_size < half_range
    → length (listing parent collection_id b.documents) < fuel
    → walk_postgres sql parent collection_id page_size b fuel
      ≡ some (listing parent collection_id b.documents)
unfolding list_documents listing
postgres_list_documents_complete sql parent collection_id page_size b fuel bytes fits enough =
    rw (bytes (select_rows (listed parent collection_id) b.documents)) (
      walk_complete (positive_or 100 page_size) (listing parent collection_id b.documents) fuel
        (positive_or_pos 100 page_size (omega arith)) fits enough)

-- A client that follows the page tokens of `ListDocuments` to the end gets every document of the
-- collection, each once and in the order of the paths, on SQLite and on PostgreSQL, whatever page
-- sizes it asks for. The two have the same rows, PostgreSQL's collation is the order of the bytes,
-- the offsets stay within int64, and there are more rounds than documents.
pub list_documents_agree :
    (sql : Selection) (parent collection_id : String) (n m : ℤ) (a : SqliteAdapter) (b : Adapter)
    (fuel : ℕ)
    → a.documents ≡ b.documents
    → ((rows : List Row) → sql.by_path rows ≡ order_by_path rows)
    → length (listing parent collection_id a.documents) + positive_or 100 n < half_range
    → length (listing parent collection_id a.documents) + positive_or 100 m < half_range
    → length (listing parent collection_id a.documents) < fuel
    → (walk_sqlite parent collection_id n a fuel ≡ some (listing parent collection_id a.documents))
      × (walk_postgres sql parent collection_id m b fuel
          ≡ some (listing parent collection_id a.documents))
list_documents_agree sql parent collection_id n m a b fuel same bytes small fits enough = (
  list_documents_complete parent collection_id n a fuel small enough,
  rw same (
      postgres_list_documents_complete sql parent collection_id m b fuel bytes (rw same at fits)
        (rw same at enough)),
)
