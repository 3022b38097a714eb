-- ===== src/Tests/Postgres.antt =====
-- The PostgreSQL adapter at a concrete input.
use embyr.Base.{
  not, str_eq, String, ◌*◌, ◌/◌, List, [], ◌∷◌, ◌++◌, map, some, ◌≡◌, refl, true, arith,
}
use embyr.Base.Int.{pos}
use embyr.Store.{upsert, WriteOp, put, upserted, deleted, DocChange}
use embyr.Store.Path.{parse_path}
use embyr.Sqlite.Table.{Row}
use embyr.Sqlite.Spec.{delete}
use embyr.Postgres.Adapter.{TxRow, Database, Adapter, notify_doc_change}
use embyr.Postgres.Transaction.{commit_ops, committed, delivered}
use embyr.Sqlite.Table.{document_of}
use embyr.Sqlite.Paging.{order_by_path, listing, positive_or}
use embyr.Postgres.Paging.{Selection}
use embyr.Postgres.Paging.Laws.{walk_sqlite, walk_postgres, list_documents_agree}
use embyr.Text.{str_lt}
use embyr.Postgres.Subscribe.{subscribe, listening, run as run_events}
use embyr.Postgres.Subscribe.Laws.{outage, session, run-outage_recovers}
use embyr.Postgres.Adapter.Run.{run}
use embyr.Postgres.Transaction.Writes.{perform_all, postgres_commit_ops-perform_all}
use embyr.Tests.{database, ada_row, bob_row, new_ada}

-- A database that keeps every text, microseconds, and payloads that do not say `huge`.
abbrev server : Database
server = record {
  jsonb = λ s. some s;
  timestamptz = λ t. t / 1000 * 1000;
  fits = λ c. true;
  accepts = λ c. not (str_eq c.content "huge");
}

abbrev parent : String
parent = "projects/p/databases/d/documents"

abbrev rows : Adapter
rows = record {
  documents = ada_row ∷ bob_row ∷ [];
  transactions = [];
  notified = [];
  tx_ttl = pos 0;
}

-- A document is written, deleted and written again, which announces the same twice.
abbrev again : WriteOp
again =
    put (record new_ada { path = "projects/p/databases/d/documents/users/eve"; created_at = 1000 })
      upsert

writes : List WriteOp
writes = again ∷ WriteOp.delete "projects/p/databases/d/documents/users/eve" ∷ again ∷ []

abbrev eve : Row
eve = record {
  path = "projects/p/databases/d/documents/users/eve";
  collection = "users";
  parent = "projects/p/databases/d/documents";
  content = "new";
  created_at = 1000;
  updated_at = 9000;
  version = 1;
}

abbrev announcements : List DocChange
unfolding notify_doc_change
announcements =
    notify_doc_change server upserted eve "new"
    ∷ notify_doc_change server deleted eve ""
    ∷ notify_doc_change server upserted eve "new"
    ∷ []

abbrev open_tx : TxRow
open_tx = record { id = "t1"; started_at = 5; reads = []; expires_at = 60 }

postgres_commit_ops-perform_all_example :
    let commit =
      (committed 9000 open_tx writes (commit_ops server 9000 writes rows.documents) rows).1 in
    (perform_all server 9000 writes rows
      ≡ record rows { documents = eve ∷ rows.documents; notified = announcements })
    × (commit.documents ≡ (perform_all server 9000 writes rows).documents)
    × (commit.notified ≡ delivered announcements)
unfolding writes parse_path commit_ops announcements
postgres_commit_ops-perform_all_example =
    postgres_commit_ops-perform_all server 9000 open_tx writes rows (eve ∷ rows.documents)
      announcements ((λ e. omega (arith, e), refl), ((λ e. omega (arith, e), refl), tt)) refl

-- A database whose collation is the order of the bytes.
abbrev bytewise : Selection
bytewise = record {
  by_path = λ rows. order_by_path rows;
  by_name = λ names. names;
  select = λ st rows. map document_of rows;
}

list_documents_agree_example :
    (walk_sqlite parent "users" (pos 1) database 3
      ≡ some (listing parent "users" database.documents))
    × (walk_postgres bytewise parent "users" (pos 5) rows 3
        ≡ some (listing parent "users" database.documents))
unfolding listing positive_or str_lt
list_documents_agree_example =
    list_documents_agree bytewise parent "users" (pos 1) (pos 5) database rows 3 refl (λ l. refl)
      (omega arith) (omega arith) (omega arith)

abbrev born : DocChange
born = record {
  path = "a/b";
  collection = "a";
  parent = "";
  kind = upserted;
  version = 1;
  content = "{}";
}

abbrev gone : DocChange
gone = record born { kind = deleted; content = "" }

run-outage_recovers_example :
    ((run_events (outage (born ∷ []) 3) subscribe).waits ≡ 1 ∷ 2 ∷ 4 ∷ [])
    × ((run_events (outage (born ∷ []) 3 ++ session (gone ∷ [])) subscribe).phase ≡ listening)
    × ((run_events (outage (born ∷ []) 3 ++ session (gone ∷ [])) subscribe).received
        ≡ born ∷ gone ∷ [])
unfolding subscribe
run-outage_recovers_example = run-outage_recovers (born ∷ []) (gone ∷ []) 3 subscribe refl
